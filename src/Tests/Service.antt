-- ===== src/Tests/Service.antt =====
-- The services' checks and answers at concrete parameters.
use dropin_queue.Base.{
  ◌≤◌, ◌≡◌, ◌≢◌, ◌↔◌, refl, true, ◌&&◌, ◌||◌, none, some, List, [], ◌∷◌, map, any, pos, arith, Text,
  codes, text_eq, has_prefix,
}
use dropin_queue.Types.{Queue, default_queue_attributes}
use dropin_queue.Awserr.Code.{code_text, invalid_protocol, over_limit, internal_error}
use dropin_queue.Awserr.Faults.{
  is_sender_fault, supported-is_sender_fault, register_sender_faults, register-is_sender_fault,
  server_registry, sender_codes,
}
use dropin_queue.Protocol.Arn.{queue_name_from_url, new_queue_url, new_sqs_arn}
use dropin_queue.Postgres.Tables.{QueueRow}
use dropin_queue.Postgres.Receipts.{encode_receipt_handle, decode_receipt_handle, decode-encode}
use dropin_queue.Postgres.Queues.{list_queues}
use dropin_queue.Postgres.Queues.Like.{like}
use dropin_queue.Postgres.Queues.Listed.{list_queues-prefix}
use dropin_queue.Postgres.Backend.{backend}
use dropin_queue.Sqs.Validation.{
  validate_attributes, InRange, validate_attributes-InRange, is_valid_queue_name,
}
use dropin_queue.Sqs.Service.{Service, name_or_url}
use dropin_queue.Sqs.Service.Names.{valid_name-located}
use dropin_queue.Sqs.Batch.{
  BatchSendEntry, BatchDeleteEntry, BatchResult, BatchResultEntry, send_message_batch,
  delete_message_batch,
}
use dropin_queue.Sqs.Batch.Answered.{answers, count, send_message_batch-answers}
use dropin_queue.Sqs.Batch.Answered.Deleted.{delete_message_batch-answers}
use dropin_queue.Tests.{test_lib, orders, start, value}

supported-is_sender_fault_example :
    (is_sender_fault server_registry over_limit ≡ true) ↔ (over_limit ≢ internal_error)
supported-is_sender_fault_example = supported-is_sender_fault over_limit (λ e. cc e)

register-is_sender_fault_example :
    is_sender_fault (register_sender_faults sender_codes (invalid_protocol ∷ [])) over_limit ≡ (
      any (λ d. text_eq (code_text over_limit) (code_text d)) (invalid_protocol ∷ [])
      || is_sender_fault sender_codes over_limit)
register-is_sender_fault_example =
    register-is_sender_fault sender_codes (invalid_protocol ∷ []) over_limit

decode-encode_example :
    decode_receipt_handle (encode_receipt_handle 42 (codes "a:b")) ≡ some (pos 42, codes "a:b")
decode-encode_example = decode-encode 42 (codes "a:b") (omega arith) (λ e. cc e)

validate_attributes-InRange_example :
    (validate_attributes default_queue_attributes ≡ none) ↔ InRange default_queue_attributes
validate_attributes-InRange_example = validate_attributes-InRange default_queue_attributes

abbrev service : Service
service = record {
  account_id = codes "000000000000";
  region = codes "us-east-1";
  endpoint_url = codes "http://localhost:4566";
}

valid_name-located_example :
    (name_or_url [] (new_queue_url service.endpoint_url service.account_id (codes "a.fifo"))
      ≡ codes "a.fifo")
    × (queue_name_from_url (new_sqs_arn service.region service.account_id (codes "a.fifo"))
        ≡ codes "a.fifo")
unfolding is_valid_queue_name new_queue_url
valid_name-located_example =
    valid_name-located service (codes "a.fifo") refl refl (omega arith) (omega arith)

abbrev listed : List Queue
listed = value [] (list_queues (codes "or") start).0

list_queues-prefix_example :
    any (λ (q : Queue). text_eq q.name (codes "orders")) listed
    ≡ any
        (λ (q : QueueRow). has_prefix (codes "or") q.name && text_eq q.name (codes "orders"))
        start.queues
unfolding list_queues
list_queues-prefix_example =
    list_queues-prefix (codes "or") start listed (omega arith) refl (codes "orders")

-- LIKE takes an underscore in a prefix for any byte.
like_wildcard : like (codes "a_b%") (codes "axb") ≡ true
unfolding like
like_wildcard = refl

abbrev batch_entry : Text → Text → BatchSendEntry
batch_entry id body = record {
  id = id;
  message_body = body;
  delay_seconds = pos 0;
  message_group_id = codes "g";
  message_deduplication_id = id;
  message_attributes = [];
}

abbrev batch : List BatchSendEntry
batch = batch_entry (codes "1") (codes "hi") ∷ batch_entry (codes "2") [] ∷ []

abbrev batch_answer : BatchResult
batch_answer =
    value (record { successful = []; failed = [] })
      (send_message_batch (backend test_lib []) (some (codes "orders", [], batch)) start).0

send_message_batch-answers_example :
    (answers (codes "2") batch_answer
      ≡ count (codes "2") (map (λ (e : BatchSendEntry). e.id) batch))
    × (count (codes "2") (map (λ (e : BatchSendEntry). e.id) batch) ≤ 1)
unfolding send_message_batch backend orders
send_message_batch-answers_example =
    send_message_batch-answers (backend test_lib []) (codes "orders") [] batch start batch_answer
      refl (codes "2")

abbrev delete_batch : List BatchDeleteEntry
delete_batch =
    record { id = codes "1"; receipt_handle = codes "pg1:1:7"; visibility_timeout = pos 0 }
    ∷ record { id = codes "2"; receipt_handle = codes "pg1:"; visibility_timeout = pos 0 }
    ∷ []

abbrev delete_answer : BatchResult
delete_answer =
    value (record { successful = []; failed = [] })
      (delete_message_batch (backend test_lib []) (some (codes "orders", [], delete_batch)) start).0

delete_answer_first : map (λ (x : BatchResultEntry). x.id) delete_answer.successful ≡ codes "1" ∷ []
unfolding delete_message_batch backend orders
delete_answer_first = refl

delete_message_batch-answers_example :
    (answers (codes "2") delete_answer
      ≡ count (codes "2") (map (λ (e : BatchDeleteEntry). e.id) delete_batch))
    × (count (codes "2") (map (λ (e : BatchDeleteEntry). e.id) delete_batch) ≤ 1)
unfolding delete_message_batch backend orders
delete_message_batch-answers_example =
    delete_message_batch-answers (backend test_lib []) (codes "orders") [] delete_batch start
      delete_answer refl (codes "2")
