-- ===== src/Tests/Nats.antt =====
-- The theorems about shim/internal/storage/nats and shim/internal/config at concrete inputs.
use dropin_queue.Base.{
  ◌≢◌, ◌∙◌, sym, not, any, select, Bool, Bool-cases, inl, inr, text_eq→eq, text_eq_refl, ◌≡◌, ◌↔◌,
  refl, true, false, some, List, [], ◌∷◌, lookup, arith, pos, ltb_ℤ, ◌&&◌, ◌*◌, contains,
  has_suffix, has_prefix, Text, codes, text_eq, Map, if◌then◌else◌,
}
use dropin_queue.Types.{MessageAttribute, Queue, QueueAttributes, default_queue_attributes}
use dropin_queue.Storage.{ok}
use dropin_queue.Sqs.Validation.{is_valid_queue_name}
use dropin_queue.Config.{default_config, validate}
use dropin_queue.Config.Accepted.{Startable, IsIdentified, validate-IsIdentified}
use dropin_queue.Nats.Names.{Client, queue_stream_name, sanitize_stream_name}
use dropin_queue.Nats.Names.Shared.{undotted, stream_name_iff}
use dropin_queue.Nats.Receipts.{
  RawUrl, Conn, encode_receipt_handle, publish_ack, delete_message, change_message_visibility,
  nak_payload,
}
use dropin_queue.Nats.Receipts.Acked.{
  Reply, v1, reply_subject, dotted, text_eq_apart, IsAcking, IsRefused, handle-acknowledges,
}
use dropin_queue.Nats.Headers.{Base64, Header, message_headers, parse_attributes}
use dropin_queue.Nats.Headers.Sent.{string, binary}
use dropin_queue.Nats.Headers.RoundTrip.{headers_read_back}
use dropin_queue.Nats.Broker.{seconds, second}
use dropin_queue.Nats.Metadata.{metadata, restored}
use dropin_queue.Nats.Metadata.RoundTrip.{restored-metadata}
use dropin_queue.Nats.Queues.{stream_cfg}
use dropin_queue.Nats.Queues.Window.{window-fits}

abbrev orders_fifo : Text
orders_fifo = codes "orders.fifo"

abbrev pub orders : Text
orders = codes "orders_fifo"

names_valid : (is_valid_queue_name orders_fifo ≡ true) × (is_valid_queue_name orders ≡ true)
unfolding is_valid_queue_name contains has_suffix has_prefix text_eq
names_valid = (refl, refl)

stream_name_iff_example :
    (queue_stream_name orders_fifo ≡ queue_stream_name orders)
    ↔ (undotted orders_fifo ≡ undotted orders)
stream_name_iff_example = stream_name_iff orders_fifo orders names_valid.0 names_valid.1

validate-IsIdentified_example :
    Startable default_config.backend default_config × IsIdentified default_config
unfolding validate
validate-IsIdentified_example = validate-IsIdentified default_config refl

abbrev pub plain_url : RawUrl
plain_url = record { encode_to_string = λ t. t; decode_string = λ t. some t }

-- A broker that keeps the reply subjects of the messages in flight, and ends a message's flight when
-- anything is published on its reply subject.
abbrev broker : Conn (List Text)
broker = record {
  publish = λ subject payload s. (true, select (λ t. not (text_eq t subject)) s);
  flush = λ s. (true, s);
}

abbrev in_flight : List Text → Text → Bool
in_flight s reply = any (λ t. text_eq t reply) s

ended :
    (reply : Text) (s : List Text) → in_flight (select (λ t. not (text_eq t reply)) s) reply ≡ false
ended reply [] = refl
ended reply (t ∷ s) = ground (arith, ended reply s)

others :
    (reply other : Text) (s : List Text)
    → other ≢ reply
    → in_flight (select (λ t. not (text_eq t reply)) s) other ≡ in_flight s other
others reply other [] differs = refl
others reply other (t ∷ s) differs = elim (Bool-cases (text_eq t other)) [
  | inl same ↦
      let apart : text_eq t reply ≡ false =
        text_eq_apart t reply (λ e. differs (sym (text_eq→eq t other same) ∙ e)) in
      rw (apart, same) refl
  | inr different ↦ ground (arith, different, others reply other s differs)
]

broker-IsAcking : IsAcking broker in_flight
broker-IsAcking = record {
  taken = λ reply s flies. refl;
  ended = λ reply s flies. ended reply s;
  others = λ reply other s flies differs. others reply other s differs;
  flushes = λ s. refl;
  kept = λ s reply. refl;
}

abbrev pub tokens : List Text
tokens =
    queue_stream_name orders
    ∷ codes "shim-consumer-orders_fifo"
    ∷ codes "1"
    ∷ codes "7"
    ∷ codes "7"
    ∷ codes "1700000000"
    ∷ codes "0"
    ∷ []

reply : Reply (queue_stream_name orders) tokens
reply =
    v1 (codes "shim-consumer-orders_fifo")
      (codes "1" ∷ codes "7" ∷ codes "7" ∷ codes "1700000000" ∷ codes "0" ∷ []) refl (ground arith)

abbrev handle : Text
handle = encode_receipt_handle plain_url (reply_subject tokens)

abbrev flying : List Text
flying = codes "other" ∷ reply_subject tokens ∷ []

streams_apart : queue_stream_name orders ≢ queue_stream_name (codes "bills")
unfolding queue_stream_name sanitize_stream_name
streams_apart e = absurd (cc e)

flies : in_flight flying (reply_subject tokens) ≡ true
unfolding text_eq dotted
flies = ground (arith, text_eq_refl (reply_subject tokens))

not_mine : codes "other" ≢ reply_subject tokens
unfolding dotted
not_mine e = absurd (cc e)

handle-acknowledges_example :
    ((delete_message broker plain_url orders handle flying).0 ≡ ok tt)
    × (in_flight (delete_message broker plain_url orders handle flying).1 (reply_subject tokens)
        ≡ false)
    × (in_flight (delete_message broker plain_url orders handle flying).1 (codes "other")
        ≡ in_flight flying (codes "other"))
    × (change_message_visibility broker plain_url orders handle (pos 60) flying
        ≡ publish_ack broker (reply_subject tokens) (nak_payload (pos 60)) flying)
    × IsRefused flying (delete_message broker plain_url (codes "bills") handle flying)
    × IsRefused flying
        (change_message_visibility broker plain_url (codes "bills") handle (pos 60) flying)
handle-acknowledges_example =
    handle-acknowledges plain_url broker (λ t. refl) orders tokens reply in_flight broker-IsAcking
      flying flies (pos 60) (codes "other") (codes "bills") refl not_mine streams_apart

abbrev pub plain64 : Base64
plain64 = record { encode_to_string = λ t. t; decode_string = λ t. some t }

abbrev attributes : Map MessageAttribute
attributes =
    (
      codes "kind",
      record { data_type = codes "String"; string_value = codes "new"; binary_value = [] },
    )
    ∷ (
      codes "blob",
      record { data_type = codes "Binary"; string_value = []; binary_value = 0 ∷ 255 ∷ [] },
    )
    ∷ []

headers_read_back_example :
    (hdr : Header) × (message_headers plain64 attributes ≡ ok hdr)
    × ((n : Text) → lookup n (parse_attributes plain64 hdr) ≡ lookup n attributes)
unfolding lookup text_eq has_suffix
headers_read_back_example =
    headers_read_back plain64 (λ t. refl) attributes
      ((refl, string (codes "new")), ((refl, binary (0 ∷ 255 ∷ [])), tt)) (refl, (refl, tt))

abbrev pub client : Client
client = record {
  prefix = [];
  replicas = 3;
  max_ack_pending = 1000;
  topic_max_age = pos 3600000000000;
}

abbrev queue : Text → QueueAttributes → Queue
queue name a = record {
  name = name;
  url = [];
  arn = [];
  account_id = [];
  region = [];
  attributes = a;
  tags = (codes "team", codes "sales") ∷ [];
  fifo = false;
  created_at = 5;
}

abbrev short : QueueAttributes
unfolding default_queue_attributes
short = record default_queue_attributes {
  message_retention_period = pos 60;
  content_based_deduplication = true;
}

restored-metadata_example :
    restored (metadata 9 (queue orders short)) (queue (codes "bills") default_queue_attributes)
    ≡ record (queue (codes "bills") default_queue_attributes) {
      attributes = short;
      fifo = false;
      tags = (codes "team", codes "sales") ∷ [];
    }
restored-metadata_example =
    restored-metadata 9 (queue (codes "bills") default_queue_attributes) (queue orders short)

window-fits_example :
    let cfg = stream_cfg client (queue orders short) in
    (ltb_ℤ (pos 0) cfg.max_age ≡ true)
    × (ltb_ℤ cfg.max_age cfg.duplicates ≡ false)
    × (cfg.duplicates ≡ (
        if ltb_ℤ (pos 0) short.message_retention_period
          && ltb_ℤ short.message_retention_period (pos 300)
        then seconds short.message_retention_period
        else pos (300 * second)))
window-fits_example = window-fits client (queue orders short)

-- An attribute named dt is lost.
dt_is_lost :
    parse_attributes plain64
      ((codes "X-Sqs-Atr-dt", codes "x" ∷ []) ∷ (codes "X-Sqs-Atr-dt-dt", codes "String" ∷ []) ∷ [])
    ≡ []
unfolding parse_attributes lookup has_prefix has_suffix text_eq
dt_is_lost = refl
