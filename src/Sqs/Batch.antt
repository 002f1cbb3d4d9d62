-- ===== src/Sqs/Batch.antt =====
-- SendMessageBatch and DeleteMessageBatch of shim/internal/sqs/service.go.
pub mod Answered
use dropin_queue.Base.{
  ℕ, ◌+◌, ltb, Bool, true, false, ◌&&◌, ◌||◌, not, Option, none, some, List, [], ◌∷◌, ◌++◌, ℤ, pos,
  any, length, Text, text_eq, is_empty, Map, if◌then◌else◌,
}
use dropin_queue.Types.{Queue, Message}
use dropin_queue.Awserr.Code.{
  Code, missing_parameter, invalid_parameter_value, queue_does_not_exist,
  batch_entry_ids_not_distinct, too_many_entries_in_batch, empty_batch_request,
}
use dropin_queue.Awserr.Faults.{is_sender_fault, from_storage, server_registry}
use dropin_queue.Storage.{Storage, Op, Result, Err, ok, err, aws, pure, fail, ◌>>=◌, ◌>>◌}
use dropin_queue.Protocol.Attributes.{
  MessageAttributeValue, message_attribute_to_types, message_attributes_size,
}
use dropin_queue.Sqs.Validation.{outside, validate_message_attributes}
use dropin_queue.Sqs.Service.{name_or_url, on_queue}
use dropin_queue.Sqs.Messages.{outgoing, max_batch_total_bytes, fifo_error}

pub record BatchSendEntry : Type 0 where
  pub id : Text
  pub message_body : Text
  pub delay_seconds : ℤ
  pub message_group_id : Text
  pub message_deduplication_id : Text
  pub message_attributes : Map MessageAttributeValue

pub record BatchDeleteEntry : Type 0 where
  pub id : Text
  pub receipt_handle : Text
  pub visibility_timeout : ℤ

pub record BatchResultEntry : Type 0 where
  pub id : Text
  pub message_id : Text
  pub md5_of_body : Text
  pub sequence_no : Text

pub record BatchFailureEntry : Type 0 where
  pub id : Text
  pub code : Code
  pub sender_fault : Bool

pub record BatchResult : Type 0 where
  pub successful : List BatchResultEntry
  pub failed : List BatchFailureEntry

pub data Outcome : Type 0 where
  success : BatchResultEntry → Outcome
  failure : BatchFailureEntry → Outcome

abbrev pub max_batch_entries : ℕ
max_batch_entries = 10

-- A failure that the entry itself causes.
abbrev rejected : Text → Code → Outcome
rejected id c = failure (record { id = id; code = c; sender_fault = true })

-- A failure of the storage: AsAWSError and IsSenderFault.
unfoldable pub storage_failure : Text → Err → Outcome
unfolding from_storage is_sender_fault server_registry
storage_failure id e = failure (record {
  id = id;
  code = from_storage queue_does_not_exist e;
  sender_fault = is_sender_fault server_registry (from_storage queue_does_not_exist e);
})

abbrev pub add : Outcome → BatchResult → BatchResult
add (success x) res = record res { successful = res.successful ++ x ∷ [] }
add (failure x) res = record res { failed = res.failed ++ x ∷ [] }

-- The ids are given and distinct; the answer is the size of the bodies and attributes.
unfoldable pub check_entries : List BatchSendEntry → List Text → ℕ → Result ℕ
unfolding validate_message_attributes message_attributes_size text_eq
check_entries [] seen total = ok total
check_entries (e ∷ es) seen total =
    let rest =
      check_entries es (e.id ∷ seen)
        (total + (length e.message_body + message_attributes_size e.message_attributes)) in
    if is_empty e.id
    then err (aws invalid_parameter_value)
    else if any (text_eq e.id) seen
    then err (aws batch_entry_ids_not_distinct)
    else elim (validate_message_attributes e.message_attributes) [
      | none ↦ rest
      | some c ↦ err (aws c)
    ]

unfoldable pub check_ids : List BatchDeleteEntry → List Text → Result (Unit {0})
unfolding text_eq
check_ids [] seen = ok tt
check_ids (e ∷ es) seen =
    let rest = check_ids es (e.id ∷ seen) in
    if is_empty e.id
    then err (aws invalid_parameter_value)
    else if any (text_eq e.id) seen
    then err (aws batch_entry_ids_not_distinct)
    else rest

abbrev lift : {S A : Type 0} → Result A → Op S A
lift x s = (x, s)

-- The checks that come before the queue's name.
abbrev pub counted : {S A E : Type 0} → List E → Op S A → Op S A
counted [] m = fail (aws empty_batch_request)
counted (e ∷ es) m =
    if ltb max_batch_entries (length (e ∷ es)) then fail (aws too_many_entries_in_batch) else m

-- An entry's own errors, in the order of the code.
unfoldable pub entry_error : Queue → BatchSendEntry → Option Code
unfolding fifo_error
entry_error q e =
    if is_empty e.message_body
    then some missing_parameter
    else if outside 0 900 e.delay_seconds
    then some invalid_parameter_value
    else fifo_error q e.delay_seconds e.message_group_id

module _ {S : Type 0} (storage : Storage S) where
  sent : Queue → Text → Result Message → Outcome
  unfolding storage_failure
  sent q id (ok saved) = success (record {
    id = id;
    message_id = saved.id;
    md5_of_body = saved.md5_of_body;
    sequence_no = if q.fifo then saved.id else [];
  })
  sent q id (err e) = storage_failure id e

  send_accepted : Queue → Text → BatchSendEntry → Option Code → S → Outcome × S
  unfolding sent message_attribute_to_types
  send_accepted q name e (some c) s = (rejected e.id c, s)
  send_accepted q name e none s =
      let out =
        storage.send_message name
          (outgoing e.message_body e.message_attributes e.message_group_id
            e.message_deduplication_id)
          s in
      (sent q e.id out.0, out.1)

  unfoldable pub send_entry : Queue → Text → BatchSendEntry → S → Outcome × S
  unfolding entry_error send_accepted
  send_entry q name e s = send_accepted q name e (entry_error q e) s

  unfoldable pub send_entries : Queue → Text → List BatchSendEntry → BatchResult → Op S BatchResult
  unfolding send_entry
  send_entries q name [] res s = (ok res, s)
  send_entries q name (e ∷ es) res s =
      send_entries q name es (add (send_entry q name e s).0 res) (send_entry q name e s).1

  unfoldable pub send_to : List BatchSendEntry → Text → Op S BatchResult
  unfolding check_entries send_entries
  send_to entries queue = do
    total ← lift (check_entries entries [] 0)
    if ltb max_batch_total_bytes total then fail (aws Code.message_too_large) else do
      q ← storage.get_queue queue
      send_entries q queue entries (record { successful = []; failed = [] })

  -- The queue's name, its URL and the entries.
  unfoldable pub send_message_batch : Option (Text × Text × List BatchSendEntry) → Op S BatchResult
  unfolding send_to name_or_url
  send_message_batch none = fail (aws empty_batch_request)
  send_message_batch (some (name, url, entries)) =
      counted entries (on_queue name url (send_to entries))

  deleted : Text → Result (Unit {0}) → Outcome
  unfolding storage_failure
  deleted id (ok u) =
      success (record { id = id; message_id = []; md5_of_body = []; sequence_no = [] })
  deleted id (err e) = storage_failure id e

  unfoldable pub delete_entry : Text → BatchDeleteEntry → S → Outcome × S
  unfolding deleted
  delete_entry name e s =
      let out = storage.delete_message name e.receipt_handle s in
      if is_empty e.receipt_handle
      then (rejected e.id missing_parameter, s)
      else (deleted e.id out.0, out.1)

  unfoldable pub delete_entries : Text → List BatchDeleteEntry → BatchResult → Op S BatchResult
  unfolding delete_entry
  delete_entries name [] res s = (ok res, s)
  delete_entries name (e ∷ es) res s =
      delete_entries name es (add (delete_entry name e s).0 res) (delete_entry name e s).1

  unfoldable pub delete_from : List BatchDeleteEntry → Text → Op S BatchResult
  unfolding check_ids delete_entries
  delete_from entries queue = do
    lift (check_ids entries [])
    storage.get_queue queue
    delete_entries queue entries (record { successful = []; failed = [] })

  unfoldable pub delete_message_batch :
      Option (Text × Text × List BatchDeleteEntry) → Op S BatchResult
  unfolding delete_from name_or_url
  delete_message_batch none = fail (aws empty_batch_request)
  delete_message_batch (some (name, url, entries)) =
      counted entries (on_queue name url (delete_from entries))
