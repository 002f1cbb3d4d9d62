-- ===== src/Server/SqsJson.antt =====
-- The handlers of SQS in JSON: the handle...JSON methods of
-- shim/internal/server/sqs_handlers.go. Logging and metrics are not modelled, and the order of an
-- object's keys is not the encoder's.
use dropin_queue.Base.{[], ◌∷◌, map, Text, codes, text_eq, is_empty, some, Map, if◌then◌else◌}
use dropin_queue.Types.{MessageAttribute, Message}
use dropin_queue.Awserr.Code.{code_text, queue_does_not_exist}
use dropin_queue.Storage.{Op}
use dropin_queue.Protocol.Arn.{split}
use dropin_queue.Protocol.Json.{Json, string, bool}
use dropin_queue.Sqs.Service.{
  create_queue, get_queue_url, get_queue_attributes, list_queues, delete_queue, purge_queue,
  set_queue_attributes,
}
use dropin_queue.Sqs.Messages.{
  send_message, receive_message, delete_message, change_message_visibility,
}
use dropin_queue.Sqs.Batch.{
  BatchResultEntry, BatchFailureEntry, BatchResult, send_message_batch, delete_message_batch,
}
use dropin_queue.Sqs.FromJson.{
  create_queue_params_from_json, get_queue_url_params_from_json,
  get_queue_attributes_params_from_json, list_queues_params_from_json,
  delete_queue_params_from_json, purge_queue_params_from_json,
  set_queue_attributes_params_from_json, delete_message_params_from_json,
  change_message_visibility_params_from_json, receive_message_params_from_json,
  send_message_params_from_json, send_message_batch_params_from_json,
  delete_message_batch_params_from_json,
}
use dropin_queue.Server.{
  sqs_json, json_object, json_array, json_fields, no_fields, Response, Context, respond_json,
  respond, Server,
}

abbrev url_json : Text → Json
url_json url = json_fields ((codes "QueueUrl", url) ∷ [])

module _ (encode_string : Text → Text) where
  -- The value of an attribute, by its type.
  unfoldable pub attribute_value_json : MessageAttribute → Text × Json
  unfolding text_eq split
  attribute_value_json a =
      if text_eq a.data_type (codes "Binary")
      then (codes "BinaryValue", string (encode_string a.binary_value))
      else if text_eq a.data_type (codes "String.List")
      then (codes "StringListValues", json_array (map string (split b'|' a.string_value)))
      else (codes "StringValue", string a.string_value)

  abbrev attribute_json : Text × MessageAttribute → Text × Json
  unfolding attribute_value_json
  attribute_json e =
      (e.0, json_object ((codes "DataType", string e.1.data_type) ∷ attribute_value_json e.1 ∷ []))

  unfoldable pub message_json : Message → Json
  unfolding attribute_value_json
  message_json m = json_object (
      (codes "MessageId", string m.id)
      ∷ (codes "ReceiptHandle", string m.receipt_handle)
      ∷ (codes "MD5OfBody", string m.md5_of_body)
      ∷ (codes "Body", string m.body)
      ∷ (codes "Attributes", json_fields m.attributes)
      ∷ (codes "MessageAttributes", json_object (map attribute_json m.message_attributes))
      ∷ [])

-- A field that is left out for an empty text.
abbrev pub field_if_any : Text → Text → Map Json
field_if_any key s = if is_empty s then [] else (key, string s) ∷ []

unfoldable pub send_message_batch_result_entry_json : BatchResultEntry → Json
send_message_batch_result_entry_json e = json_object (
    (codes "Id", string e.id)
    ∷ (codes "MessageId", string e.message_id)
    ∷ (codes "MD5OfMessageBody", string e.md5_of_body)
    ∷ field_if_any (codes "SequenceNumber") e.sequence_no)

unfoldable pub batch_failure_entry_json : (Text → Text) → BatchFailureEntry → Json
unfolding code_text
batch_failure_entry_json entry_message e = json_object (
    (codes "Id", string e.id)
    ∷ (codes "Code", string (code_text e.code))
    ∷ (codes "Message", string (entry_message e.id))
    ∷ (codes "SenderFault", bool e.sender_fault)
    ∷ [])

abbrev batch_json : (BatchResultEntry → Json) → (Text → Text) → BatchResult → Json
unfolding batch_failure_entry_json
batch_json entry entry_message res = json_object (
    (codes "Successful", json_array (map entry res.successful))
    ∷ (codes "Failed", json_array (map (batch_failure_entry_json entry_message) res.failed))
    ∷ [])

module _ {S : Type 0} (v : Server S) (c : Context) where
  -- The response to an operation's result, which is an error or is written as JSON.
  abbrev answer : {A : Type 0} → Op S A → (A → Json) → S → Response × S
  unfolding respond
  answer m f = respond sqs_json queue_does_not_exist c m (λ a. respond_json (f a))

  unfoldable pub handle_create_queue_json : Map Json → S → Response × S
  unfolding respond create_queue create_queue_params_from_json
  handle_create_queue_json params =
      answer (create_queue v.storage v.sqs c.now (some (create_queue_params_from_json params)))
        (λ q. url_json q.url)

  unfoldable pub handle_get_queue_url_json : Map Json → S → Response × S
  unfolding respond get_queue_url get_queue_url_params_from_json
  handle_get_queue_url_json params =
      answer (get_queue_url v.storage v.sqs (some (get_queue_url_params_from_json params)))
        (λ q. url_json q.url)

  unfoldable pub handle_get_queue_attributes_json : Map Json → S → Response × S
  unfolding respond get_queue_attributes get_queue_attributes_params_from_json
  handle_get_queue_attributes_json params =
      answer
        (get_queue_attributes v.storage v.sqs (some (get_queue_attributes_params_from_json params)))
        (λ attrs. json_object ((codes "Attributes", json_fields attrs) ∷ []))

  unfoldable pub handle_list_queues_json : Map Json → S → Response × S
  unfolding respond list_queues list_queues_params_from_json
  handle_list_queues_json params =
      answer (list_queues v.storage v.sqs (some (list_queues_params_from_json v.int32 params).0))
        (λ urls. json_object ((codes "QueueUrls", json_array (map string urls)) ∷ []))

  unfoldable pub handle_delete_queue_json : Map Json → S → Response × S
  unfolding respond delete_queue delete_queue_params_from_json
  handle_delete_queue_json params =
      answer (delete_queue v.storage v.sqs (some (delete_queue_params_from_json params)))
        (λ _. no_fields)

  unfoldable pub handle_send_message_json : Map Json → S → Response × S
  unfolding respond send_message send_message_params_from_json
  handle_send_message_json params =
      answer
        (send_message v.storage
          (some (send_message_params_from_json v.int32 v.decode_string params)))
        (λ res. json_fields (
          (codes "MessageId", res.message_id)
          ∷ (codes "MD5OfMessage", res.md5_of_body)
          ∷ (codes "SequenceNumber", res.sequence_no)
          ∷ []))

  unfoldable pub handle_receive_message_json : Map Json → S → Response × S
  unfolding respond receive_message receive_message_params_from_json message_json
  handle_receive_message_json params =
      answer (receive_message v.storage (some (receive_message_params_from_json v.int32 params)))
        (λ msgs.
          json_object
            ((codes "Messages", json_array (map (message_json v.encode_string) msgs)) ∷ []))

  unfoldable pub handle_delete_message_json : Map Json → S → Response × S
  unfolding respond delete_message delete_message_params_from_json
  handle_delete_message_json params =
      answer (delete_message v.storage (some (delete_message_params_from_json params)))
        (λ _. no_fields)

  unfoldable pub handle_change_message_visibility_json : Map Json → S → Response × S
  unfolding respond change_message_visibility change_message_visibility_params_from_json
  handle_change_message_visibility_json params =
      answer
        (change_message_visibility v.storage
          (some (change_message_visibility_params_from_json v.int32 params)))
        (λ _. no_fields)

  unfoldable pub handle_purge_queue_json : Map Json → S → Response × S
  unfolding respond purge_queue purge_queue_params_from_json
  handle_purge_queue_json params =
      answer (purge_queue v.storage v.sqs (some (purge_queue_params_from_json params)))
        (λ _. no_fields)

  unfoldable pub handle_set_queue_attributes_json : Map Json → S → Response × S
  unfolding respond set_queue_attributes set_queue_attributes_params_from_json
  handle_set_queue_attributes_json params =
      answer
        (set_queue_attributes v.storage v.sqs (some (set_queue_attributes_params_from_json params)))
        (λ _. no_fields)

  unfoldable pub handle_send_message_batch_json : Map Json → S → Response × S
  unfolding respond send_message_batch send_message_batch_params_from_json
      send_message_batch_result_entry_json batch_failure_entry_json
  handle_send_message_batch_json params =
      answer
        (send_message_batch v.storage
          (some (send_message_batch_params_from_json v.int32 v.decode_string params)))
        (batch_json send_message_batch_result_entry_json c.entry_message)

  unfoldable pub handle_delete_message_batch_json : Map Json → S → Response × S
  unfolding respond delete_message_batch delete_message_batch_params_from_json
      batch_failure_entry_json
  handle_delete_message_batch_json params =
      answer
        (delete_message_batch v.storage
          (some (delete_message_batch_params_from_json v.int32 params)))
        (batch_json (λ (e : BatchResultEntry). json_fields ((codes "Id", e.id) ∷ []))
          c.entry_message)
