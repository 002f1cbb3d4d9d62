-- ===== src/Server/SqsQuery.antt =====
-- The handlers of SQS in form values and XML: the handle...Query methods of
-- shim/internal/server/sqs_handlers.go. Logging and metrics are not modelled.
use dropin_queue.Base.{
  Option, none, some, List, [], ◌∷◌, ◌++◌, map, Text, codes, text_eq, is_empty, if◌then◌else◌,
}
use dropin_queue.Types.{MessageAttribute, Message, Queue}
use dropin_queue.Awserr.Code.{code_text, queue_does_not_exist}
use dropin_queue.Storage.{Op}
use dropin_queue.Protocol.Query.{Values}
use dropin_queue.Sqs.Service.{
  create_queue, get_queue_url, get_queue_attributes, list_queues, delete_queue, purge_queue,
  set_queue_attributes,
}
use dropin_queue.Sqs.Messages.{
  send_message, receive_message, delete_message, change_message_visibility,
}
use dropin_queue.Sqs.Batch.{
  BatchResultEntry, BatchFailureEntry, send_message_batch, delete_message_batch,
}
use dropin_queue.Sqs.FromQuery.{
  create_queue_params_from_query, get_queue_url_params_from_query,
  get_queue_attributes_params_from_query, list_queues_params_from_query,
  delete_queue_params_from_query, purge_queue_params_from_query,
  set_queue_attributes_params_from_query, delete_message_params_from_query,
  change_message_visibility_params_from_query, receive_message_params_from_query,
  send_message_params_from_query, send_message_batch_params_from_query,
  delete_message_batch_params_from_query,
}
use dropin_queue.Server.{
  sqs_query, Xml, leaf, element, nodes, Response, Context, respond_sqs_query_xml, respond, by_key,
  Server,
}

-- A leaf that is left out for an empty text.
abbrev pub leaf_if_any : Text → Text → List Xml
leaf_if_any name s = if is_empty s then [] else leaf name s ∷ []

-- The name and the value of an attribute.
abbrev pub name_value : Text → Text × Text → Xml
name_value tag e = element tag (nodes (leaf (codes "Name") e.0 ∷ leaf (codes "Value") e.1 ∷ []))

abbrev url_result : Text → Queue → Xml
url_result tag q = element tag (nodes (leaf (codes "QueueUrl") q.url ∷ []))

-- A binary value is written as its bytes, and another one as its text.
unfoldable pub message_attribute_xml : Text × MessageAttribute → Xml
unfolding text_eq
message_attribute_xml e = element (codes "MessageAttribute") (
    nodes (
      leaf (codes "Name") e.0
      ∷ (if text_eq e.1.data_type (codes "Binary")
          then leaf_if_any (codes "BinaryValue") e.1.binary_value
          else leaf_if_any (codes "Value") e.1.string_value)))

unfoldable pub message_xml : Message → Xml
unfolding by_key message_attribute_xml
message_xml m = element (codes "Message") (
    nodes (
      leaf (codes "MessageId") m.id
      ∷ leaf (codes "ReceiptHandle") m.receipt_handle
      ∷ leaf (codes "MD5OfBody") m.md5_of_body
      ∷ leaf (codes "Body") m.body
      ∷ (map (name_value (codes "Attribute")) (by_key m.attributes)
          ++ map message_attribute_xml (by_key m.message_attributes))))

unfoldable pub send_message_batch_result_entry_xml : BatchResultEntry → Xml
send_message_batch_result_entry_xml e = element (codes "SendMessageBatchResultEntry") (
    nodes (
      leaf (codes "Id") e.id
      ∷ leaf (codes "MessageId") e.message_id
      ∷ leaf (codes "MD5OfMessageBody") e.md5_of_body
      ∷ leaf_if_any (codes "SequenceNumber") e.sequence_no))

unfoldable pub batch_failure_entry_xml : (Text → Text) → BatchFailureEntry → Xml
unfolding code_text
batch_failure_entry_xml entry_message e = element (codes "BatchResultErrorEntry") (
    nodes (
      leaf (codes "Id") e.id
      ∷ leaf (codes "Code") (code_text e.code)
      ∷ leaf (codes "Message") (entry_message e.id)
      ∷ leaf (codes "SenderFault") (if e.sender_fault then codes "true" else codes "false")
      ∷ []))

module _ {S : Type 0} (v : Server S) (c : Context) where
  -- The response to an operation's result, which is an error or is written as XML.
  abbrev answer : {A : Type 0} → Text → Op S A → (A → Option Xml) → S → Response × S
  unfolding respond
  answer action m f =
      respond sqs_query queue_does_not_exist c m
        (λ a. respond_sqs_query_xml action (f a) c.request_id)

  unfoldable pub handle_create_queue_query : Values → S → Response × S
  unfolding respond create_queue create_queue_params_from_query
  handle_create_queue_query params =
      answer (codes "CreateQueue")
        (create_queue v.storage v.sqs c.now (some (create_queue_params_from_query params)))
        (λ q. some (url_result (codes "CreateQueueResult") q))

  unfoldable pub handle_get_queue_url_query : Values → S → Response × S
  unfolding respond get_queue_url get_queue_url_params_from_query
  handle_get_queue_url_query params =
      answer (codes "GetQueueUrl")
        (get_queue_url v.storage v.sqs (some (get_queue_url_params_from_query params)))
        (λ q. some (url_result (codes "GetQueueUrlResult") q))

  unfoldable pub handle_get_queue_attributes_query : Values → S → Response × S
  unfolding respond get_queue_attributes get_queue_attributes_params_from_query by_key
  handle_get_queue_attributes_query params =
      answer (codes "GetQueueAttributes")
        (get_queue_attributes v.storage v.sqs
          (some (get_queue_attributes_params_from_query params)))
        (λ attrs. some (
          element (codes "GetQueueAttributesResult")
            (nodes (map (name_value (codes "Attribute")) (by_key attrs)))))

  unfoldable pub handle_list_queues_query : Values → S → Response × S
  unfolding respond list_queues list_queues_params_from_query
  handle_list_queues_query params =
      answer (codes "ListQueues")
        (list_queues v.storage v.sqs (some (list_queues_params_from_query params).0))
        (λ urls.
          some (element (codes "ListQueuesResult") (nodes (map (leaf (codes "QueueUrl")) urls))))

  unfoldable pub handle_delete_queue_query : Values → S → Response × S
  unfolding respond delete_queue delete_queue_params_from_query
  handle_delete_queue_query params =
      answer (codes "DeleteQueue")
        (delete_queue v.storage v.sqs (some (delete_queue_params_from_query params))) (λ _. none)

  unfoldable pub handle_send_message_query : Values → S → Response × S
  unfolding respond send_message send_message_params_from_query
  handle_send_message_query params =
      answer (codes "SendMessage")
        (send_message v.storage (some (send_message_params_from_query v.decode_string params)))
        (λ res. some (
          element (codes "SendMessageResult") (
            nodes (
              leaf (codes "MessageId") res.message_id
              ∷ leaf (codes "MD5OfMessage") res.md5_of_body
              ∷ leaf_if_any (codes "SequenceNumber") res.sequence_no))))

  unfoldable pub handle_receive_message_query : Values → S → Response × S
  unfolding respond receive_message receive_message_params_from_query message_xml
  handle_receive_message_query params =
      answer (codes "ReceiveMessage")
        (receive_message v.storage (some (receive_message_params_from_query params)))
        (λ msgs. some (element (codes "ReceiveMessageResult") (nodes (map message_xml msgs))))

  unfoldable pub handle_delete_message_query : Values → S → Response × S
  unfolding respond delete_message delete_message_params_from_query
  handle_delete_message_query params =
      answer (codes "DeleteMessage")
        (delete_message v.storage (some (delete_message_params_from_query params))) (λ _. none)

  unfoldable pub handle_change_message_visibility_query : Values → S → Response × S
  unfolding respond change_message_visibility change_message_visibility_params_from_query
  handle_change_message_visibility_query params =
      answer (codes "ChangeMessageVisibility")
        (change_message_visibility v.storage
          (some (change_message_visibility_params_from_query params)))
        (λ _. none)

  unfoldable pub handle_purge_queue_query : Values → S → Response × S
  unfolding respond purge_queue purge_queue_params_from_query
  handle_purge_queue_query params =
      answer (codes "PurgeQueue")
        (purge_queue v.storage v.sqs (some (purge_queue_params_from_query params))) (λ _. none)

  unfoldable pub handle_set_queue_attributes_query : Values → S → Response × S
  unfolding respond set_queue_attributes set_queue_attributes_params_from_query
  handle_set_queue_attributes_query params =
      answer (codes "SetQueueAttributes")
        (set_queue_attributes v.storage v.sqs
          (some (set_queue_attributes_params_from_query params)))
        (λ _. none)

  unfoldable pub handle_send_message_batch_query : Values → S → Response × S
  unfolding respond send_message_batch send_message_batch_params_from_query
      send_message_batch_result_entry_xml batch_failure_entry_xml
  handle_send_message_batch_query params =
      answer (codes "SendMessageBatch")
        (send_message_batch v.storage
          (some (send_message_batch_params_from_query v.decode_string params)))
        (λ res. some (
          element (codes "SendMessageBatchResult") (
            nodes (
              map send_message_batch_result_entry_xml res.successful
              ++ map (batch_failure_entry_xml c.entry_message) res.failed))))

  unfoldable pub handle_delete_message_batch_query : Values → S → Response × S
  unfolding respond delete_message_batch delete_message_batch_params_from_query
      batch_failure_entry_xml
  handle_delete_message_batch_query params =
      answer (codes "DeleteMessageBatch")
        (delete_message_batch v.storage (some (delete_message_batch_params_from_query params)))
        (λ res. some (
          element (codes "DeleteMessageBatchResult") (
            nodes (
              map
                (λ (e : BatchResultEntry).
                  element (codes "DeleteMessageBatchResultEntry")
                    (nodes (leaf (codes "Id") e.id ∷ [])))
                res.successful
              ++ map (batch_failure_entry_xml c.entry_message) res.failed))))
