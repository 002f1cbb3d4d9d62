-- ===== src/Server/Http/Operations/InJson.antt =====
-- What the actions of SQS in JSON are for: each action's operation of shim/internal/sqs, run on the
-- parameters that shim/internal/sqs reads from the request. The handlers of
-- shim/internal/server/sqs_handlers.go do that.
use dropin_queue.Base.{some, [], ◌∷◌, ℕ, codes, Map}
use dropin_queue.Awserr.Code.{queue_does_not_exist}
use dropin_queue.Protocol.Json.{Json}
use dropin_queue.Sqs.Service.{
  create_queue, get_queue_url, get_queue_attributes, list_queues, delete_queue, purge_queue,
  set_queue_attributes,
}
use dropin_queue.Sqs.Messages.{
  send_message, receive_message, delete_message, change_message_visibility,
}
use dropin_queue.Sqs.Batch.{send_message_batch, delete_message_batch}
use dropin_queue.Sqs.FromJson.{
  create_queue_params_from_json, get_queue_url_params_from_json,
  get_queue_attributes_params_from_json, list_queues_params_from_json,
  delete_queue_params_from_json, send_message_params_from_json, receive_message_params_from_json,
  delete_message_params_from_json, change_message_visibility_params_from_json,
  purge_queue_params_from_json, set_queue_attributes_params_from_json,
  send_message_batch_params_from_json, delete_message_batch_params_from_json,
}
use dropin_queue.Server.{sqs_json, Context, Server}
use dropin_queue.Server.SqsJson.{
  handle_create_queue_json, handle_get_queue_url_json, handle_get_queue_attributes_json,
  handle_list_queues_json, handle_delete_queue_json, handle_send_message_json,
  handle_receive_message_json, handle_delete_message_json, handle_change_message_visibility_json,
  handle_purge_queue_json, handle_set_queue_attributes_json, handle_send_message_batch_json,
  handle_delete_message_batch_json,
}
use dropin_queue.Server.Http.{sqs_json_handlers}
use dropin_queue.Server.Http.Operations.{done, Do, done_all, does, respond-done}

module _ {S : Type 0} (v : Server S) (c : Context) where
  -- The names of the actions in Amazon's interface, and their operations.
  abbrev pub json_operations : Map (Map Json → S → ℕ × S)
  json_operations =
      (
        codes "CreateQueue",
        λ p. done (create_queue v.storage v.sqs c.now (some (create_queue_params_from_json p))),
      )
      ∷ (
        codes "GetQueueUrl",
        λ p. done (get_queue_url v.storage v.sqs (some (get_queue_url_params_from_json p))),
      )
      ∷ (
        codes "GetQueueAttributes",
        λ p.
            done (
              get_queue_attributes v.storage v.sqs
                (some (get_queue_attributes_params_from_json p))),
      )
      ∷ (
        codes "ListQueues",
        λ p. done (list_queues v.storage v.sqs (some (list_queues_params_from_json v.int32 p).0)),
      )
      ∷ (
        codes "DeleteQueue",
        λ p. done (delete_queue v.storage v.sqs (some (delete_queue_params_from_json p))),
      )
      ∷ (
        codes "SendMessage",
        λ p. done (
            send_message v.storage
              (some (send_message_params_from_json v.int32 v.decode_string p))),
      )
      ∷ (
        codes "ReceiveMessage",
        λ p. done (receive_message v.storage (some (receive_message_params_from_json v.int32 p))),
      )
      ∷ (
        codes "DeleteMessage",
        λ p. done (delete_message v.storage (some (delete_message_params_from_json p))),
      )
      ∷ (
        codes "ChangeMessageVisibility",
        λ p. done (
            change_message_visibility v.storage
              (some (change_message_visibility_params_from_json v.int32 p))),
      )
      ∷ (
        codes "PurgeQueue",
        λ p. done (purge_queue v.storage v.sqs (some (purge_queue_params_from_json p))),
      )
      ∷ (
        codes "SetQueueAttributes",
        λ p.
            done (
              set_queue_attributes v.storage v.sqs
                (some (set_queue_attributes_params_from_json p))),
      )
      ∷ (
        codes "SendMessageBatch",
        λ p. done (
            send_message_batch v.storage
              (some (send_message_batch_params_from_json v.int32 v.decode_string p))),
      )
      ∷ (
        codes "DeleteMessageBatch",
        λ p. done (
            delete_message_batch v.storage
              (some (delete_message_batch_params_from_json v.int32 p))),
      )
      ∷ []

  pub json_handlers-Do : Do (sqs_json_handlers v c) json_operations
  unfolding sqs_json_handlers handle_create_queue_json handle_get_queue_url_json
      handle_get_queue_attributes_json handle_list_queues_json handle_delete_queue_json
      handle_send_message_json handle_receive_message_json handle_delete_message_json
      handle_change_message_visibility_json handle_purge_queue_json handle_set_queue_attributes_json
      handle_send_message_batch_json handle_delete_message_batch_json
  json_handlers-Do = search (does, done_all, respond-done sqs_json queue_does_not_exist c) depth 40
