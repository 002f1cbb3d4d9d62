-- ===== src/Server/Http/Operations/InQuery.antt =====
-- What the actions of SQS in form values are for: each action's operation of shim/internal/sqs, run on the
-- parameters that shim/internal/sqs reads from the request. The handlers of
-- shim/internal/server/sqs_handlers.go do that.
use dropin_queue.Base.{some, [], ◌∷◌, ℕ, codes, Map}
use dropin_queue.Awserr.Code.{queue_does_not_exist}
use dropin_queue.Protocol.Query.{Values}
use dropin_queue.Sqs.Service.{
  create_queue, get_queue_url, get_queue_attributes, list_queues, delete_queue, purge_queue,
  set_queue_attributes,
}
use dropin_queue.Sqs.Messages.{
  send_message, receive_message, delete_message, change_message_visibility,
}
use dropin_queue.Sqs.Batch.{send_message_batch, delete_message_batch}
use dropin_queue.Sqs.FromQuery.{
  create_queue_params_from_query, get_queue_url_params_from_query,
  get_queue_attributes_params_from_query, list_queues_params_from_query,
  delete_queue_params_from_query, send_message_params_from_query, receive_message_params_from_query,
  delete_message_params_from_query, change_message_visibility_params_from_query,
  purge_queue_params_from_query, set_queue_attributes_params_from_query,
  send_message_batch_params_from_query, delete_message_batch_params_from_query,
}
use dropin_queue.Server.{sqs_query, respond_query_xml, Context, Server}
use dropin_queue.Server.SqsQuery.{
  handle_create_queue_query, handle_get_queue_url_query, handle_get_queue_attributes_query,
  handle_list_queues_query, handle_delete_queue_query, handle_send_message_query,
  handle_receive_message_query, handle_delete_message_query, handle_change_message_visibility_query,
  handle_purge_queue_query, handle_set_queue_attributes_query, handle_send_message_batch_query,
  handle_delete_message_batch_query,
}
use dropin_queue.Server.Http.{sqs_query_handlers}
use dropin_queue.Server.Http.Operations.{done, Do, done_all, does, respond-done}

module _ {S : Type 0} (v : Server S) (c : Context) where
  -- The names of the actions in Amazon's interface, and their operations.
  abbrev pub query_operations : Map (Values → S → ℕ × S)
  query_operations =
      (
        codes "CreateQueue",
        λ p. done (create_queue v.storage v.sqs c.now (some (create_queue_params_from_query p))),
      )
      ∷ (
        codes "GetQueueUrl",
        λ p. done (get_queue_url v.storage v.sqs (some (get_queue_url_params_from_query p))),
      )
      ∷ (
        codes "GetQueueAttributes",
        λ p. done (
            get_queue_attributes v.storage v.sqs (some (get_queue_attributes_params_from_query p))),
      )
      ∷ (
        codes "ListQueues",
        λ p. done (list_queues v.storage v.sqs (some (list_queues_params_from_query p).0)),
      )
      ∷ (
        codes "DeleteQueue",
        λ p. done (delete_queue v.storage v.sqs (some (delete_queue_params_from_query p))),
      )
      ∷ (
        codes "SendMessage",
        λ p.
            done (send_message v.storage (some (send_message_params_from_query v.decode_string p))),
      )
      ∷ (
        codes "ReceiveMessage",
        λ p. done (receive_message v.storage (some (receive_message_params_from_query p))),
      )
      ∷ (
        codes "DeleteMessage",
        λ p. done (delete_message v.storage (some (delete_message_params_from_query p))),
      )
      ∷ (
        codes "ChangeMessageVisibility",
        λ p. done (
            change_message_visibility v.storage
              (some (change_message_visibility_params_from_query p))),
      )
      ∷ (
        codes "PurgeQueue",
        λ p. done (purge_queue v.storage v.sqs (some (purge_queue_params_from_query p))),
      )
      ∷ (
        codes "SetQueueAttributes",
        λ p. done (
            set_queue_attributes v.storage v.sqs (some (set_queue_attributes_params_from_query p))),
      )
      ∷ (
        codes "SendMessageBatch",
        λ p. done (
            send_message_batch v.storage
              (some (send_message_batch_params_from_query v.decode_string p))),
      )
      ∷ (
        codes "DeleteMessageBatch",
        λ p.
            done (delete_message_batch v.storage (some (delete_message_batch_params_from_query p))),
      )
      ∷ []

  pub query_handlers-Do : Do (sqs_query_handlers v c) query_operations
  unfolding respond_query_xml sqs_query_handlers handle_create_queue_query
      handle_get_queue_url_query handle_get_queue_attributes_query handle_list_queues_query
      handle_delete_queue_query handle_send_message_query handle_receive_message_query
      handle_delete_message_query handle_change_message_visibility_query handle_purge_queue_query
      handle_set_queue_attributes_query handle_send_message_batch_query
      handle_delete_message_batch_query
  query_handlers-Do =
      search (does, done_all, respond-done sqs_query queue_does_not_exist c) depth 40
