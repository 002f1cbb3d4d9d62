-- ===== src/Server/Http.antt =====
-- The dispatch of shim/internal/server/http.go, and recoveryMiddleware of
-- shim/internal/server/middleware.go. The switches over actions are tables. A panic is `none`.
pub mod Routes
pub mod Dispatch
pub mod Operations
use dropin_queue.Base.{
  ℕ, zero, suc, ℤ, pos, negsuc, ◌*◌, Bool, true, false, Option, none, some, List, [], ◌∷◌, any,
  Text, codes, text_eq, is_empty, has_prefix, Map, lookup, if◌then◌else◌,
}
use dropin_queue.Awserr.Code.{Code, invalid_parameter_value, unsupported_operation, internal_error}
use dropin_queue.Storage.{Result, Err, ok, err}
use dropin_queue.Protocol.Action.{sqs, sns}
use dropin_queue.Protocol.Query.{Values, get_value}
use dropin_queue.Protocol.Json.{Json}
use dropin_queue.Protocol.Wire.{
  Request, read_limited, parse_wire_query_request, parse_wire_json_request,
}
use dropin_queue.Server.{
  Transport, sqs_query, sqs_json, sns_query, sns_json, is_json_protocol, Response, Context,
  write_fatal_error, Server,
}
use dropin_queue.Server.SqsQuery.{
  handle_create_queue_query, handle_get_queue_url_query, handle_get_queue_attributes_query,
  handle_list_queues_query, handle_delete_queue_query, handle_send_message_query,
  handle_receive_message_query, handle_delete_message_query, handle_change_message_visibility_query,
  handle_purge_queue_query, handle_set_queue_attributes_query, handle_send_message_batch_query,
  handle_delete_message_batch_query,
}
use dropin_queue.Server.SqsJson.{
  handle_create_queue_json, handle_get_queue_url_json, handle_get_queue_attributes_json,
  handle_list_queues_json, handle_delete_queue_json, handle_send_message_json,
  handle_receive_message_json, handle_delete_message_json, handle_change_message_visibility_json,
  handle_purge_queue_json, handle_set_queue_attributes_json, handle_send_message_batch_json,
  handle_delete_message_batch_json,
}
use dropin_queue.Server.SnsQuery.{
  handle_sns_create_topic_query, handle_sns_get_topic_attributes_query,
  handle_sns_list_topics_query, handle_sns_delete_topic_query, handle_sns_subscribe_query,
  handle_sns_unsubscribe_query, handle_sns_publish_query, handle_sns_list_subscriptions_query,
  handle_sns_list_subscriptions_by_topic_query, handle_sns_confirm_subscription_query,
}
use dropin_queue.Server.SnsJson.{
  handle_sns_create_topic_json, handle_sns_get_topic_attributes_json, handle_sns_list_topics_json,
  handle_sns_delete_topic_json, handle_sns_subscribe_json, handle_sns_unsubscribe_json,
  handle_sns_publish_json, handle_sns_list_subscriptions_json,
  handle_sns_list_subscriptions_by_topic_json, handle_sns_confirm_subscription_json,
}

-- The limit that New keeps.
unfoldable pub body_limit : ℤ → ℕ
body_limit (pos zero) = 5 * 1048576
body_limit (pos (suc n)) = suc n
body_limit (negsuc n) = 5 * 1048576

unfoldable pub sns_actions : List Text
sns_actions =
    codes "CreateTopic"
    ∷ codes "GetTopicAttributes"
    ∷ codes "ListTopics"
    ∷ codes "Subscribe"
    ∷ codes "Unsubscribe"
    ∷ codes "DeleteTopic"
    ∷ codes "Publish"
    ∷ codes "ListSubscriptions"
    ∷ codes "ListSubscriptionsByTopic"
    ∷ codes "ConfirmSubscription"
    ∷ []

unfoldable pub is_sns_action : Text → Bool
unfolding sns_actions
is_sns_action action = any (λ a. text_eq a action) sns_actions

abbrev sure : {P S : Type 0} → (P → S → Response × S) → P → S → Option (Response × S)
sure h params s = some (h params s)

module _ {S : Type 0} (v : Server S) (c : Context) where
  unfoldable pub sqs_query_handlers : Map (Values → S → Response × S)
  sqs_query_handlers =
      (codes "CreateQueue", handle_create_queue_query v c)
      ∷ (codes "GetQueueUrl", handle_get_queue_url_query v c)
      ∷ (codes "GetQueueAttributes", handle_get_queue_attributes_query v c)
      ∷ (codes "ListQueues", handle_list_queues_query v c)
      ∷ (codes "DeleteQueue", handle_delete_queue_query v c)
      ∷ (codes "SendMessage", handle_send_message_query v c)
      ∷ (codes "ReceiveMessage", handle_receive_message_query v c)
      ∷ (codes "DeleteMessage", handle_delete_message_query v c)
      ∷ (codes "ChangeMessageVisibility", handle_change_message_visibility_query v c)
      ∷ (codes "PurgeQueue", handle_purge_queue_query v c)
      ∷ (codes "SetQueueAttributes", handle_set_queue_attributes_query v c)
      ∷ (codes "SendMessageBatch", handle_send_message_batch_query v c)
      ∷ (codes "DeleteMessageBatch", handle_delete_message_batch_query v c)
      ∷ []

  unfoldable pub sqs_json_handlers : Map (Map Json → S → Response × S)
  sqs_json_handlers =
      (codes "CreateQueue", handle_create_queue_json v c)
      ∷ (codes "GetQueueUrl", handle_get_queue_url_json v c)
      ∷ (codes "GetQueueAttributes", handle_get_queue_attributes_json v c)
      ∷ (codes "ListQueues", handle_list_queues_json v c)
      ∷ (codes "DeleteQueue", handle_delete_queue_json v c)
      ∷ (codes "SendMessage", handle_send_message_json v c)
      ∷ (codes "ReceiveMessage", handle_receive_message_json v c)
      ∷ (codes "DeleteMessage", handle_delete_message_json v c)
      ∷ (codes "ChangeMessageVisibility", handle_change_message_visibility_json v c)
      ∷ (codes "PurgeQueue", handle_purge_queue_json v c)
      ∷ (codes "SetQueueAttributes", handle_set_queue_attributes_json v c)
      ∷ (codes "SendMessageBatch", handle_send_message_batch_json v c)
      ∷ (codes "DeleteMessageBatch", handle_delete_message_batch_json v c)
      ∷ []

  unfoldable pub sns_query_handlers : Map (Values → S → Option (Response × S))
  sns_query_handlers =
      (codes "CreateTopic", sure (handle_sns_create_topic_query v c))
      ∷ (codes "GetTopicAttributes", sure (handle_sns_get_topic_attributes_query v c))
      ∷ (codes "ListTopics", sure (handle_sns_list_topics_query v c))
      ∷ (codes "DeleteTopic", sure (handle_sns_delete_topic_query v c))
      ∷ (codes "Subscribe", handle_sns_subscribe_query v c)
      ∷ (codes "Unsubscribe", sure (handle_sns_unsubscribe_query v c))
      ∷ (codes "Publish", sure (handle_sns_publish_query v c))
      ∷ (codes "ListSubscriptions", sure (handle_sns_list_subscriptions_query v c))
      ∷ (codes "ListSubscriptionsByTopic", sure (handle_sns_list_subscriptions_by_topic_query v c))
      ∷ (codes "ConfirmSubscription", sure (handle_sns_confirm_subscription_query v c))
      ∷ []

  unfoldable pub sns_json_handlers : Map (Map Json → S → Response × S)
  sns_json_handlers =
      (codes "CreateTopic", handle_sns_create_topic_json v c)
      ∷ (codes "GetTopicAttributes", handle_sns_get_topic_attributes_json v c)
      ∷ (codes "ListTopics", handle_sns_list_topics_json v c)
      ∷ (codes "DeleteTopic", handle_sns_delete_topic_json v c)
      ∷ (codes "Subscribe", handle_sns_subscribe_json v c)
      ∷ (codes "Unsubscribe", handle_sns_unsubscribe_json v c)
      ∷ (codes "Publish", handle_sns_publish_json v c)
      ∷ (codes "ListSubscriptions", handle_sns_list_subscriptions_json v c)
      ∷ (codes "ListSubscriptionsByTopic", handle_sns_list_subscriptions_by_topic_json v c)
      ∷ (codes "ConfirmSubscription", handle_sns_confirm_subscription_json v c)
      ∷ []

  -- An error with a code, before any operation.
  abbrev pub refuse : Transport → Code → S → Response × S
  unfolding write_fatal_error
  refuse t code s = (write_fatal_error t code c.message c.request_id, s)

  unfoldable pub handle_aws_query : Request → S → Response × S
  unfolding parse_wire_query_request lookup sqs_query_handlers write_fatal_error
  handle_aws_query r s = elim (parse_wire_query_request v.parse_query r sqs) [
    | none ↦ refuse sqs_query invalid_parameter_value s
    | some (action, params) ↦ elim (lookup action sqs_query_handlers) [
      | none ↦ refuse sqs_query unsupported_operation s
      | some handle ↦ handle params s
    ]
  ]

  unfoldable pub handle_aws_json : Request → S → Response × S
  unfolding parse_wire_json_request lookup sqs_json_handlers write_fatal_error
  handle_aws_json r s = elim (parse_wire_json_request v.unmarshal r sqs) [
    | none ↦ refuse sqs_json invalid_parameter_value s
    | some (action, params) ↦ elim (lookup action sqs_json_handlers) [
      | none ↦ refuse sqs_json unsupported_operation s
      | some handle ↦ handle params s
    ]
  ]

  unfoldable pub handle_sns_query : Request → S → Option (Response × S)
  unfolding parse_wire_query_request lookup sns_query_handlers write_fatal_error
  handle_sns_query r s = elim (parse_wire_query_request v.parse_query r sns) [
    | none ↦ some (refuse sns_query invalid_parameter_value s)
    | some (action, params) ↦ elim (lookup action sns_query_handlers) [
      | none ↦ some (refuse sns_query unsupported_operation s)
      | some handle ↦ handle params s
    ]
  ]

  unfoldable pub handle_sns_json : Request → S → Response × S
  unfolding parse_wire_json_request lookup sns_json_handlers write_fatal_error
  handle_sns_json r s = elim (parse_wire_json_request v.unmarshal r sns) [
    | none ↦ refuse sns_json invalid_parameter_value s
    | some (action, params) ↦ elim (lookup action sns_json_handlers) [
      | none ↦ refuse sns_json unsupported_operation s
      | some handle ↦ handle params s
    ]
  ]

  unfoldable pub handle_aws_json_dispatch : Request → S → Response × S
  unfolding has_prefix handle_sns_json handle_aws_json
  handle_aws_json_dispatch r s =
      if has_prefix (codes "AmazonSNS.") r.target then handle_sns_json r s else handle_aws_json r s

  -- The body is cut at the limit, and what is left is parsed again.
  unfoldable pub handle_aws_query_dispatch : Request → S → Option (Response × S)
  unfolding get_value is_sns_action handle_sns_query handle_aws_query write_fatal_error
  handle_aws_query_dispatch r s = elim (read_limited v.max_body_bytes r.body) [
    | none ↦ some (refuse sqs_query invalid_parameter_value s)
    | some body ↦ elim (v.parse_query body) [
      | none ↦ some (refuse sqs_query invalid_parameter_value s)
      | some vals ↦
          if is_sns_action (get_value vals (codes "Action"))
          then handle_sns_query (record r { body = some body }) s
          else some (handle_aws_query (record r { body = some body }) s)
    ]
  ]

  unfoldable pub handle_aws : Request → S → Option (Response × S)
  unfolding is_json_protocol handle_aws_json_dispatch handle_aws_query_dispatch
  handle_aws r s =
      if is_json_protocol r
      then some (handle_aws_json_dispatch r s)
      else handle_aws_query_dispatch r s

  -- A panic comes before any call of the storage, and is answered as an InternalError.
  unfoldable pub recovered : Option (Response × S) → S → Response × S
  unfolding write_fatal_error
  recovered none s = refuse sqs_query internal_error s
  recovered (some out) s = out

  unfoldable pub serve : Request → S → Response × S
  unfolding handle_aws recovered
  serve r s = recovered (handle_aws r s) s

-- readyz: the status for no storage, and for what Ping answers.
unfoldable pub readyz : Option (Result (Unit {0})) → ℕ
readyz none = 503
readyz (some (err e)) = 503
readyz (some (ok u)) = 200

-- The id of requestFromContext, with what newRequestID makes.
unfoldable pub request_from_context : Text → Text → Text
request_from_context in_context fresh = if is_empty in_context then fresh else in_context
