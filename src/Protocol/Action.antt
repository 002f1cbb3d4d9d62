-- ===== src/Protocol/Action.antt =====
-- The operations of shim/internal/protocol/types.go. An Action is the string of its name.
use dropin_queue.Base.{
  ◌==◌, Bool, ◌&&◌, ◌||◌, not, List, [], ◌∷◌, any, length, Text, codes, text_eq, is_empty,
}

pub data ServiceName : Type 0 where
  sqs sns : ServiceName

pub data WireProtocol : Type 0 where
  query json : WireProtocol

unfoldable pub known_sqs_actions : List Text
known_sqs_actions =
    codes "CreateQueue"
    ∷ codes "GetQueueUrl"
    ∷ codes "GetQueueAttributes"
    ∷ codes "ListQueues"
    ∷ codes "SendMessage"
    ∷ codes "ReceiveMessage"
    ∷ codes "DeleteMessage"
    ∷ codes "ChangeMessageVisibility"
    ∷ codes "PurgeQueue"
    ∷ codes "DeleteQueue"
    ∷ codes "SetQueueAttributes"
    ∷ codes "SendMessageBatch"
    ∷ codes "DeleteMessageBatch"
    ∷ []

unfoldable pub known_sns_actions : List Text
known_sns_actions =
    codes "CreateTopic"
    ∷ codes "GetTopicAttributes"
    ∷ codes "ListTopics"
    ∷ codes "Subscribe"
    ∷ codes "Unsubscribe"
    ∷ codes "Publish"
    ∷ codes "ListSubscriptions"
    ∷ codes "ListSubscriptionsByTopic"
    ∷ codes "DeleteTopic"
    ∷ codes "ConfirmSubscription"
    ∷ []

abbrev pub known_actions : ServiceName → List Text
known_actions sqs = known_sqs_actions
known_actions sns = known_sns_actions

unfoldable pub is_valid_action : ServiceName → Text → Bool
unfolding known_sqs_actions known_sns_actions
is_valid_action service action = any (λ a. text_eq a action) (known_actions service)

-- A RequestKind: the service and the protocol are strings, so that others than the constants occur.
pub record RequestKind : Type 0 where
  pub service : Text
  pub action : Text
  pub protocol : Text
  pub account_id : Text
  pub region : Text

-- Validate answers no error.
unfoldable pub is_valid_request : RequestKind → Bool
unfolding text_eq
is_valid_request r =
    (text_eq r.service (codes "sqs") || text_eq r.service (codes "sns"))
    && (not (is_empty r.action)
        && ((text_eq r.protocol (codes "query") || text_eq r.protocol (codes "json"))
            && ((is_empty r.account_id || (length r.account_id == 12)) && not (is_empty r.region))))
