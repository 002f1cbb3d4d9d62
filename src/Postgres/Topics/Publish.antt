-- ===== src/Postgres/Topics/Publish.antt =====
-- Publish of shim/internal/storage/postgres/topics.go: the fan-out to the subscriptions. Each
-- delivery runs in a goroutine of its own; the argument `schedule` stands for the deliveries that
-- start before the context is cancelled, in the order in which they take effect. A delivery is one
-- step: its statements are not interleaved with those of another one.
use dropin_queue.Base.{
  ℕ, ◌/◌, Bool, false, Option, none, some, List, [], ◌∷◌, ◌++◌, Text, codes, format, text_eq,
  is_empty, if◌then◌else◌, select,
}
use dropin_queue.Types.{Subscription, Message}
use dropin_queue.Storage.{Op, Result, ok, err, invalid_argument, fail, ◌>>=◌}
use dropin_queue.Protocol.Arn.{queue_name_from_url}
use dropin_queue.Postgres.Tables.{Replica, Lib}
use dropin_queue.Postgres.FilterPolicy.{matches_filter_policy}
use dropin_queue.Postgres.Messages.Send.{send_message}
use dropin_queue.Postgres.Topics.{resolve_topic, list_subscriptions}

-- The message that the queue of a subscription gets.
abbrev pub delivery : Message → Message
delivery msg = record {
  id = [];
  receipt_handle = [];
  body = msg.body;
  md5_of_body = [];
  attributes = [];
  message_attributes = msg.message_attributes;
  enqueued_at = 0;
  message_group_id = [];
  message_deduplication_id = [];
}

module _ (lib : Lib) where
  -- The error of a delivery is logged and dropped.
  unfoldable pub deliver_to_subscription : Message → Subscription → Replica → Replica
  unfolding queue_name_from_url send_message
  deliver_to_subscription msg sub r =
      let queue = queue_name_from_url sub.endpoint in
      if text_eq sub.protocol (codes "sqs")
      then if is_empty queue then r else (send_message lib queue (some (delivery msg)) r).1
      else r

  -- The subscriptions that the loop does not skip.
  unfoldable pub is_delivered : Message → Subscription → Bool
  unfolding matches_filter_policy
  is_delivered msg sub =
      if sub.pending then false else matches_filter_policy lib sub.filter_policy msg

  unfoldable pub fan_out : Message → List Subscription → Replica → Replica
  unfolding deliver_to_subscription
  fan_out msg [] r = r
  fan_out msg (s ∷ ss) r = fan_out msg ss (deliver_to_subscription msg s r)

  module _ (schedule : List Subscription → List Subscription) where
    -- A list of subscriptions that cannot be read ends the call without an error.
    unfoldable pub publish_listed : Message → Result (List Subscription) → Replica → Replica
    unfolding is_delivered fan_out
    publish_listed msg (err e) r = r
    publish_listed msg (ok subs) r = fan_out msg (schedule (select (is_delivered msg) subs)) r

    abbrev pub published : ℕ → Message → ℕ → Message
    published nanos msg topic = record msg {
      enqueued_at = nanos / 1000;
      id = format topic ++ b'-' ∷ format nanos;
    }

    unfoldable pub publish : ℕ → Text → Option Message → Op Replica Message
    unfolding resolve_topic list_subscriptions publish_listed format
    publish nanos name none = fail invalid_argument
    publish nanos name (some msg) = do
      topic ← resolve_topic name
      let sent = published nanos msg topic
      λ r. let found = list_subscriptions name r in (ok sent, publish_listed sent found.0 found.1)
