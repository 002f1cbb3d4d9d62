-- ===== src/Nats/Topics/Fanout.antt =====
-- Publish, deliverToSubscription and matchesFilterPolicy of shim/internal/storage/nats/topics.go. The
-- argument `schedule` stands for the deliveries that start before the context is cancelled, in the
-- order in which they take effect; a delivery is one step.
use dropin_queue.Base.{
  ℕ, Bool, true, false, Option, none, some, List, [], ◌∷◌, select, Text, codes, text_eq, is_empty,
  format, Map, if◌then◌else◌,
}
use dropin_queue.Types.{Subscription, Message}
use dropin_queue.Storage.{Op, Result, ok, err, other, invalid_argument, fail, pure, ◌>>=◌, ◌>>◌}
use dropin_queue.Protocol.Arn.{queue_name_from_url}
use dropin_queue.Postgres.FilterPolicy.{matches_policy}
use dropin_queue.Nats.Names.{Client, topic_subject}
use dropin_queue.Nats.Headers.{message_headers}
use dropin_queue.Nats.Broker.{Broker, Node, caught}
use dropin_queue.Nats.Messages.{Lib, Published, acked, Traffic, publishing, lift, send_message}
use dropin_queue.Nats.Topics.{TopicCodec}
use dropin_queue.Nats.Topics.Calls.{get_topic, list_subscriptions}

-- The message that the queue of a subscription gets.
abbrev pub copy : Message → Message
copy msg = record {
  id = [];
  receipt_handle = [];
  body = msg.body;
  md5_of_body = [];
  attributes = [];
  message_attributes = msg.message_attributes;
  enqueued_at = 0;
  message_group_id = [];
  message_deduplication_id = [];
}

abbrev passes : Option (Map (List Text)) → Message → Bool
passes none msg = true
passes (some policy) msg = matches_policy policy msg

-- The subscriptions that the loop does not skip, given how policies parse.
unfoldable pub is_reached : (Text → Option (Map (List Text))) → Message → Subscription → Bool
unfolding matches_policy
is_reached unmarshal_policy msg sub =
    if sub.pending
    then false
    else if is_empty sub.filter_policy
    then true
    else passes (unmarshal_policy sub.filter_policy) msg

module _ {S H : Type 0} (lib : Lib) (topics : TopicCodec)
    (unmarshal_policy : Text → Option (Map (List Text)))
    (schedule : List Subscription → List Subscription) (b : Broker S H) (t : Traffic S H)
    (c : Client) where
  -- The error of a delivery is logged and dropped.
  abbrev deliver : ℕ → Message → Subscription → Op (Node S H) (Unit {0})
  deliver now msg sub =
      let queue = queue_name_from_url sub.endpoint in
      if text_eq sub.protocol (codes "sqs")
      then if is_empty queue
        then pure tt
        else (caught (send_message lib b t c now queue (some (copy msg))) >> pure tt)
      else pure tt

  unfoldable pub deliver_all : ℕ → Message → List Subscription → Op (Node S H) (Unit {0})
  unfolding send_message queue_name_from_url text_eq
  deliver_all now msg [] = pure tt
  deliver_all now msg (s ∷ ss) = do deliver now msg s; deliver_all now msg ss

  -- Subscriptions that cannot be listed end the call without an error.
  abbrev deliver_listed : ℕ → Message → Result (List Subscription) → Op (Node S H) (Unit {0})
  deliver_listed now msg (err e) = pure tt
  deliver_listed now msg (ok subs) =
      deliver_all now msg (schedule (select (is_reached unmarshal_policy msg) subs))

  abbrev recorded : ℕ → Message → Published → Result Message
  recorded now msg (acked sequence duplicate) =
      ok (record msg { id = format sequence; enqueued_at = now })
  recorded now msg _ = err other

  unfoldable pub publish : ℕ → Text → Option Message → Op (Node S H) Message
  unfolding get_topic list_subscriptions message_headers topic_subject deliver_all is_reached format
  publish now topic_name none = fail invalid_argument
  publish now topic_name (some msg) = do
    get_topic b topics topic_name
    headers ← lift (message_headers lib.base64 msg.message_attributes)
    answer ← publishing t (topic_subject c topic_name) msg.body headers none
    sent ← lift (recorded now msg answer)
    subs ← caught (list_subscriptions b topics topic_name)
    deliver_listed now sent subs
    pure sent
