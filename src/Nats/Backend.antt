-- ===== src/Nats/Backend.antt =====
-- The NATS adapter as a backend of the services: shim/internal/storage/nats/storage.go.
use dropin_queue.Base.{ℕ, Option, some, List, Text, Map}
use dropin_queue.Types.{Subscription}
use dropin_queue.Storage.{Op, Storage, TopicStorage}
use dropin_queue.Nats.Names.{Client}
use dropin_queue.Nats.Broker.{Broker, Node}
use dropin_queue.Nats.Queues.{
  create_queue, get_queue, list_queues, delete_queue, purge_queue, set_queue_attributes,
  queue_depth,
}
use dropin_queue.Nats.Messages.{Lib, Traffic, send_message, receive_message}
use dropin_queue.Nats.Receipts.{Conn, delete_message, change_message_visibility}
use dropin_queue.Nats.Topics.{TopicCodec, unsubscribe}
use dropin_queue.Nats.Topics.Calls.{
  create_topic, get_topic, list_topics, delete_topic, subscribe, list_subscriptions,
}
use dropin_queue.Nats.Topics.Fanout.{publish}

-- An operation on the broker alone.
abbrev on_broker : {S H A : Type 0} → Op S A → Op (Node S H) A
on_broker m n = let (a, s) = m n.broker in (a, record n { broker = s })

module _ {S H : Type 0} (lib : Lib) (b : Broker S H) (t : Traffic S H) (conn : Conn S)
    (c : Client) where
  -- A call reads the shim's clock as `now`.
  unfoldable pub backend : ℕ → Storage (Node S H)
  unfolding create_queue get_queue list_queues delete_queue purge_queue set_queue_attributes
      send_message receive_message delete_message change_message_visibility queue_depth
  backend now = record {
    create_queue = create_queue b lib.codec c now;
    get_queue = get_queue b lib.codec;
    list_queues = list_queues b;
    delete_queue = delete_queue b;
    purge_queue = purge_queue b;
    set_queue_attributes = set_queue_attributes b lib.codec c now;
    send_message = λ name msg. send_message lib b t c now name (some msg);
    receive_message = receive_message lib b t c now;
    delete_message = λ name rh. on_broker (delete_message conn lib.raw_url name rh);
    change_message_visibility =
        λ name rh timeout. on_broker (change_message_visibility conn lib.raw_url name rh timeout);
    queue_depth = queue_depth b;
  }

  -- `nanos` is the clock in nanoseconds, and the deliveries of Publish run as `schedule` says.
  unfoldable pub topic_backend :
      TopicCodec
      → (Text → Option (Map (List Text)))
      → (List Subscription → List Subscription)
      → ℕ
      → ℕ
      → TopicStorage (Node S H)
  unfolding create_topic get_topic list_topics delete_topic subscribe list_subscriptions unsubscribe
      publish
  topic_backend topics unmarshal_policy schedule now nanos = record {
    create_topic = create_topic b topics c now;
    get_topic = get_topic b topics;
    list_topics = list_topics b topics;
    delete_topic = delete_topic b topics;
    subscribe = subscribe b topics lib.sha256_hex now nanos;
    list_subscriptions = list_subscriptions b topics;
    unsubscribe = unsubscribe b;
    publish = λ name msg. publish lib topics unmarshal_policy schedule b t c now name (some msg);
  }
