-- ===== src/Postgres/Backend.antt =====
-- The Postgres adapter as a backend of the services: shim/internal/storage/postgres/storage.go.
use dropin_queue.Base.{ℕ, Option, none, some, List, [], ◌∷◌, ◌++◌, map}
use dropin_queue.Types.{Message, Subscription}
use dropin_queue.Storage.{Storage, TopicStorage, pure, ◌>>=◌}
use dropin_queue.Postgres.Tables.{Replica, Lib}
use dropin_queue.Postgres.Queues.{
  create_queue, get_queue, list_queues, delete_queue, purge_queue, set_queue_attributes,
}
use dropin_queue.Postgres.Messages.{delete_message, change_message_visibility, queue_depth}
use dropin_queue.Postgres.Messages.Send.{send_message}
use dropin_queue.Postgres.Topics.{
  create_topic, get_topic, list_topics, delete_topic, list_subscriptions, unsubscribe, subscribe,
}
use dropin_queue.Postgres.Topics.Publish.{publish}
use dropin_queue.Postgres.LongPoll.{deadline, woken, receive_message}

abbrev or_none : Option (List Message) → List Message
or_none none = []
or_none (some msgs) = msgs

-- Each wait of ReceiveMessage is woken as the list says, and then meets its deadline.
unfoldable pub backend : Lib → List (Replica → Replica) → Storage Replica
unfolding create_queue get_queue list_queues delete_queue purge_queue set_queue_attributes
    send_message receive_message delete_message change_message_visibility queue_depth
backend lib wakes = record {
  create_queue = create_queue lib;
  get_queue = get_queue lib;
  list_queues = list_queues;
  delete_queue = delete_queue;
  purge_queue = purge_queue;
  set_queue_attributes = set_queue_attributes;
  send_message = λ name msg. send_message lib name (some msg);
  receive_message = λ name max wait timeout. do
    found ← receive_message lib name max wait timeout (map woken wakes ++ deadline ∷ [])
    pure (or_none found);
  delete_message = delete_message lib;
  change_message_visibility = change_message_visibility lib;
  queue_depth = queue_depth;
}

-- A call reads the shim's clock as `nanos`, and its deliveries run as `schedule` says.
unfoldable pub topic_backend :
    Lib → ℕ → (List Subscription → List Subscription) → TopicStorage Replica
unfolding create_topic get_topic list_topics delete_topic subscribe list_subscriptions unsubscribe
    publish
topic_backend lib nanos schedule = record {
  create_topic = create_topic;
  get_topic = get_topic;
  list_topics = list_topics;
  delete_topic = delete_topic;
  subscribe = subscribe lib nanos;
  list_subscriptions = list_subscriptions;
  unsubscribe = unsubscribe;
  publish = λ name msg. publish lib schedule nanos name (some msg);
}
