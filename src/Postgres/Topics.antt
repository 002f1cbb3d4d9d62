-- ===== src/Postgres/Topics.antt =====
-- The topic and subscription operations of shim/internal/storage/postgres/topics.go, with the cache
-- of topic ids of shim/internal/storage/postgres/client.go. An argument `nanos` is the shim's clock
-- in nanoseconds.
pub mod Listed
pub mod Publish
pub mod Isolated
pub mod Reached
pub mod Delivers
pub mod Received
use dropin_queue.Base.{
  sort_by, ℕ, suc, ◌==◌, ◌/◌, Bool, true, false, ◌&&◌, ◌||◌, not, Option, none, some, List, [], ◌∷◌,
  ◌++◌, map, Text, codes, format, text_eq, is_empty, Map, lookup, insert, delete, if◌then◌else◌,
  select, find, any, take,
}
use dropin_queue.Types.{Topic, Subscription, Message}
use dropin_queue.Storage.{
  Op, Result, Err, ok, err, topic_not_found, invalid_argument, pure, fail, ◌>>=◌, ◌>>◌,
}
use dropin_queue.Protocol.Arn.{resource_name_from_arn, queue_name_from_url}
use dropin_queue.Postgres.Tables.{
  TopicRow, SubscriptionRow, Tables, Replica, Lib, Statement, exec, query,
}
use dropin_queue.Postgres.FilterPolicy.{matches_filter_policy}
use dropin_queue.Postgres.Queues.Like.{like}
use dropin_queue.Postgres.Messages.Send.{send_message}

unfoldable pub cache_topic : Text → ℕ → Op Replica (Unit {0})
cache_topic name id r = (ok tt, record r { topic_cache = insert name id r.topic_cache })

unfoldable pub invalidate_topic_cache : Text → Op Replica (Unit {0})
invalidate_topic_cache name r = (ok tt, record r { topic_cache = delete name r.topic_cache })

abbrev pub topic_named : Text → Tables → Option TopicRow
topic_named name t = find (λ x. text_eq x.name name) t.topics

unfoldable pub resolve_topic_row : Text → Option TopicRow → Op Replica ℕ
unfolding cache_topic
resolve_topic_row name none = fail topic_not_found
resolve_topic_row name (some t) = do cache_topic name t.id; pure t.id

unfoldable pub resolve_topic_cached : Text → Option ℕ → Op Replica ℕ
unfolding resolve_topic_row query
resolve_topic_cached name (some id) = pure id
resolve_topic_cached name none = do
  row ← query Statement.resolve_topic (λ r. topic_named name r.tables)
  resolve_topic_row name row

unfoldable pub resolve_topic : Text → Op Replica ℕ
unfolding resolve_topic_cached lookup
resolve_topic name r = resolve_topic_cached name (lookup name r.topic_cache) r

abbrev pub new_topic : Text → Replica → TopicRow
new_topic name r = record { id = r.next_topic; name = name; created_at = r.now }

abbrev pub topic_or_new : Text → Replica → Option TopicRow → TopicRow
topic_or_new name r (some row) = row
topic_or_new name r none = new_topic name r

abbrev pub insert_topic_found : Text → Replica → Option TopicRow → Tables
insert_topic_found name r (some row) = record r.tables { next_topic = suc r.next_topic }
insert_topic_found name r none = record r.tables {
  topics = r.topics ++ new_topic name r ∷ [];
  next_topic = suc r.next_topic;
}

unfoldable pub create_topic : Topic → Op Replica Topic
unfolding exec cache_topic
create_topic t = do
  row ←
      exec Statement.insert_topic (λ r. topic_or_new t.name r (topic_named t.name r.tables))
        (λ r. insert_topic_found t.name r (topic_named t.name r.tables))
  cache_topic t.name row.id
  pure (record t { created_at = row.created_at })

abbrev pub row_topic : TopicRow → Topic
row_topic row = record {
  name = row.name;
  arn = [];
  account_id = [];
  region = [];
  created_at = row.created_at;
}

unfoldable pub get_topic_row : Text → Option TopicRow → Op Replica Topic
unfolding cache_topic
get_topic_row name none = fail topic_not_found
get_topic_row name (some row) = do
  cache_topic name row.id
  pure (record { name = name; arn = []; account_id = []; region = []; created_at = row.created_at })

unfoldable pub get_topic : Text → Op Replica Topic
unfolding query get_topic_row
get_topic name = do
  row ← query Statement.select_topic (λ r. topic_named name r.tables)
  get_topic_row name row

unfoldable pub list_topics : Text → Op Replica (List Topic)
unfolding query like sort_by
list_topics prefix = query Statement.select_topics (λ r. map row_topic (
    sort_by (λ t. t.name)
      (select (λ t. is_empty prefix || like (prefix ++ b'%' ∷ []) t.name) r.topics)))

-- The subscriptions of a topic id go with the topic: ON DELETE CASCADE.
unfoldable pub cascade_topic : Text → Tables → Tables
cascade_topic name t =
    let gone = λ (id : ℕ). any (λ x. text_eq x.name name && (x.id == id)) t.topics in
    record t {
      topics = select (λ x. not (text_eq x.name name)) t.topics;
      subscriptions = select (λ (s : SubscriptionRow). not (gone s.topic_id)) t.subscriptions;
    }

unfoldable pub delete_topic : Text → Op Replica (Unit {0})
unfolding exec cascade_topic invalidate_topic_cache
delete_topic name = do
  exec Statement.delete_topic (λ r. tt) (λ r. cascade_topic name r.tables)
  invalidate_topic_cache name

-- The row is joined with the topic of that name, or with any topic for no name. A topic id is a
-- primary key, so that it is joined once.
abbrev pub joined : Text → List TopicRow → SubscriptionRow → Bool
joined name topics s =
    any (λ t. (t.id == s.topic_id) && (is_empty name || text_eq t.name name)) topics

abbrev pub row_subscription : SubscriptionRow → Subscription
row_subscription s = record {
  arn = s.arn;
  topic_arn = s.topic_arn;
  protocol = s.protocol;
  endpoint = s.endpoint;
  filter_policy = s.filter_policy;
  raw_delivery = s.raw_delivery;
  pending = s.pending;
  created_at = s.created_at;
}

unfoldable pub list_subscriptions : Text → Op Replica (List Subscription)
unfolding query sort_by
list_subscriptions name = query Statement.select_subscriptions (λ r.
    map row_subscription (sort_by (λ s. s.arn) (select (joined name r.topics) r.subscriptions)))

unfoldable pub unsubscribe : Text → Op Replica (Unit {0})
unfolding exec
unsubscribe arn =
    exec Statement.delete_subscription (λ r. tt)
      (λ r. record r.tables {
        subscriptions = select (λ s. not (text_eq s.arn arn)) r.subscriptions;
      })

-- Whether a new subscription waits for a confirmation.
unfoldable pub is_pending : Subscription → Bool
is_pending sub =
    if text_eq sub.protocol (codes "http") || text_eq sub.protocol (codes "https")
    then true
    else if text_eq sub.protocol (codes "sqs")
    then false
    else sub.pending

abbrev pub subscription_with_arn : Text → Tables → Option SubscriptionRow
subscription_with_arn arn t = find (λ s. text_eq s.arn arn) t.subscriptions

abbrev pub new_subscription : Subscription → ℕ → Replica → SubscriptionRow
new_subscription sub topic r = record {
  arn = sub.arn;
  topic_id = topic;
  topic_arn = sub.topic_arn;
  protocol = sub.protocol;
  endpoint = sub.endpoint;
  filter_policy = sub.filter_policy;
  raw_delivery = sub.raw_delivery;
  pending = sub.pending;
  created_at = r.now;
}

abbrev pub subscription_time : Replica → Option SubscriptionRow → ℕ
subscription_time r none = r.now
subscription_time r (some s) = s.created_at

-- A row that is there keeps all of its columns.
abbrev pub insert_subscription : Subscription → ℕ → Replica → Option SubscriptionRow → Tables
insert_subscription sub topic r none = record r.tables {
  subscriptions = r.subscriptions ++ new_subscription sub topic r ∷ [];
}
insert_subscription sub topic r (some s) = r.tables

module _ (lib : Lib) where
  -- The hash's first 8 bytes are 16 digits.
  unfoldable pub generate_subscription_arn : ℕ → Text → Text → Text → Text
  unfolding format
  generate_subscription_arn nanos topic_arn protocol endpoint =
      let hash =
        lib.sha256_hex (topic_arn ++ b':' ∷ protocol ++ b':' ∷ endpoint ++ b':' ∷ format nanos) in
      topic_arn ++ b':' ∷ take 16 hash

  abbrev pub completed : ℕ → Subscription → Subscription
  completed nanos sub = record sub {
    arn =
        if is_empty sub.arn
        then generate_subscription_arn nanos sub.topic_arn sub.protocol sub.endpoint
        else sub.arn;
    pending = is_pending sub;
  }

  unfoldable pub subscribe : ℕ → Subscription → Op Replica Subscription
  unfolding exec resolve_topic resource_name_from_arn is_pending generate_subscription_arn
  subscribe nanos given = do
    topic ← resolve_topic (resource_name_from_arn given.topic_arn)
    let sub = completed nanos given
    created ←
        exec Statement.insert_subscription
          (λ r. subscription_time r (subscription_with_arn sub.arn r.tables))
          (λ r. insert_subscription sub topic r (subscription_with_arn sub.arn r.tables))
    pure (record sub { created_at = created })
