-- ===== src/Nats/Topics.antt =====
-- The topics of the NATS backend: shim/internal/storage/nats/topics.go. Logging and metrics are not
-- modelled; `now` is the shim's clock. Encoding as JSON is a parameter, and does not fail.
pub mod Calls
pub mod Fanout
use dropin_queue.Base.{
  ℕ, ◌==◌, ℤ, pos, Bool, true, false, not, ◌&&◌, ◌||◌, Option, none, some, List, [], ◌∷◌, ◌++◌,
  select, map, drop, Text, codes, has_prefix, text_eq, is_empty, if◌then◌else◌,
}
use dropin_queue.Types.{Topic, Subscription, Message}
use dropin_queue.Storage.{
  Op, Result, ok, err, Err, other, topic_not_found, invalid_argument, fail, pure, ◌>>=◌, ◌>>◌,
}
use dropin_queue.Protocol.Arn.{resource_name_from_arn}
use dropin_queue.Nats.Names.{Client, topic_stream_name, topic_subject, subscription_key}
use dropin_queue.Nats.Broker.{
  Fault, stream_not_found, name_in_use, key_not_found, no_keys_found, Answer, done, fault,
  StreamConfig, StreamInfo, Broker, Node, wrapped, missing, call, ask, caught, load_kv,
}

pub record TopicMetadata : Type 0 where
  pub version : ℕ
  pub name : Text
  pub created_at : ℕ

pub record SubscriptionMetadata : Type 0 where
  pub version : ℕ
  pub arn : Text
  pub topic_arn : Text
  pub topic_name : Text
  pub protocol : Text
  pub endpoint : Text
  pub filter_policy : Text
  pub raw_delivery : Bool
  pub pending : Bool
  pub created_at : ℕ

pub record TopicCodec : Type 0 where
  pub marshal_topic : TopicMetadata → Text
  pub unmarshal_topic : Text → Option TopicMetadata
  pub marshal_subscription : SubscriptionMetadata → Text
  pub unmarshal_subscription : Text → Option SubscriptionMetadata

abbrev pub topic_metadata_bucket : Text
topic_metadata_bucket = codes "topic_meta"

abbrev pub subscription_metadata_bucket : Text
subscription_metadata_bucket = codes "subscription_meta"

-- The stream is a record of what was published, with old messages discarded.
unfoldable pub topic_stream_cfg : Client → Topic → StreamConfig
unfolding topic_stream_name topic_subject
topic_stream_cfg c t = record {
  name = topic_stream_name t.name;
  subjects = topic_subject c t.name ∷ [];
  discard_new = false;
  work_queue = false;
  replicas = c.replicas;
  max_msgs = 10000000;
  max_age = c.topic_max_age;
  duplicates = pos 0;
}

abbrev pub or_else : ℕ → ℕ → ℕ
or_else n default = if n == 0 then default else n

abbrev pub bare_topic : Text → ℕ → Topic
bare_topic name created_at = record {
  name = name;
  arn = [];
  account_id = [];
  region = [];
  created_at = created_at;
}

abbrev pub since : Topic → Result TopicMetadata → Topic
since t (err e) = t
since t (ok md) = record t { created_at = or_else md.created_at t.created_at }

-- A topic of a list has the time that its metadata has, if that can be read.
abbrev pub listed_since : Text → Result TopicMetadata → Topic
listed_since name (err e) = bare_topic name 0
listed_since name (ok md) = bare_topic name md.created_at

abbrev pub subscription_of : SubscriptionMetadata → Subscription
subscription_of md = record {
  arn = md.arn;
  topic_arn = md.topic_arn;
  protocol = md.protocol;
  endpoint = md.endpoint;
  filter_policy = md.filter_policy;
  raw_delivery = md.raw_delivery;
  pending = md.pending;
  created_at = md.created_at;
}

unfoldable pub subscription_metadata : Subscription → SubscriptionMetadata
unfolding resource_name_from_arn
subscription_metadata sub = record {
  version = 1;
  arn = sub.arn;
  topic_arn = sub.topic_arn;
  topic_name = resource_name_from_arn sub.topic_arn;
  protocol = sub.protocol;
  endpoint = sub.endpoint;
  filter_policy = sub.filter_policy;
  raw_delivery = sub.raw_delivery;
  pending = sub.pending;
  created_at = sub.created_at;
}

abbrev still_pending : Subscription → Bool
still_pending sub =
    if text_eq sub.protocol (codes "http")
      || (text_eq sub.protocol (codes "https") && not sub.pending)
    then true
    else if text_eq sub.protocol (codes "sqs")
    then false
    else sub.pending

-- The subscription as it is stored, with the ARN that is made for it if it has none.
unfoldable pub completed : ℕ → Text → Subscription → Subscription
unfolding text_eq
completed now new_arn sub = record sub {
  created_at = or_else sub.created_at now;
  arn = if is_empty sub.arn then new_arn else sub.arn;
  pending = still_pending sub;
}

module _ {S H : Type 0} (b : Broker S H) where
  unfoldable pub topic_kv : Op (Node S H) (Unit {0})
  unfolding load_kv
  topic_kv = load_kv topic_metadata_bucket (b.create_or_update_key_value topic_metadata_bucket)

  unfoldable pub subscription_kv : Op (Node S H) (Unit {0})
  unfolding load_kv
  subscription_kv =
      load_kv subscription_metadata_bucket
        (b.create_or_update_key_value subscription_metadata_bucket)

  -- The entry of a subscription is deleted if the bucket can be opened; errors are dropped.
  abbrev pub forget : Text → Op (Node S H) (Unit {0})
  forget arn = do
    caught (do
      subscription_kv
      call wrapped (b.kv_delete subscription_metadata_bucket (subscription_key arn)))
    pure tt

  abbrev no_subscription : Fault → Err
  no_subscription key_not_found = invalid_argument
  no_subscription _ = other

  unfoldable pub unsubscribe : Text → Op (Node S H) (Unit {0})
  unfolding subscription_kv subscription_key
  unsubscribe subscription_arn = do
    subscription_kv
    call no_subscription
        (b.kv_delete subscription_metadata_bucket (subscription_key subscription_arn))
