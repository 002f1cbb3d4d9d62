-- ===== src/Nats/Topics/Calls.antt =====
-- CreateTopic, GetTopic, ListTopics, DeleteTopic, Subscribe and ListSubscriptions of
-- shim/internal/storage/nats/topics.go.
use dropin_queue.Base.{
  ℕ, Bool, not, ◌&&◌, Option, none, some, List, [], ◌∷◌, ◌++◌, select, take, drop, Text, codes,
  has_prefix, text_eq, is_empty, format, if◌then◌else◌,
}
use dropin_queue.Types.{Topic, Subscription}
use dropin_queue.Storage.{Op, Result, ok, err, other, topic_not_found, fail, pure, ◌>>=◌, ◌>>◌}
use dropin_queue.Protocol.Arn.{resource_name_from_arn}
use dropin_queue.Nats.Names.{Client, topic_stream_name, subscription_key}
use dropin_queue.Nats.Broker.{
  stream_not_found, name_in_use, no_keys_found, Answer, done, fault, StreamInfo, Broker, Node,
  wrapped, missing, call, ask, caught,
}
use dropin_queue.Nats.Topics.{
  TopicMetadata, TopicCodec, topic_metadata_bucket, subscription_metadata_bucket, topic_stream_cfg,
  or_else, bare_topic, since, listed_since, subscription_of, subscription_metadata, completed,
  topic_kv, subscription_kv, forget,
}

-- The part of an ARN that the topic's ARN is given: eight bytes of a hash, as sixteen digits.
unfoldable pub generate_subscription_arn : (Text → Text) → ℕ → Subscription → Text
unfolding format
generate_subscription_arn sha256_hex nanos sub =
    sub.topic_arn
    ++ b':'
      ∷ take 16 (
          sha256_hex (
            sub.topic_arn ++ b':' ∷ (sub.protocol ++ b':' ∷ (sub.endpoint ++ b':' ∷ format nanos))))

module _ {S H : Type 0} (b : Broker S H) (codec : TopicCodec) where
  unfoldable pub save_topic_metadata : ℕ → Topic → Op (Node S H) (Unit {0})
  unfolding topic_kv
  save_topic_metadata now t = do
    topic_kv b
    call wrapped (
        b.kv_put topic_metadata_bucket t.name (
          codec.marshal_topic
            (record { version = 1; name = t.name; created_at = or_else t.created_at now })))

  abbrev decoded_topic : Option TopicMetadata → Op (Node S H) TopicMetadata
  decoded_topic none = fail other
  decoded_topic (some md) = pure md

  unfoldable pub load_topic_metadata : Text → Op (Node S H) TopicMetadata
  unfolding topic_kv
  load_topic_metadata name = do
    topic_kv b
    entry ← call (missing topic_not_found) (b.kv_get topic_metadata_bucket name)
    decoded_topic (codec.unmarshal_topic entry)

  abbrev made_or_found_topic : ℕ → Topic → Answer StreamInfo → Op (Node S H) Topic
  made_or_found_topic now t (fault name_in_use) = do
    existing ← call wrapped (b.stream (topic_stream_name t.name))
    md ← caught (load_topic_metadata t.name)
    pure (since (record t { created_at = existing.created }) md)
  made_or_found_topic now t (fault _) = fail other
  made_or_found_topic now t (done info) = do
    let made : Topic = record t { created_at = info.created }
    caught (save_topic_metadata now made)
    pure made

  unfoldable pub create_topic : Client → ℕ → Topic → Op (Node S H) Topic
  unfolding topic_stream_cfg topic_stream_name load_topic_metadata save_topic_metadata
  create_topic c now t = do
    answer ← ask (b.create_stream (topic_stream_cfg c t))
    made_or_found_topic now t answer

  unfoldable pub get_topic : Text → Op (Node S H) Topic
  unfolding topic_stream_name load_topic_metadata
  get_topic name = do
    info ← call (missing topic_not_found) (b.stream (topic_stream_name name))
    md ← caught (load_topic_metadata name)
    pure (since (bare_topic name info.created) md)

  -- The topics among the streams, whose names start with the prefix.
  unfoldable pub topics_named : Text → List Text → Op (Node S H) (List Topic)
  unfolding has_prefix load_topic_metadata
  topics_named prefix [] = pure []
  topics_named prefix (name ∷ names) =
      let rest = topics_named prefix names in
      if not (has_prefix (codes "topic-") name)
      then rest
      else if not (is_empty prefix) && not (has_prefix prefix (drop 6 name))
      then rest
      else (do
        md ← caught (load_topic_metadata (drop 6 name))
        ts ← rest
        pure (listed_since (drop 6 name) md ∷ ts))

  abbrev unless_cut : Bool → List Topic → Op (Node S H) (List Topic)
  unless_cut whole ts = if whole then pure ts else fail other

  -- A list that ends with an error is dropped by every caller.
  unfoldable pub list_topics : Text → Op (Node S H) (List Topic)
  unfolding topics_named
  list_topics prefix n =
      let (names, after) = b.stream_names n.broker in
      (topics_named prefix names.0 >>= unless_cut names.1) (record n { broker = after })

  abbrev entry_of : Answer Text → Option Subscription
  entry_of (fault _) = none
  entry_of (done text) = elim (codec.unmarshal_subscription text) [
    | none ↦ none
    | some md ↦ some (subscription_of md)
  ]

  abbrev with_entry : Option Subscription → List Subscription → List Subscription
  with_entry none subs = subs
  with_entry (some sub) subs = sub ∷ subs

  -- The entries of the keys, without those that cannot be read.
  unfoldable pub entries : List Text → Op (Node S H) (List Subscription)
  entries [] = pure []
  entries (k ∷ ks) = do
    entry ← ask (b.kv_get subscription_metadata_bucket k)
    subs ← entries ks
    pure (with_entry (entry_of entry) subs)

  abbrev of_keys : Answer (List Text) → Op (Node S H) (List Subscription)
  of_keys (done keys) = entries keys
  of_keys (fault no_keys_found) = pure []
  of_keys (fault _) = fail other

  unfoldable pub list_all_subscriptions : Op (Node S H) (List Subscription)
  unfolding subscription_kv entries
  list_all_subscriptions = do
    subscription_kv b
    keys ← ask (b.kv_keys subscription_metadata_bucket)
    of_keys keys

  unfoldable pub list_subscriptions : Text → Op (Node S H) (List Subscription)
  unfolding list_all_subscriptions resource_name_from_arn text_eq
  list_subscriptions topic_name = do
    all ← list_all_subscriptions
    pure (
        if is_empty topic_name
        then all
        else select (λ s. text_eq (resource_name_from_arn s.topic_arn) topic_name) all)

  unfoldable pub forget_all : List Subscription → Op (Node S H) (Unit {0})
  unfolding subscription_kv subscription_key
  forget_all [] = pure tt
  forget_all (s ∷ ss) = do forget b s.arn; forget_all ss

  abbrev forget_listed : Text → Result (List Subscription) → Op (Node S H) (Unit {0})
  forget_listed name (err e) = pure tt
  forget_listed name (ok subs) =
      forget_all (select (λ s. text_eq (resource_name_from_arn s.topic_arn) name) subs)

  -- What is stored of the topic and of its subscriptions; errors are dropped.
  abbrev removed : Text → Op (Node S H) (Unit {0})
  removed name = do
    caught (topic_kv b >> call wrapped (b.kv_delete topic_metadata_bucket name))
    subs ← caught list_all_subscriptions
    forget_listed name subs

  abbrev clean_up : Text → Answer (Unit {0}) → Op (Node S H) (Unit {0})
  clean_up name (done _) = removed name
  clean_up name (fault stream_not_found) = removed name
  clean_up name (fault _) = fail other

  unfoldable pub delete_topic : Text → Op (Node S H) (Unit {0})
  unfolding topic_stream_name topic_kv list_all_subscriptions forget_all resource_name_from_arn
      text_eq
  delete_topic name = do
    deleted ← ask (b.delete_stream (topic_stream_name name))
    clean_up name deleted

  -- The clock is read as `now`, and in nanoseconds as `nanos`.
  unfoldable pub subscribe : (Text → Text) → ℕ → ℕ → Subscription → Op (Node S H) Subscription
  unfolding get_topic completed generate_subscription_arn subscription_kv subscription_metadata
      subscription_key resource_name_from_arn
  subscribe sha256_hex now nanos sub = do
    get_topic (resource_name_from_arn sub.topic_arn)
    let made = completed now (generate_subscription_arn sha256_hex nanos sub) sub
    subscription_kv b
    call wrapped (
        b.kv_put subscription_metadata_bucket (subscription_key made.arn)
          (codec.marshal_subscription (subscription_metadata made)))
    pure made
