-- ===== src/Nats/Metadata.antt =====
-- The metadata of queues: queueMetadataV1, saveQueueMetadata and loadQueueMetadata of
-- shim/internal/storage/nats/metadata.go. Encoding as JSON is a parameter, and does not fail.
pub mod RoundTrip
use dropin_queue.Base.{
  ℕ, suc, ◌==◌, ℤ, pos, eq_ℤ, Bool, true, Option, none, some, List, [], ◌∷◌, ◌++◌, Text, codes, Map,
  lookup, if◌then◌else◌,
}
use dropin_queue.Types.{QueueAttributes, Queue}
use dropin_queue.Storage.{Op, Result, ok, err, other, queue_not_found, fail, pure, ◌>>=◌, ◌>>◌}
use dropin_queue.Nats.Broker.{
  Fault, key_not_found, Answer, done, fault, Broker, Node, wrapped, missing, call, ask, load_kv,
}

pub record QueueMetadata : Type 0 where
  pub version : ℕ
  pub attributes : Map ℤ
  pub fifo : Bool
  pub tags : Map Text
  pub created_at : ℕ
  pub updated_at : ℕ

pub record Codec : Type 0 where
  pub marshal : QueueMetadata → Text
  pub unmarshal : Text → Option QueueMetadata

abbrev pub queue_metadata_bucket : Text
queue_metadata_bucket = codes "queue_meta"

abbrev flag : Bool → Map ℤ
flag on = if on then (codes "ContentBasedDeduplication", pos 1) ∷ [] else []

unfoldable pub attribute_map : QueueAttributes → Map ℤ
attribute_map a =
    (codes "VisibilityTimeout", a.visibility_timeout)
    ∷ (codes "MessageRetentionPeriod", a.message_retention_period)
    ∷ (codes "MaximumMessageSize", a.maximum_message_size)
    ∷ (codes "DelaySeconds", a.delay_seconds)
    ∷ (codes "ReceiveMessageWaitTimeSeconds", a.receive_message_wait_time_seconds)
    ∷ flag a.content_based_deduplication

-- md.Attributes[key]
abbrev or_zero : Option ℤ → ℤ
or_zero none = pos 0
or_zero (some n) = n

unfoldable pub attributes_of : Map ℤ → QueueAttributes
unfolding lookup
attributes_of m = record {
  visibility_timeout = or_zero (lookup (codes "VisibilityTimeout") m);
  message_retention_period = or_zero (lookup (codes "MessageRetentionPeriod") m);
  maximum_message_size = or_zero (lookup (codes "MaximumMessageSize") m);
  delay_seconds = or_zero (lookup (codes "DelaySeconds") m);
  receive_message_wait_time_seconds = or_zero (lookup (codes "ReceiveMessageWaitTimeSeconds") m);
  content_based_deduplication =
      eq_ℤ (or_zero (lookup (codes "ContentBasedDeduplication") m)) (pos 1);
}

-- The metadata of a queue, at the time `now`.
unfoldable pub metadata : ℕ → Queue → QueueMetadata
unfolding attribute_map
metadata now q = record {
  version = 1;
  attributes = attribute_map q.attributes;
  fifo = q.fifo;
  tags = q.tags;
  created_at = q.created_at;
  updated_at = if q.created_at == 0 then now else q.created_at;
}

-- The attributes, the tags and the kind of a queue, as its metadata has them.
unfoldable pub restored : QueueMetadata → Queue → Queue
unfolding attributes_of
restored md q = record q {
  attributes = attributes_of md.attributes;
  fifo = md.fifo;
  tags = md.tags;
}

module _ {S H : Type 0} (b : Broker S H) where
  unfoldable pub metadata_kv : Op (Node S H) (Unit {0})
  unfolding load_kv
  metadata_kv = load_kv queue_metadata_bucket (b.create_or_update_key_value queue_metadata_bucket)

  abbrev unless_failed : Answer Text → Op (Node S H) (Unit {0})
  unless_failed (done v) = pure tt
  unless_failed (fault key_not_found) = pure tt
  unless_failed (fault _) = fail other

  module _ (codec : Codec) where
    -- The entry that is there is read, and overwritten whatever it is.
    unfoldable pub save_queue_metadata : ℕ → Queue → Op (Node S H) (Unit {0})
    unfolding metadata_kv metadata
    save_queue_metadata now q = do
      metadata_kv
      entry ← ask (b.kv_get queue_metadata_bucket q.name)
      unless_failed entry
      call wrapped (b.kv_put queue_metadata_bucket q.name (codec.marshal (metadata now q)))

    abbrev decoded : Option QueueMetadata → Op (Node S H) QueueMetadata
    decoded none = fail other
    decoded (some md) = pure md

    unfoldable pub load_queue_metadata : Text → Op (Node S H) QueueMetadata
    unfolding metadata_kv
    load_queue_metadata name = do
      metadata_kv
      entry ← call (missing queue_not_found) (b.kv_get queue_metadata_bucket name)
      decoded (codec.unmarshal entry)
