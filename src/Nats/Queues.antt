-- ===== src/Nats/Queues.antt =====
-- The queues of the NATS backend: shim/internal/storage/nats/queues.go, GetQueue and
-- SetQueueAttributes of metadata.go, ensureQueueConsumer and QueueDepth of messages.go. Logging and
-- metrics are not modelled; `now` is the shim's clock.
pub mod Window
use dropin_queue.Base.{
  ℕ, ◌*◌, ◌==◌, ℤ, pos, ltb_ℤ, Bool, true, false, not, ◌&&◌, Option, none, some, List, [], ◌∷◌,
  ◌++◌, length, drop, Text, codes, has_prefix, has_suffix, is_empty, if◌then◌else◌,
}
use dropin_queue.Types.{QueueAttributes, Queue, default_queue_attributes}
use dropin_queue.Storage.{
  Op, Result, ok, err, Err, other, queue_not_found, fail, pure, ◌>>=◌, ◌>>◌, get_state,
}
use dropin_queue.Nats.Names.{Client, queue_stream_name, queue_subject, queue_consumer_name}
use dropin_queue.Nats.Broker.{
  Fault, stream_not_found, name_in_use, Answer, done, fault, StreamConfig, ConsumerConfig,
  StreamInfo, Broker, Node, second, seconds, wrapped, missing, call, ask, caught,
  cached_queue_consumer, cache_queue_consumer, invalidate_consumer,
}
use dropin_queue.Nats.Metadata.{
  QueueMetadata, Codec, restored, save_queue_metadata, load_queue_metadata,
}

abbrev pub dedup_window : ℤ
dedup_window = pos (300 * second)

abbrev pub retention : QueueAttributes → ℤ
retention a =
    if ltb_ℤ (pos 0) a.message_retention_period
    then seconds a.message_retention_period
    else pos (345600 * second)

-- A queue without a URL and the like, which the callers fill in.
abbrev bare_queue : Text → Bool → ℕ → Queue
bare_queue name fifo created_at = record {
  name = name;
  url = [];
  arn = [];
  account_id = [];
  region = [];
  attributes = default_queue_attributes;
  tags = [];
  fifo = fifo;
  created_at = created_at;
}

unfoldable pub stream_cfg : Client → Queue → StreamConfig
unfolding queue_stream_name queue_subject
stream_cfg c q = record {
  name = queue_stream_name q.name;
  subjects = (queue_subject c q.name ++ codes ".>") ∷ [];
  discard_new = true;
  work_queue = true;
  replicas = c.replicas;
  max_msgs = 10000000;
  max_age = retention q.attributes;
  duplicates =
      if ltb_ℤ (retention q.attributes) dedup_window then retention q.attributes else dedup_window;
}

abbrev pub if_given : ℤ → ℤ → ℤ
if_given new old = if ltb_ℤ (pos 0) new then new else old

-- Attributes above zero replace the old ones, and the flag always does.
unfoldable pub merged : QueueAttributes → QueueAttributes → QueueAttributes
merged new old = record {
  visibility_timeout = if_given new.visibility_timeout old.visibility_timeout;
  message_retention_period = if_given new.message_retention_period old.message_retention_period;
  maximum_message_size = if_given new.maximum_message_size old.maximum_message_size;
  delay_seconds = if_given new.delay_seconds old.delay_seconds;
  receive_message_wait_time_seconds =
      if_given new.receive_message_wait_time_seconds old.receive_message_wait_time_seconds;
  content_based_deduplication = new.content_based_deduplication;
}

abbrev new_max_age : QueueAttributes → StreamConfig → StreamConfig
new_max_age a cfg =
    if ltb_ℤ (pos 0) a.message_retention_period
    then record cfg { max_age = seconds a.message_retention_period }
    else cfg

-- The queues among the streams, whose names start with the prefix.
unfoldable pub queues_named : Text → List Text → List Queue
unfolding has_prefix
queues_named prefix [] = []
queues_named prefix (name ∷ names) =
    let rest = queues_named prefix names in
    if not (has_prefix (codes "queue-") name)
    then rest
    else if not (is_empty prefix) && not (has_prefix prefix (drop 6 name))
    then rest
    else bare_queue (drop 6 name) false 0 ∷ rest

module _ {S H : Type 0} (b : Broker S H) where
  abbrev find_stream : Text → Op (Node S H) StreamInfo
  find_stream name = call (missing queue_not_found) (b.stream name)

  -- The stream's name, if it is not given.
  abbrev stream_or_find : Text → Option Text → Op (Node S H) Text
  stream_or_find name none = do find_stream name; pure name
  stream_or_find name (some stream) = pure stream

  abbrev consumer_cfg : Client → Text → Text → ℤ → ConsumerConfig
  consumer_cfg c queue_name name ack_wait = record {
    name = name;
    max_ack_pending = c.max_ack_pending;
    ack_wait = ack_wait;
    filter_subjects = (queue_subject c queue_name ++ codes ".>") ∷ [];
  }

  -- The consumer that the cache has, or the one that the broker makes or updates.
  abbrev cached_or_made : Client → Option Text → Text → ℤ → Option H → Op (Node S H) H
  cached_or_made c stream queue_name ack_wait (some h) = pure h
  cached_or_made c stream queue_name ack_wait none = do
    let name = queue_consumer_name queue_name
    found ← stream_or_find (queue_stream_name queue_name) stream
    h ← call wrapped (b.create_or_update_consumer found (consumer_cfg c queue_name name ack_wait))
    cache_queue_consumer name h ack_wait
    pure h

  unfoldable pub ensure_queue_consumer : Client → Option Text → Text → ℤ → Op (Node S H) H
  unfolding queue_stream_name queue_consumer_name queue_subject cached_queue_consumer
      cache_queue_consumer
  ensure_queue_consumer c stream queue_name visibility_timeout = do
    let ack_wait = seconds visibility_timeout
    n ← get_state
    cached_or_made c stream queue_name ack_wait
        (cached_queue_consumer (queue_consumer_name queue_name) ack_wait n)

  unfoldable pub purge_queue : Text → Op (Node S H) (Unit {0})
  unfolding queue_stream_name
  purge_queue name = do
    find_stream (queue_stream_name name)
    call wrapped (b.purge (queue_stream_name name))

  unfoldable pub queue_depth : Text → Op (Node S H) ℕ
  unfolding queue_stream_name
  queue_depth name = do
    find_stream (queue_stream_name name)
    call wrapped (b.state_msgs (queue_stream_name name))

  abbrev unless_failing : Answer (Unit {0}) → Op (Node S H) (Unit {0})
  unless_failing (done _) = pure tt
  unless_failing (fault stream_not_found) = pure tt
  unless_failing (fault _) = fail other

  unfoldable pub delete_queue : Text → Op (Node S H) (Unit {0})
  unfolding queue_stream_name queue_consumer_name invalidate_consumer
  delete_queue name = do
    deleted ← ask (b.delete_stream (queue_stream_name name))
    invalidate_consumer (queue_consumer_name name)
    unless_failing deleted

  -- A list that ends with an error is dropped by every caller.
  unfoldable pub list_queues : Text → Op (Node S H) (List Queue)
  unfolding queues_named
  list_queues prefix n =
      let (names, ends) = b.stream_names n.broker in
      (if names.1 then ok (queues_named prefix names.0) else err other, record n { broker = ends })

  module _ (codec : Codec) where
    abbrev with_metadata : Queue → Result QueueMetadata → Op (Node S H) Queue
    with_metadata q (err queue_not_found) = pure q
    with_metadata q (err e) = fail e
    with_metadata q (ok md) = pure (record (restored md q) {
      created_at = if md.created_at == 0 then q.created_at else md.created_at;
    })

    unfoldable pub get_queue : Text → Op (Node S H) Queue
    unfolding queue_stream_name restored has_suffix load_queue_metadata
    get_queue name = do
      info ← find_stream (queue_stream_name name)
      md ← caught (load_queue_metadata b codec name)
      with_metadata (bare_queue name (has_suffix (codes ".fifo") name) info.created) md

    abbrev restored_if : Queue → Result QueueMetadata → Queue
    restored_if q (err e) = q
    restored_if q (ok md) = restored md q

    abbrev made_or_found : Client → ℕ → Queue → Answer StreamInfo → Op (Node S H) Queue
    made_or_found c now q (fault name_in_use) = do
      existing ← call wrapped (b.stream (queue_stream_name q.name))
      md ← caught (load_queue_metadata b codec q.name)
      pure (restored_if (record q { created_at = existing.created }) md)
    made_or_found c now q (fault _) = fail other
    made_or_found c now q (done info) = do
      let made : Queue = record q { created_at = info.created }
      let visibility = if_given q.attributes.visibility_timeout (pos 30)
      caught (save_queue_metadata b codec now made)
      caught (ensure_queue_consumer c (some (queue_stream_name q.name)) q.name visibility)
      pure made

    unfoldable pub create_queue : Client → ℕ → Queue → Op (Node S H) Queue
    unfolding stream_cfg queue_stream_name save_queue_metadata load_queue_metadata restored
        ensure_queue_consumer
    create_queue c now q = do
      answer ← ask (b.create_stream (stream_cfg c q))
      made_or_found c now q answer

    abbrev updated_consumer : Client → Text → ℤ → Op (Node S H) (Unit {0})
    updated_consumer c name visibility_timeout =
        if ltb_ℤ (pos 0) visibility_timeout
        then (do
          invalidate_consumer (queue_consumer_name name)
          caught (ensure_queue_consumer c (some (queue_stream_name name)) name visibility_timeout)
          pure tt)
        else pure tt

    unfoldable pub set_queue_attributes :
        Client → ℕ → Text → QueueAttributes → Op (Node S H) (Unit {0})
    unfolding queue_stream_name queue_consumer_name invalidate_consumer ensure_queue_consumer
        get_queue merged save_queue_metadata
    set_queue_attributes c now name attrs = do
      info ← find_stream (queue_stream_name name)
      call wrapped (b.update_stream (new_max_age attrs info.config))
      updated_consumer c name attrs.visibility_timeout
      q ← get_queue name
      save_queue_metadata b codec now (record q { attributes = merged attrs q.attributes })
