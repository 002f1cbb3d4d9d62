-- ===== src/Nats/Messages.antt =====
-- SendMessage, ReceiveMessage and parseJetStreamMsg of shim/internal/storage/nats/messages.go.
-- Logging and metrics are not modelled; `now` is the shim's clock.
pub mod Limited
use dropin_queue.Base.{
  ℕ, ◌/◌, ◌==◌, ltb, ℤ, pos, ltb_ℤ, eq_ℤ, Bool, ◌&&◌, not, Option, none, some, List, [], ◌∷◌, ◌++◌,
  length, Text, codes, contains, is_empty, format, Map, insert, if◌then◌else◌,
}
use dropin_queue.Types.{Message, Queue}
use dropin_queue.Storage.{
  Op, Result, ok, err, other, queue_full, invalid_argument, message_too_large, fail, pure, ◌>>=◌,
  ◌>>◌,
}
use dropin_queue.Nats.Names.{Client, queue_consumer_name, subject_for_queue}
use dropin_queue.Nats.Headers.{Header, Base64, message_headers, parse_attributes}
use dropin_queue.Nats.Receipts.{RawUrl, encode_receipt_handle}
use dropin_queue.Nats.Broker.{
  Answer, done, fault, Broker, Node, seconds, wrapped, call, ask, invalidate_consumer,
}
use dropin_queue.Nats.Metadata.{Codec}
use dropin_queue.Nats.Queues.{get_queue, ensure_queue_consumer}

-- The functions of other packages.
pub record Lib : Type 0 where
  pub md5_hex : Text → Text
  pub sha256_hex : Text → Text
  pub base64 : Base64
  pub raw_url : RawUrl
  pub codec : Codec

-- What becomes of a message that is handed to PublishMsgAsync: it is not accepted, the context ends
-- first, or the broker acknowledges it or refuses it with an error of this text, in lower case.
pub data Published : Type 0 where
  not_accepted cancelled : Published
  acked : (sequence : ℕ) (duplicate : Bool) → Published
  refused : (lower_text : Text) → Published

-- A jetstream.Msg, with its metadata if that can be read. A timestamp of 0 is the zero time.
pub record Meta : Type 0 where
  pub stream_sequence : ℕ
  pub timestamp : ℕ
  pub num_delivered : ℕ

pub record JetStreamMsg : Type 0 where
  pub data_bytes : Text
  pub headers : Header
  pub reply : Text
  pub meta : Option Meta

-- How the channel of a Fetch ends: with the context, or closed, with an error that is not a timeout
-- or without one.
pub data Ending : Type 0 where
  context_done : Ending
  closed : (failed : Bool) → Ending

-- Publishing to a subject with headers and an id, and fetching from a consumer.
pub record Traffic (S H : Type 0) : Type 0 where
  pub publish_msg : Text → Text → Header → Option Text → S → Published × S
  pub fetch : H → ℤ → ℤ → S → Answer (List JetStreamMsg × Ending) × S

-- strconv.FormatInt(t.UnixMilli())
abbrev millis : ℕ → Text
millis t = format (t / 1000)

abbrev given : ℕ → ℕ → ℕ
given n default = if n == 0 then default else n

module _ (lib : Lib) where
  -- What the metadata says, where there is any.
  abbrev with_meta : Option Meta → Message → Message
  with_meta none m = m
  with_meta (some meta) m =
      let enqueued_at = given meta.timestamp m.enqueued_at in
      let stamped = insert (codes "SentTimestamp") (millis enqueued_at) m.attributes in
      record m {
        id = format meta.stream_sequence;
        enqueued_at = enqueued_at;
        attributes =
            if ltb 0 meta.num_delivered
            then insert (codes "ApproximateReceiveCount") (format meta.num_delivered) stamped
            else stamped;
      }

  unfoldable pub parse_jetstream_msg : ℕ → JetStreamMsg → Message
  unfolding parse_attributes encode_receipt_handle insert format
  parse_jetstream_msg now msg = with_meta msg.meta (record {
    id = [];
    receipt_handle = encode_receipt_handle lib.raw_url msg.reply;
    body = msg.data_bytes;
    md5_of_body = lib.md5_hex msg.data_bytes;
    attributes = (codes "ApproximateReceiveCount", codes "1") ∷ [];
    message_attributes = parse_attributes lib.base64 msg.headers;
    enqueued_at = now;
    message_group_id = [];
    message_deduplication_id = [];
  })

  -- The id by which the broker deduplicates: the client's, or the body's hash.
  abbrev pub msg_id : Queue → Message → Option Text
  msg_id q msg =
      if not (is_empty msg.message_deduplication_id)
      then some msg.message_deduplication_id
      else if q.attributes.content_based_deduplication && q.fifo
      then some (lib.sha256_hex msg.body)
      else none

  abbrev flagged : Bool → Map Text → Map Text
  flagged duplicate attrs =
      if duplicate then insert (codes "Duplicate") (codes "true") attrs else attrs

  abbrev acknowledged : ℕ → ℕ → Bool → Message → Message
  acknowledged now sequence duplicate msg = record msg {
    id = format sequence;
    enqueued_at = now;
    md5_of_body = lib.md5_hex msg.body;
    attributes =
        insert (codes "ApproximateReceiveCount") (codes "0")
          (insert (codes "SentTimestamp") (millis now) (flagged duplicate msg.attributes));
  }

  abbrev deduplicated : ℕ → Message → Message
  deduplicated now msg = record msg {
    id = codes "dedup-" ++ msg.message_deduplication_id;
    enqueued_at = now;
    attributes = (codes "SentTimestamp", millis now) ∷ (codes "Duplicate", codes "true") ∷ [];
  }

  abbrev pub outcome : ℕ → Message → Published → Result Message
  outcome now msg not_accepted = err other
  outcome now msg cancelled = err other
  outcome now msg (acked sequence duplicate) = ok (acknowledged now sequence duplicate msg)
  outcome now msg (refused e) =
      if contains (codes "maximum messages exceeded") e
      then err queue_full
      else if contains (codes "duplicate") e
      then ok (deduplicated now msg)
      else err other

  -- The loop over a Fetch's channel, once `out` has been read: it ends with `max` messages, or as
  -- the channel does.
  unfoldable pub gathered :
      ℕ → ℤ → List JetStreamMsg → Ending → List Message → Result (List Message)
  unfolding parse_jetstream_msg
  gathered now max [] context_done out = ok out
  gathered now max [] (closed failed) out =
      if failed && (length out == 0) then err other else ok out
  gathered now max (m ∷ ms) ending out =
      let more = out ++ parse_jetstream_msg now m ∷ [] in
      let rest = gathered now max ms ending more in
      if not (ltb_ℤ (pos (length more)) max) then ok more else rest

abbrev size_limit : ℤ → ℤ
size_limit n = if eq_ℤ n (pos 0) then pos 262144 else n

-- At least `low` and at most `high`
abbrev pub clamped : ℤ → ℤ → ℤ → ℤ
clamped low high n = if ltb_ℤ n low then low else if ltb_ℤ high n then high else n

abbrev pub short_poll_max_wait : ℤ
short_poll_max_wait = pos 100000000

abbrev pub max_wait : ℤ → ℤ
max_wait wait_seconds =
    if ltb_ℤ (pos 0) wait_seconds then seconds wait_seconds else short_poll_max_wait

-- The timeout of the call, or the queue's, or 30 seconds.
abbrev pub chosen_timeout : ℤ → ℤ → ℤ
chosen_timeout n of_queue =
    let chosen = if ltb_ℤ (pos 0) n then n else of_queue in
    if eq_ℤ chosen (pos 0) then pos 30 else chosen

module _ {S H : Type 0} where
  -- A call of Traffic that has no Fault
  abbrev pub publishing : Traffic S H → Text → Text → Header → Option Text → Op (Node S H) Published
  publishing t subject body headers id n =
      let (p, s) = t.publish_msg subject body headers id n.broker in (ok p, record n { broker = s })

  abbrev pub lift : {A : Type 0} → Result A → Op (Node S H) A
  lift x n = (x, n)

module _ {S H : Type 0} (lib : Lib) (b : Broker S H) (t : Traffic S H) (c : Client) where
  abbrev send_to : ℕ → Text → Message → Queue → Op (Node S H) Message
  send_to now queue_name msg q =
      if ltb_ℤ (size_limit q.attributes.maximum_message_size) (pos (length msg.body))
      then fail (message_too_large (length msg.body) (size_limit q.attributes.maximum_message_size))
      else (do
        headers ← lift (message_headers lib.base64 msg.message_attributes)
        published ←
            publishing t (subject_for_queue c queue_name msg) msg.body headers (msg_id lib q msg)
        lift (outcome lib now msg published))

  unfoldable pub send_message : ℕ → Text → Option Message → Op (Node S H) Message
  unfolding get_queue message_headers subject_for_queue
  send_message now queue_name none = fail invalid_argument
  send_message now queue_name (some msg) =
      if is_empty msg.body
      then fail invalid_argument
      else (do q ← get_queue b lib.codec queue_name; send_to now queue_name msg q)

  -- A consumer that cannot be fetched from is made again, once.
  abbrev pub fetched :
      Text
      → ℤ
      → ℤ
      → ℤ
      → Answer (List JetStreamMsg × Ending)
      → Op (Node S H) (List JetStreamMsg × Ending)
  fetched queue_name timeout max wait (done x) = pure x
  fetched queue_name timeout max wait (fault _) = do
    invalidate_consumer (queue_consumer_name queue_name)
    h ← ensure_queue_consumer b c none queue_name timeout
    call wrapped (t.fetch h max wait)

  unfoldable pub receive_message : ℕ → Text → ℤ → ℤ → ℤ → Op (Node S H) (List Message)
  unfolding get_queue ensure_queue_consumer invalidate_consumer queue_consumer_name gathered
  receive_message now queue_name max_messages wait_seconds visibility_timeout = do
    let max = clamped (pos 1) (pos 10) max_messages
    q ← get_queue b lib.codec queue_name
    let timeout = chosen_timeout visibility_timeout q.attributes.visibility_timeout
    let wait = max_wait (clamped (pos 0) (pos 20) wait_seconds)
    h ← ensure_queue_consumer b c none queue_name timeout
    first ← ask (t.fetch h max wait)
    (msgs, ending) ← fetched queue_name timeout max wait first
    lift (gathered lib now max msgs ending [])
