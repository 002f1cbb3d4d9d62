-- ===== src/Nats/Names.antt =====
-- The names that the NATS backend gives streams, subjects, consumers and keys: the naming functions
-- of client.go, queues.go, messages.go and topics.go in shim/internal/storage/nats.
pub mod Shared
use dropin_queue.Base.{
  ℕ, ℤ, Bool, ◌==◌, ◌&&◌, ◌||◌, leb, [], ◌∷◌, ◌++◌, map, take, Text, codes, is_empty, if◌then◌else◌,
}
use dropin_queue.Types.{Message}

-- The settings among the fields of Client. Durations are nanoseconds.
pub record Client : Type 0 where
  pub prefix : Text
  pub replicas : ℕ
  pub max_ack_pending : ℕ
  pub topic_max_age : ℤ

-- A-Z, a-z, 0-9, '-' and '_'
abbrev pub is_stream_byte : ℕ → Bool
is_stream_byte c =
    (leb b'A' c && leb c b'Z')
    || ((leb b'a' c && leb c b'z') || ((leb b'0' c && leb c b'9') || ((c == b'-') || (c == b'_'))))

abbrev pub stream_byte : ℕ → ℕ
stream_byte c = if is_stream_byte c then c else b'_'

unfoldable pub sanitize_stream_name : Text → Text
sanitize_stream_name s = take 200 (map stream_byte s)

unfoldable pub sanitize_subject_token : Text → Text
sanitize_subject_token s =
    take 200 (map (λ c. if is_stream_byte c || (c == b'.') then c else b'_') s)

unfoldable pub queue_stream_name : Text → Text
unfolding sanitize_stream_name
queue_stream_name queue_name = codes "queue-" ++ sanitize_stream_name queue_name

unfoldable pub topic_stream_name : Text → Text
unfolding sanitize_stream_name
topic_stream_name topic_name = codes "topic-" ++ sanitize_stream_name topic_name

unfoldable pub queue_consumer_name : Text → Text
unfolding sanitize_stream_name
queue_consumer_name queue_name = codes "shim-consumer-" ++ sanitize_stream_name queue_name

unfoldable pub raw_subject : Client → Text → Text
raw_subject c s = if is_empty c.prefix then s else c.prefix ++ b'.' ∷ s

unfoldable pub queue_subject : Client → Text → Text
unfolding raw_subject
queue_subject c queue_name = raw_subject c (codes "q." ++ queue_name)

unfoldable pub topic_subject : Client → Text → Text
unfolding raw_subject
topic_subject c topic_name = raw_subject c (codes "t." ++ topic_name)

unfoldable pub subject_for_queue : Client → Text → Message → Text
unfolding queue_subject sanitize_subject_token
subject_for_queue c queue_name msg =
    queue_subject c queue_name
    ++ b'.'
      ∷ (if is_empty msg.message_group_id
          then codes "default"
          else sanitize_subject_token msg.message_group_id)

-- Every ':' and '.' of an ARN becomes '_'.
unfoldable pub subscription_key : Text → Text
subscription_key arn = map (λ c. if (c == b':') || (c == b'.') then b'_' else c) arn
