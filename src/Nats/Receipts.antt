-- ===== src/Nats/Receipts.antt =====
-- Receipt handles of the NATS backend, and what acknowledges a message by one: encodeReceiptHandle,
-- decodeReceiptHandle, validateReceiptQueue, publishAck, DeleteMessage and ChangeMessageVisibility of
-- shim/internal/storage/nats/messages.go.
pub mod Acked
use dropin_queue.Base.{
  ℕ, ◌*◌, ◌==◌, leb, ltb, Bool, true, false, ◌||◌, Option, none, some, List, [], ◌∷◌, ◌++◌, length,
  ℤ, pos, negsuc, ltb_ℤ, Text, codes, text_eq, has_prefix, is_empty, drop, format, if◌then◌else◌,
}
use dropin_queue.Storage.{
  Op, Result, ok, err, invalid_argument, invalid_receipt_handle, other, fail,
}
use dropin_queue.Protocol.Arn.{split}
use dropin_queue.Nats.Names.{queue_stream_name}

-- encoding/base64's RawURLEncoding: what it encodes and what it decodes, if it does.
pub record RawUrl : Type 0 where
  pub encode_to_string : Text → Text
  pub decode_string : Text → Option Text

-- The connection to the broker, over the broker's state. A call tells whether it succeeded.
pub record Conn (S : Type 0) : Type 0 where
  pub publish : Text → Text → S → Bool × S
  pub flush : S → Bool × S

module _ (b : RawUrl) where
  unfoldable pub encode_receipt_handle : Text → Text
  encode_receipt_handle reply_subject = codes "rh2:" ++ b.encode_to_string reply_subject

  abbrev ack_reply : Option Text → Option Text
  ack_reply none = none
  ack_reply (some reply) = if has_prefix (codes "$JS.ACK.") reply then some reply else none

  -- none stands for the error.
  unfoldable pub decode_receipt_handle : Text → Option Text
  unfolding has_prefix
  decode_receipt_handle rh =
      if has_prefix (codes "rh2:") rh then ack_reply (b.decode_string (drop 4 rh)) else none

-- tokens[n], where it is in range
abbrev pub token_at : ℕ → List Text → Text
token_at n tokens = elim (drop n tokens) [ [] ↦ [] | t ∷ ts ↦ t ]

abbrev pub of_stream : Text → Text → Result (Unit {0})
of_stream stream expected = if text_eq stream expected then ok tt else err invalid_receipt_handle

abbrev pub of_tokens : List Text → Text → Result (Unit {0})
of_tokens tokens expected =
    if length tokens == 9
    then of_stream (token_at 2 tokens) expected
    else if leb 12 (length tokens)
    then of_stream (token_at 4 tokens) expected
    else err invalid_receipt_handle

unfoldable pub validate_receipt_queue : Text → Text → Result (Unit {0})
unfolding split queue_stream_name
validate_receipt_queue reply_subject queue_name =
    of_tokens (split b'.' reply_subject) (queue_stream_name queue_name)

-- The delay in nanoseconds, if it is above 0.
unfoldable pub nak_payload : ℤ → Text
unfolding format
nak_payload (negsuc n) = codes "-NAK"
nak_payload (pos n) =
    if ltb 0 n
    then codes "-NAK {\"delay\": " ++ format (n * 1000000000) ++ codes "}"
    else codes "-NAK"

module _ {S : Type 0} (conn : Conn S) where
  abbrev succeeded : Bool × S → Result (Unit {0}) × S
  succeeded (true, s) = (ok tt, s)
  succeeded (false, s) = (err other, s)

  abbrev flushed : Bool × S → Result (Unit {0}) × S
  flushed (true, s) = succeeded (conn.flush s)
  flushed (false, s) = (err other, s)

  unfoldable pub publish_ack : Text → Text → Op S (Unit {0})
  publish_ack reply_subject payload s = flushed (conn.publish reply_subject payload s)

  abbrev checked : Result (Unit {0}) → Op S (Unit {0}) → Op S (Unit {0})
  checked (ok _) k = k
  checked (err e) k = fail e

  module _ (b : RawUrl) where
    abbrev pub answered : Text → Text → Option Text → Op S (Unit {0})
    answered queue_name payload none = fail invalid_receipt_handle
    answered queue_name payload (some reply) =
        checked (validate_receipt_queue reply queue_name) (publish_ack reply payload)

    unfoldable pub delete_message : Text → Text → Op S (Unit {0})
    unfolding decode_receipt_handle
    delete_message queue_name receipt_handle =
        if is_empty receipt_handle
        then fail invalid_argument
        else answered queue_name (codes "+ACK") (decode_receipt_handle b receipt_handle)

    unfoldable pub change_message_visibility : Text → Text → ℤ → Op S (Unit {0})
    unfolding decode_receipt_handle nak_payload
    change_message_visibility queue_name receipt_handle visibility_timeout =
        if is_empty receipt_handle
        then fail invalid_argument
        else if ltb_ℤ visibility_timeout (pos 0) || ltb_ℤ (pos 43200) visibility_timeout
        then fail invalid_argument
        else answered queue_name (nak_payload visibility_timeout)
            (decode_receipt_handle b receipt_handle)
