-- ===== src/Nats/Receipts/Acked.antt =====
-- Which message DeleteMessage and ChangeMessageVisibility of shim/internal/storage/nats/messages.go
-- answer for a receipt handle, and for which queues.
use dropin_queue.Base.{
  ◌≡◌, ◌≤◌, refl, ap, ◌∙◌, some, List, [], ◌∷◌, ◌++◌, map, ◌≢◌, All-take, length, All, arith, true,
  false, ltb_ℤ, ◌||◌, ℤ, pos, Text, codes, text_eq, has_prefix, is_empty, Without, Bool,
  text_eq_refl, text_eq→eq, Bool-cases, inl, inr,
}
use dropin_queue.Storage.{Err, Result, ok, err, invalid_receipt_handle}
use dropin_queue.Protocol.Arn.{split, split-none, split-append}
use dropin_queue.Nats.Names.{queue_stream_name, sanitize_stream_name, stream_byte}
use dropin_queue.Nats.Receipts.{
  RawUrl, Conn, encode_receipt_handle, decode_receipt_handle, validate_receipt_queue, of_tokens,
  of_stream, publish_ack, delete_message, change_message_visibility, nak_payload, answered,
}

pub text_eq_apart : (a b : Text) → a ≢ b → text_eq a b ≡ false
text_eq_apart a b differs = elim (Bool-cases (text_eq a b)) [
  | inl same ↦ absurd (differs (text_eq→eq a b same))
  | inr other ↦ other
]

-- strings.Join(tokens, ".")
unfoldable pub dotted : List Text → Text
dotted [] = []
dotted (t ∷ []) = t
dotted (t ∷ u ∷ ts) = t ++ b'.' ∷ dotted (u ∷ ts)

split-dotted :
    (t : Text) (ts : List Text)
    → All (Without b'.') (t ∷ ts)
    → split b'.' (dotted (t ∷ ts)) ≡ t ∷ ts
unfolding dotted
split-dotted t [] h = split-none b'.' t h.0
split-dotted t (u ∷ ts) h =
    split-append b'.' t (dotted (u ∷ ts)) h.0 ∙ ap (λ us. t ∷ us) (split-dotted u ts h.1)

-- What follows "$JS.ACK" in the reply subject of a message of a stream: JetStream's first format,
-- with the consumer and five more tokens behind the stream, and its second, which has the domain and
-- the account before it and at least one token more. No token has a dot.
pub data Reply (stream : Text) : List Text → Type 0 where
  v1 :
      (consumer : Text) (rest : List Text)
      → length rest ≡ 5
      → All (Without b'.') (consumer ∷ rest)
      → Reply stream (stream ∷ consumer ∷ rest)
  v2 :
      (domain account consumer : Text) (rest : List Text)
      → 6 ≤ length rest
      → All (Without b'.') (domain ∷ account ∷ consumer ∷ rest)
      → Reply stream (domain ∷ account ∷ stream ∷ consumer ∷ rest)

abbrev pub reply_subject : List Text → Text
reply_subject tokens = dotted (codes "$JS" ∷ codes "ACK" ∷ tokens)

stream_byte-plain : (s : Text) → Without b'.' (map stream_byte s)
stream_byte-plain [] = tt
stream_byte-plain (c ∷ s) = (ground arith, stream_byte-plain s)

stream-Without : (queue : Text) → Without b'.' (queue_stream_name queue)
unfolding queue_stream_name sanitize_stream_name
stream-Without queue =
    let plain = All-take (λ c. c ≢ b'.') 200 (map stream_byte queue) (stream_byte-plain queue) in
    ground (arith, plain)

of-Reply :
    (stream expected : Text) (tokens : List Text)
    → Reply stream tokens
    → of_tokens (codes "$JS" ∷ codes "ACK" ∷ tokens) expected ≡ of_stream stream expected
of-Reply stream expected tokens (v1 consumer rest five plain) = ground (arith, five)
of-Reply stream expected tokens (v2 domain account consumer rest six plain) = ground (arith, six)

Reply-plain :
    (stream : Text) (tokens : List Text)
    → Without b'.' stream
    → Reply stream tokens
    → All (Without b'.') (codes "$JS" ∷ codes "ACK" ∷ tokens)
Reply-plain stream tokens w (v1 consumer rest five plain) =
    (ground arith, (ground arith, (w, plain)))
Reply-plain stream tokens w (v2 domain account consumer rest six plain) =
    (ground arith, (ground arith, (plain.0, (plain.1.0, (w, plain.1.1)))))

Reply-prefix :
    (stream : Text) (tokens : List Text)
    → Reply stream tokens
    → has_prefix (codes "$JS.ACK.") (reply_subject tokens) ≡ true
unfolding dotted has_prefix
Reply-prefix stream tokens (v1 consumer rest five plain) = refl
Reply-prefix stream tokens (v2 domain account consumer rest six plain) = refl

validate_receipt_queue-Reply :
    (owner queue : Text) (tokens : List Text)
    → Reply (queue_stream_name owner) tokens
    → validate_receipt_queue (reply_subject tokens) queue
      ≡ of_stream (queue_stream_name owner) (queue_stream_name queue)
unfolding validate_receipt_queue
validate_receipt_queue-Reply owner queue tokens h =
    ap (λ ts. of_tokens ts (queue_stream_name queue))
      (split-dotted (codes "$JS") (codes "ACK" ∷ tokens)
        (Reply-plain (queue_stream_name owner) tokens (stream-Without owner) h))
    ∙ of-Reply (queue_stream_name owner) (queue_stream_name queue) tokens h

-- What the connection does for messages that are in flight, whose acknowledgement the broker waits
-- for: it takes "+ACK" on a message's reply subject and ends the flight of that message and of no
-- other, and a flush changes none.
pub record IsAcking {S : Type 0} (conn : Conn S) (in_flight : S → Text → Bool) : Type 0 where
  pub taken :
      (reply : Text) (s : S)
      → in_flight s reply ≡ true
      → (conn.publish reply (codes "+ACK") s).0 ≡ true
  pub ended :
      (reply : Text) (s : S)
      → in_flight s reply ≡ true
      → in_flight (conn.publish reply (codes "+ACK") s).1 reply ≡ false
  pub others :
      (reply other : Text) (s : S)
      → in_flight s reply ≡ true
      → other ≢ reply
      → in_flight (conn.publish reply (codes "+ACK") s).1 other ≡ in_flight s other
  pub flushes : (s : S) → (conn.flush s).0 ≡ true
  pub kept : (s : S) (reply : Text) → in_flight (conn.flush s).1 reply ≡ in_flight s reply

-- A call that failed without calling the broker.
abbrev pub IsRefused : {S : Type 0} → S → Result (Unit {0}) × S → Type 0
IsRefused s out = (e : Err) × (out ≡ (err e, s))

publish_ack-lands :
    {S : Type 0} (conn : Conn S) (reply : Text) (s : S)
    → (conn.publish reply (codes "+ACK") s).0 ≡ true
    → (conn.flush (conn.publish reply (codes "+ACK") s).1).0 ≡ true
    → publish_ack conn reply (codes "+ACK") s
      ≡ (ok tt, (conn.flush (conn.publish reply (codes "+ACK") s).1).1)
unfolding publish_ack
publish_ack-lands conn reply s taken flushed = rw (publish_ack, taken, flushed) refl

module _ {S : Type 0} (b : RawUrl) (conn : Conn S)
    (b-round_trip : (t : Text) → b.decode_string (b.encode_to_string t) ≡ some t) (owner : Text)
    (tokens : List Text) (h : Reply (queue_stream_name owner) tokens) where
  abbrev handle : Text
  handle = encode_receipt_handle b (reply_subject tokens)

  decode-encode : decode_receipt_handle b handle ≡ some (reply_subject tokens)
  unfolding decode_receipt_handle encode_receipt_handle has_prefix
  decode-encode =
      rw (b-round_trip (reply_subject tokens), Reply-prefix (queue_stream_name owner) tokens h) refl

  handle_given : is_empty handle ≡ false
  unfolding encode_receipt_handle
  handle_given = refl

  own-deletes :
      (s : S)
      → delete_message conn b owner handle s
        ≡ publish_ack conn (reply_subject tokens) (codes "+ACK") s
  unfolding delete_message
  own-deletes s =
      rw
        (
          handle_given,
          decode-encode,
          validate_receipt_queue-Reply owner owner tokens h,
          text_eq_refl (queue_stream_name owner),
        )
        refl

  own-changes :
      (timeout : ℤ) (s : S)
      → ltb_ℤ timeout (pos 0) || ltb_ℤ (pos 43200) timeout ≡ false
      → change_message_visibility conn b owner handle timeout s
        ≡ publish_ack conn (reply_subject tokens) (nak_payload timeout) s
  unfolding change_message_visibility
  own-changes timeout s range =
      rw
        (
          handle_given,
          range,
          decode-encode,
          validate_receipt_queue-Reply owner owner tokens h,
          text_eq_refl (queue_stream_name owner),
        )
        refl

  foreign-refused :
      (queue payload : Text) (s : S)
      → queue_stream_name owner ≢ queue_stream_name queue
      → answered conn b queue payload (some (reply_subject tokens)) s
        ≡ (err invalid_receipt_handle, s)
  foreign-refused queue payload s differs =
      rw
        (
          validate_receipt_queue-Reply owner queue tokens h,
          text_eq_apart (queue_stream_name owner) (queue_stream_name queue) differs,
        )
        refl

  module _ (in_flight : S → Text → Bool) (acks : IsAcking conn in_flight) (s : S)
      (flies : in_flight s (reply_subject tokens) ≡ true) where
    abbrev sent : S
    sent = (conn.publish (reply_subject tokens) (codes "+ACK") s).1

    own-lands : delete_message conn b owner handle s ≡ (ok tt, (conn.flush sent).1)
    own-lands =
        own-deletes s
        ∙ publish_ack-lands conn (reply_subject tokens) s
            (acks.taken (reply_subject tokens) s flies) (acks.flushes sent)

    -- A message that is in flight, and its handle. Base64 decodes what it encodes, and the broker
    -- acknowledges messages in flight. DeleteMessage with the queue of the message succeeds and ends
    -- the flight of this message, and the flight of no other message changes.
    -- ChangeMessageVisibility with that queue and a timeout in range sends the message's own reply
    -- subject a negative acknowledgement with that delay. Either call with a queue that has another
    -- stream fails with an error and does not call the broker.
    pub handle-acknowledges :
        (timeout : ℤ) (other queue : Text)
        → ltb_ℤ timeout (pos 0) || ltb_ℤ (pos 43200) timeout ≡ false
        → other ≢ reply_subject tokens
        → queue_stream_name owner ≢ queue_stream_name queue
        → ((delete_message conn b owner handle s).0 ≡ ok tt)
          × (in_flight (delete_message conn b owner handle s).1 (reply_subject tokens) ≡ false)
          × (in_flight (delete_message conn b owner handle s).1 other ≡ in_flight s other)
          × (change_message_visibility conn b owner handle timeout s
              ≡ publish_ack conn (reply_subject tokens) (nak_payload timeout) s)
          × IsRefused s (delete_message conn b queue handle s)
          × IsRefused s (change_message_visibility conn b queue handle timeout s)
    unfolding delete_message change_message_visibility
    handle-acknowledges timeout other queue range differs foreign = (
      ap (λ o. o.0) own-lands,
      ap (λ o. in_flight o.1 (reply_subject tokens)) own-lands
          ∙ acks.kept sent (reply_subject tokens)
          ∙ acks.ended (reply_subject tokens) s flies,
      ap (λ o. in_flight o.1 other) own-lands
          ∙ acks.kept sent other
          ∙ acks.others (reply_subject tokens) other s flies differs,
      own-changes timeout s range,
      (
        invalid_receipt_handle,
        rw (handle_given, decode-encode) (foreign-refused queue (codes "+ACK") s foreign),
      ),
      (
        invalid_receipt_handle,
        rw (handle_given, range, decode-encode)
            (foreign-refused queue (nak_payload timeout) s foreign),
      ),
    )
