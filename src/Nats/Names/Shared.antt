-- ===== src/Nats/Names/Shared.antt =====
-- Which queues share a stream of the NATS backend: queueStreamName of
-- shim/internal/storage/nats/client.go on the names that isValidQueueName of
-- shim/internal/sqs/service.go accepts.
use dropin_queue.Base.{
  ℕ, ◌==◌, ◌≡◌, ◌↔◌, refl, ap, sym, ◌∙◌, true, [], ◌∷◌, ◌++◌, map, length, take_all, drop, all,
  arith, Text, codes, if◌then◌else◌,
}
use dropin_queue.Sqs.Validation.{is_name_byte, is_valid_queue_name, valid-name}
use dropin_queue.Nats.Names.{stream_byte, sanitize_stream_name, queue_stream_name}

-- A name with each dot read as an underscore.
abbrev pub undotted : Text → Text
undotted name = map (λ c. if c == b'.' then b'_' else c) name

length-map : (f : ℕ → ℕ) (s : Text) → length (map f s) ≡ length s
length-map f [] = refl
length-map f (c ∷ s) = omega (arith, length-map f s)

bytes-undotted : (s : Text) → all is_name_byte s ≡ true → map stream_byte s ≡ undotted s
bytes-undotted [] h = refl
bytes-undotted (c ∷ s) h = ground (arith, h, bytes-undotted s)

sanitized :
    (name : Text) → is_valid_queue_name name ≡ true → sanitize_stream_name name ≡ undotted name
unfolding sanitize_stream_name
sanitized name h =
    let (bytes, _, short) = valid-name name h in
    take_all 200 (map stream_byte name) (omega (arith, length-map stream_byte name))
    ∙ bytes-undotted name bytes

-- Two names that CreateQueue accepts get the same stream exactly if they are the same once each dot
-- is read as an underscore.
pub stream_name_iff :
    (a b : Text)
    → is_valid_queue_name a ≡ true
    → is_valid_queue_name b ≡ true
    → (queue_stream_name a ≡ queue_stream_name b) ↔ (undotted a ≡ undotted b)
unfolding queue_stream_name
stream_name_iff a b ha hb = (
  λ e. sym (sanitized a ha) ∙ ap (drop 6) e ∙ sanitized b hb,
  λ e. ap (λ s. codes "queue-" ++ s) (sanitized a ha ∙ e ∙ sym (sanitized b hb)),
)
