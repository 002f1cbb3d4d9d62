-- ===== src/Postgres/Messages.antt =====
-- The message operations of shim/internal/storage/postgres/messages.go but ReceiveMessage's wait,
-- which LongPoll models. Send has SendMessage, Claim has claim, and the rest is here.
pub mod Send
pub mod Claim
use dropin_queue.Base.{
  ℕ, ◌==◌, Bool, true, false, ◌&&◌, ◌||◌, not, Option, none, some, List, [], ◌∷◌, map, ℤ, pos,
  ltb_ℤ, Text, is_empty, if◌then◌else◌, select, length, eq_ℤ,
}
use dropin_queue.Storage.{
  Op, ok, err, invalid_argument, invalid_receipt_handle, other, pure, fail, ◌>>=◌, ◌>>◌,
}
use dropin_queue.Postgres.Tables.{
  MessageRow, Tables, QueueIdent, Replica, Lib, Statement, exec, query, after_secs,
}
use dropin_queue.Postgres.Receipts.{decode_receipt_handle}
use dropin_queue.Postgres.Queues.{resolve_queue}

abbrev pub token_is : Option ℕ → ℕ → Bool
token_is none u = false
token_is (some t) u = t == u

-- WHERE id = $1 AND claim_token = $2::uuid AND queue_id = $3
abbrev pub claimed_by : ℤ → ℕ → ℕ → MessageRow → Bool
claimed_by id uuid queue m =
    eq_ℤ (pos m.id) id && (token_is m.claim_token uuid && (m.queue_id == queue))

abbrev pub handle_or_fail : Option (ℤ × Text) → Op Replica (ℤ × Text)
handle_or_fail none = fail invalid_receipt_handle
handle_or_fail (some h) = pure h

-- The cast to uuid fails the statement.
abbrev pub uuid_or_fail : Option ℕ → Op Replica ℕ
uuid_or_fail none = fail other
uuid_or_fail (some u) = pure u

-- SET visible_at = ... WHERE id = $1 AND claim_token = $2::uuid AND queue_id = $3
abbrev pub shown : ℤ → ℕ → ℕ → ℕ → List MessageRow → List MessageRow
shown id uuid queue t ms =
    map (λ m. if claimed_by id uuid queue m then record m { visible_at = t } else m) ms

module _ (lib : Lib) where
  unfoldable pub delete_message : Text → Text → Op Replica (Unit {0})
  unfolding exec resolve_queue decode_receipt_handle
  delete_message name handle = if is_empty handle then fail invalid_argument else do
    h ← handle_or_fail (decode_receipt_handle handle)
    q ← resolve_queue name
    uuid ← uuid_or_fail (lib.parse_uuid h.1)
    exec Statement.delete_message (λ r. tt)
        (λ r. record r.tables {
          messages = select (λ m. not (claimed_by h.0 uuid q.id m)) r.messages;
        })

  unfoldable pub change_message_visibility : Text → Text → ℤ → Op Replica (Unit {0})
  unfolding exec resolve_queue decode_receipt_handle after_secs
  change_message_visibility name handle timeout =
      if is_empty handle
      then fail invalid_argument
      else if ltb_ℤ timeout (pos 0) || ltb_ℤ (pos 43200) timeout
      then fail invalid_argument
      else do
        h ← handle_or_fail (decode_receipt_handle handle)
        q ← resolve_queue name
        uuid ← uuid_or_fail (lib.parse_uuid h.1)
        exec Statement.update_visibility (λ r. tt)
            (λ r. record r.tables {
              messages = shown h.0 uuid q.id (after_secs r.now timeout) r.messages;
            })

-- SELECT count(*) FROM messages WHERE queue_id = $1
abbrev pub depth : ℕ → List MessageRow → ℕ
depth queue ms = length (select (λ m. m.queue_id == queue) ms)

unfoldable pub queue_depth : Text → Op Replica ℕ
unfolding query resolve_queue
queue_depth name = do
  q ← resolve_queue name
  query Statement.count_messages (λ r. depth q.id r.messages)
