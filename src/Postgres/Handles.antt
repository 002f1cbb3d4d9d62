-- ===== src/Postgres/Handles.antt =====
-- Receipt handles in DeleteMessage and ChangeMessageVisibility of
-- shim/internal/storage/postgres/messages.go.
use dropin_queue.Base.{
  ℕ, ◌<◌, ◌^◌, ◌==◌, ◌≡◌, ◌≢◌, refl, ◌∙◌, Bool, false, ◌&&◌, not, some, List, [], ◌∷◌, arith, ℤ,
  pos, select, map, All, Text, is_empty, if◌then◌else◌, Bool-cases, Option-cases, lookup, inl, inr,
}
use dropin_queue.Storage.{ok}
use dropin_queue.Postgres.Tables.{
  MessageRow, QueueIdent, Replica, Lib, Statement, exec, query, after_secs,
}
use dropin_queue.Postgres.Receipts.{encode_receipt_handle, decode_receipt_handle, decode-encode}
use dropin_queue.Postgres.Queues.{
  resolve_queue, resolve_cached, resolve_row, cache_queue, queue_named,
}
use dropin_queue.Postgres.Messages.{token_is, delete_message, change_message_visibility}

-- The database reads back the text that it gives for a UUID, which is not empty.
pub record UuidLaws (lib : Lib) : Type 0 where
  pub read_back : (u : ℕ) → lib.parse_uuid (lib.uuid_text u) ≡ some u
  pub given : (u : ℕ) → lib.uuid_text u ≢ []

-- The row that a claim gave the token `u`, in its queue.
abbrev pub holds : ℕ → ℕ → QueueIdent → MessageRow → Bool
holds id u q m = (m.id == id) && (token_is m.claim_token u && (m.queue_id == q.id))

encode_given : (id : ℕ) (token : Text) → is_empty (encode_receipt_handle id token) ≡ false
unfolding encode_receipt_handle
encode_given id token = refl

-- The lookup of a queue's id changes only the cache.
resolve-leaves :
    (name : Text) (r : Replica)
    → ((resolve_queue name r).1.messages ≡ r.messages) × ((resolve_queue name r).1.now ≡ r.now)
unfolding resolve_queue resolve_cached resolve_row cache_queue query
resolve-leaves name r = elim (Option-cases (lookup name r.queue_cache)) [
  | inr (q, e) ↦ rw e (refl, refl)
  | inl e ↦ elim (Bool-cases (r.refuses Statement.resolve_queue)) [
    | inl refused ↦ rw (e, refused) (refl, refl)
    | inr asked ↦ elim (Option-cases (queue_named name r.tables)) [
      | inl none_found ↦ rw (e, asked, none_found) (refl, refl)
      | inr (q, found) ↦ rw (e, asked, found) (refl, refl)
    ]
  ]
]

-- Every row of the message has another token.
abbrev pub IsStale : ℕ → ℕ → MessageRow → Type 0
IsStale id u m = m.id ≡ id → token_is m.claim_token u ≡ false

select-stale :
    (id u : ℕ) (q : QueueIdent) (ms : List MessageRow)
    → All (IsStale id u) ms
    → select (λ m. not (holds id u q m)) ms ≡ ms
select-stale id u q [] h = refl
select-stale id u q (m ∷ ms) h = ground (arith, h, select-stale id u q ms)

module _ (lib : Lib) (laws : UuidLaws lib) (name : Text) (id u : ℕ) (fits : id < 2 ^ 63)
    (r : Replica) where
  abbrev handle : Text
  handle = encode_receipt_handle id (lib.uuid_text u)

  decoded : decode_receipt_handle handle ≡ some (pos id, lib.uuid_text u)
  decoded = decode-encode id (lib.uuid_text u) fits (laws.given u)

  -- A DeleteMessage that succeeds with the handle of a claim has deleted the row of that message in
  -- that queue if its token is still the one of that claim, and no other row.
  pub delete-handle :
      (q : QueueIdent)
      → (resolve_queue name r).0 ≡ ok q
      → (delete_message lib name handle r).0 ≡ ok tt
      → (delete_message lib name handle r).1.messages
        ≡ select (λ m. not (holds id u q m)) r.messages
  unfolding delete_message exec
  delete-handle q e h = ground (
    arith,
    e,
    h,
    encode_given id (lib.uuid_text u),
    decoded,
    laws.read_back u,
    resolve-leaves name r,
  )

  -- A DeleteMessage that succeeds with the handle of a claim that a later one has replaced deletes
  -- nothing.
  pub delete-stale :
      (q : QueueIdent)
      → (resolve_queue name r).0 ≡ ok q
      → (delete_message lib name handle r).0 ≡ ok tt
      → All (IsStale id u) r.messages
      → (delete_message lib name handle r).1.messages ≡ r.messages
  delete-stale q e h stale = delete-handle q e h ∙ select-stale id u q r.messages stale

  -- A ChangeMessageVisibility that succeeds with the handle of a claim has moved the time at which
  -- that message shows to the timeout from now, if its token is still the one of that claim, and has
  -- changed nothing else of any row.
  pub change-handle :
      (q : QueueIdent) (timeout : ℤ)
      → (resolve_queue name r).0 ≡ ok q
      → (change_message_visibility lib name handle timeout r).0 ≡ ok tt
      → (change_message_visibility lib name handle timeout r).1.messages
        ≡ map
            (λ m. if holds id u q m then record m { visible_at = after_secs r.now timeout } else m)
            r.messages
  unfolding change_message_visibility exec
  change-handle q timeout e h = ground (
    arith,
    e,
    h,
    encode_given id (lib.uuid_text u),
    decoded,
    laws.read_back u,
    resolve-leaves name r,
  )
