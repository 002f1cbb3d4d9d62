-- ===== src/Postgres/Sending.antt =====
-- What SendMessage of shim/internal/storage/postgres/messages.go leaves in the database.
pub mod Outcome
use dropin_queue.Base.{
  select, leb, ◌==◌, Bool-cases, inl, inr, ℕ, suc, ◌<◌, ◌+◌, ◌≡◌, ◌⊎◌, refl, ap, sym, ◌∙◌, Bool,
  true, false, ◌&&◌, not, Option, none, some, List, [], ◌∷◌, ◌++◌, arith, ℤ, pos, ltb_ℤ, Text,
  text_eq, text_eq_refl, is_empty, lookup, insert, lookup-insert, Map, find, length, format,
  if◌then◌else◌, Bool-cases, Option-cases, inl, inr,
}
use dropin_queue.Types.{Queue, Message}
use dropin_queue.Storage.{Op, Result, Err, ok, err, ◌>>=◌, continue}
use dropin_queue.Postgres.Tables.{
  QueueRow, DedupRow, MessageRow, Tables, Replica, QueueIdent, Lib, Statement, exec, query,
}
use dropin_queue.Postgres.Queues.{
  queue_named, ident, row_queue, get_queue, get_row, cache_queue, resolve_queue, resolve_cached,
}
use dropin_queue.Postgres.Messages.Send.{
  roll_back, commit, transaction, send_tx, deduplicate, Sent, fresh, duplicate, new_message,
  insert_message, answer, trigger, send_checked, send_sized, send_message, group_of, dedup_id_of,
  sent_message, max_size, has_key, free_key, entry, upsert, winner_or_fail,
}
use dropin_queue.Postgres.WellFormed.{IsWellFormed}
use dropin_queue.Postgres.Dedup.Once.{select_others}
use dropin_queue.Postgres.Dedup.Settled.{Settles, deduplicate-Settles}

-- The same rows in every table; the sequences may differ.
pub record SameRows (a b : Tables) : Type 0 where
  pub queues : a.queues ≡ b.queues
  pub messages : a.messages ≡ b.messages
  pub dedup : a.dedup ≡ b.dedup
  pub topics : a.topics ≡ b.topics
  pub subscriptions : a.subscriptions ≡ b.subscriptions

abbrev pub cached : Text → QueueRow → Replica → Replica
cached name q r = record r { queue_cache = insert name (ident q) r.queue_cache }

-- After GetQueue the queue's id is resolved from the cache, as the one just read.
get-resolve :
    (name : Text) (q : QueueRow) (r : Replica)
    → resolve_queue name (cached name q r) ≡ (ok (ident q), cached name q r)
unfolding resolve_queue resolve_cached
get-resolve name q r = rw (lookup-insert name name (ident q) r.queue_cache, text_eq_refl name) refl

-- A transaction that answers an error has left the rows as they were.
pub transaction-rolls :
    {A : Type 0} (m : Op Replica A) (r : Replica) (e : Err)
    → (transaction m r).0 ≡ err e
    → SameRows (transaction m r).1.tables r.tables
unfolding transaction commit
transaction-rolls m r e h = record {
  queues = ground (arith, h);
  messages = ground (arith, h);
  dedup = ground (arith, h);
  topics = ground (arith, h);
  subscriptions = ground (arith, h);
}

commit-ok :
    {A : Type 0} (before : Replica) (x : Result A × Replica) (a : A)
    → (commit before x).0 ≡ ok a
    → (x.0 ≡ ok a) × ((commit before x).1 ≡ x.1)
unfolding commit
commit-ok before (err e, after) a h = absurd (cc h)
commit-ok before (ok b, after) a h = elim (Bool-cases (after.refuses Statement.commit_tx)) [
  | inl c ↦ absurd (cc (rw c at h))
  | inr c ↦ rw c (rw c at h, refl)
]

-- A transaction that succeeds leaves what its body leaves.
transaction-ok :
    {A : Type 0} (m : Op Replica A) (r : Replica) (a : A)
    → (transaction m r).0 ≡ ok a
    → ((m r).0 ≡ ok a) × ((transaction m r).1 ≡ (m r).1)
unfolding transaction
transaction-ok m r a h = elim (Bool-cases (r.refuses Statement.begin_tx)) [
  | inl b ↦ absurd (cc (rw b at h))
  | inr b ↦ rw b (commit-ok r (m r) a (rw b at h))
]

module _ (queue : ℕ) (group body attributes key : Text) (r : Replica) where
  -- What the transaction of SendMessage leaves when it succeeds.
  abbrev pub Leaves : Sent → List MessageRow → Type 0
  Leaves (fresh id at) after =
      (id ≡ r.next_message)
      × (at ≡ r.now)
      × (after ≡ r.messages ++ new_message queue group body attributes r ∷ [])
  Leaves (duplicate winner) after =
      (after ≡ r.messages)
      × (d : DedupRow) × (entry queue key r ≡ some d)
      × (d.message_id ≡ winner)
      × (r.now < d.expires_at)

  abbrev row : MessageRow
  row = new_message queue group body attributes r

  abbrev inserted : Replica
  inserted = record r { tables = insert_message row r }

  settled-Leaves :
      (s : Sent) (after : List MessageRow)
      → IsWellFormed r.tables
      → Settles queue key inserted row s after
      → Leaves s after
  settled-Leaves (fresh id at) after w h = h
  settled-Leaves (duplicate winner) after w (h, d, e, k, l) =
      (h ∙ select_others r.next_message r.messages row w.message_ids refl, d, e, k, l)

  plain-Leaves :
      (s : Sent) → ok (fresh row.id row.enqueued_at) ≡ ok s → Leaves s (r.messages ++ row ∷ [])
  plain-Leaves (fresh id at) h = ground (arith, h)
  plain-Leaves (duplicate winner) h = absurd (cc h)

  send_tx-Leaves :
      (s : Sent)
      → IsWellFormed r.tables
      → (send_tx queue group body attributes key r).0 ≡ ok s
      → Leaves s (send_tx queue group body attributes key r).1.messages
  unfolding send_tx exec
  send_tx-Leaves s w h = elim (Bool-cases (r.refuses Statement.insert_message)) [
    | inl i ↦ absurd (cc (rw i at h))
    | inr i ↦ elim (Bool-cases (is_empty key)) [
      | inl n ↦ rw (i, n) (plain-Leaves s (rw (i, n) at h))
      | inr n ↦
          rw (i, n)
            (settled-Leaves s _ w (deduplicate-Settles queue key inserted row s (rw (i, n) at h)))
    ]
  ]

  pub tx-Leaves :
      (s : Sent)
      → IsWellFormed r.tables
      → (transaction (send_tx queue group body attributes key) r).0 ≡ ok s
      → Leaves s (transaction (send_tx queue group body attributes key) r).1.messages
  tx-Leaves s w h =
      let (done, same) = transaction-ok (send_tx queue group body attributes key) r s h in
      rw same (send_tx-Leaves s w done)

module _ (lib : Lib) (name : Text) (msg : Message) where
  -- The transaction that a SendMessage to the queue of a row comes to.
  abbrev pub tx : QueueRow → Replica → Result Sent × Replica
  tx q = transaction (
      send_tx q.id (group_of (row_queue lib name q) msg) msg.body
        (lib.marshal_attributes msg.message_attributes)
        (dedup_id_of lib (row_queue lib name q) msg))

  pub checked-tx :
      (q : QueueRow) (r : Replica)
      → send_checked lib name (row_queue lib name q) msg (cached name q r)
        ≡ continue (tx q (cached name q r)).0 (answer lib name msg) (tx q (cached name q r)).1
  unfolding send_checked
  checked-tx q r = rw (get-resolve name q r) refl
