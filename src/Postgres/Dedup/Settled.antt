-- ===== src/Postgres/Dedup/Settled.antt =====
-- The statements of SendMessage for a deduplication id, shim/internal/storage/postgres/messages.go.
use dropin_queue.Base.{
  select, leb, ◌==◌, Bool-cases, inl, inr, ℕ, ◌<◌, ◌≡◌, refl, false, not, Option, none, some, List,
  arith, Text, Bool-cases, inl, inr,
}
use dropin_queue.Storage.{Result, ok}
use dropin_queue.Postgres.Tables.{DedupRow, MessageRow, Replica, Statement, exec, query}
use dropin_queue.Postgres.Messages.Send.{deduplicate, Sent, fresh, duplicate, entry}

module _ (queue : ℕ) (key : Text) (r : Replica) where
  -- What the statements for a deduplication id leave when they succeed, once the message `m` has been
  -- inserted.
  abbrev pub Settles : MessageRow → Sent → List MessageRow → Type 0
  Settles m (fresh id at) after = (id ≡ m.id) × (at ≡ m.enqueued_at) × (after ≡ r.messages)
  Settles m (duplicate winner) after =
      (after ≡ select (λ row. not (row.id == m.id)) r.messages)
      × (d : DedupRow) × (entry queue key r ≡ some d)
      × (d.message_id ≡ winner)
      × (r.now < d.expires_at)

  fresh-Settles :
      (m : MessageRow) (s : Sent) (x : Result Sent × Replica)
      → x.0 ≡ ok (fresh m.id m.enqueued_at)
      → x.1.messages ≡ r.messages
      → x.0 ≡ ok s
      → Settles m s x.1.messages
  fresh-Settles m (fresh id at) x e l h = ground (arith, e, l, h)
  fresh-Settles m (duplicate winner) x e l h = absurd (ground (arith, e, h))

  duplicate-Settles :
      (m : MessageRow) (d : DedupRow) (s : Sent) (x : Result Sent × Replica)
      → entry queue key r ≡ some d
      → r.now < d.expires_at
      → x.0 ≡ ok (duplicate d.message_id)
      → x.1.messages ≡ select (λ row. not (row.id == m.id)) r.messages
      → x.0 ≡ ok s
      → Settles m s x.1.messages
  duplicate-Settles m d (fresh id at) x f l e k h = absurd (ground (arith, e, h))
  duplicate-Settles m d (duplicate winner) x f l e k h = (k, d, f, ground (arith, e, h), l)

  taken-Settles :
      (m : MessageRow) (d : DedupRow) (s : Sent)
      → r.refuses Statement.upsert_dedup ≡ false
      → entry queue key r ≡ some d
      → leb d.expires_at r.now ≡ false
      → (deduplicate queue key m r).0 ≡ ok s
      → Settles m s (deduplicate queue key m r).1.messages
  unfolding deduplicate exec query
  taken-Settles m d s u e f h = elim (Bool-cases (r.refuses Statement.delete_speculative)) [
    | inl v ↦ absurd (cc (rw (u, e, f, v) at h))
    | inr v ↦ elim (Bool-cases (r.refuses Statement.select_winner)) [
      | inl w ↦ absurd (cc (rw (u, e, f, v, w) at h))
      | inr w ↦
          duplicate-Settles m d s (deduplicate queue key m r) e (ground (arith, f))
            (rw (u, e, f, v, w, e) refl) (rw (u, e, f, v, w, e) refl) h
    ]
  ]

  entry-Settles :
      (m : MessageRow) (o : Option DedupRow) (s : Sent)
      → r.refuses Statement.upsert_dedup ≡ false
      → entry queue key r ≡ o
      → (deduplicate queue key m r).0 ≡ ok s
      → Settles m s (deduplicate queue key m r).1.messages
  unfolding deduplicate exec
  entry-Settles m none s u e h =
      fresh-Settles m s (deduplicate queue key m r) (rw (u, e) refl) (rw (u, e) refl) h
  entry-Settles m (some d) s u e h = elim (Bool-cases (leb d.expires_at r.now)) [
    | inl old ↦
        fresh-Settles m s (deduplicate queue key m r) (rw (u, e, old) refl) (rw (u, e, old) refl) h
    | inr young ↦ taken-Settles m d s u e young h
  ]

  pub deduplicate-Settles :
      (m : MessageRow) (s : Sent)
      → (deduplicate queue key m r).0 ≡ ok s
      → Settles m s (deduplicate queue key m r).1.messages
  unfolding deduplicate exec
  deduplicate-Settles m s h = elim (Bool-cases (r.refuses Statement.upsert_dedup)) [
    | inl u ↦ absurd (cc (rw u at h))
    | inr u ↦ entry-Settles m _ s u refl h
  ]
