-- ===== src/Postgres/Dedup/Expired.antt =====
-- The removal of expired deduplication entries by reapOnce, shim/internal/storage/postgres/client.go,
-- does not show in what SendMessage does.
use dropin_queue.Base.{
  ℕ, ◌==◌, ◌≡◌, ◌⊎◌, ==_iff, and-eq-true, refl, Bool, true, false, not, Option, none, some, List,
  [], ◌∷◌, arith, select, find, All, Pairwise, Text, text_eq, text_eq_iff, is_empty, leb, ltb,
  Bool-cases, inl, inr,
}
use dropin_queue.Storage.{Result, ok, err}
use dropin_queue.Postgres.Tables.{DedupRow, MessageRow, Replica, Statement, exec, query}
use dropin_queue.Postgres.Messages.Send.{
  has_key, free_key, entry, send_tx, transaction, commit, deduplicate, new_message, insert_message,
}
use dropin_queue.Postgres.Reaper.{reap_dedup}
use dropin_queue.Postgres.WellFormed.{IsWellFormed, KeysDiffer}

find-select-none :
    {A : Type 0} (p keep : A → Bool) (xs : List A)
    → All (λ x. p x ≡ false) xs
    → find p (select keep xs) ≡ none
find-select-none p keep [] h = refl
find-select-none p keep (x ∷ xs) h = ground (arith, h, find-select-none p keep xs)

same_key :
    (queue : ℕ) (key : Text) (d : DedupRow) (ds : List DedupRow)
    → has_key queue key d ≡ true
    → All (KeysDiffer d) ds
    → All (λ e. has_key queue key e ≡ false) ds
same_key queue key d ds e h =
    let (qe, ke) = and-eq-true (d.queue_id == queue) (text_eq d.dedup_id key) e in
    rw (← (==_iff d.queue_id queue).0 qe, ← (text_eq_iff d.dedup_id key).0 ke) h

-- Removing the expired entries leaves a key its entry, or frees a key that was free.
reaped-entry :
    (now queue : ℕ) (key : Text) (ds : List DedupRow)
    → Pairwise KeysDiffer ds
    → (find (has_key queue key) (select (λ d. not (ltb d.expires_at now)) ds)
        ≡ find (has_key queue key) ds)
      ⊎ (free_key now (find (has_key queue key) ds) ≡ true)
        × (find (has_key queue key) (select (λ d. not (ltb d.expires_at now)) ds) ≡ none)
reaped-entry now queue key [] h = inl refl
reaped-entry now queue key (d ∷ ds) h = elim (Bool-cases (has_key queue key d)) [
  | inl same ↦ ground (
    arith,
    same,
    find-select-none (has_key queue key) (λ e. not (ltb e.expires_at now)) ds
        (same_key queue key d ds same h.0),
  )
  | inr other ↦ ground (arith, other, reaped-entry now queue key ds h.1)
]

-- Two outcomes that differ in the tables but not in the messages.
abbrev Alike : {A : Type 0} → Result A × Replica → Result A × Replica → Type 0
Alike a b = (a.0 ≡ b.0) × (a.1.messages ≡ b.1.messages) × (a.1.refuses ≡ b.1.refuses)

commit-Alike :
    {A : Type 0} (before1 before2 : Replica) (a b : Result A × Replica)
    → Alike a b
    → before1.messages ≡ before2.messages
    → ((commit before1 a).0 ≡ (commit before2 b).0)
      × ((commit before1 a).1.messages ≡ (commit before2 b).1.messages)
unfolding commit
commit-Alike before1 before2 (ok a, s) (ok b, t) h e = ground (arith, h, e)
commit-Alike before1 before2 (ok a, s) (err b, t) h e = ground (arith, h)
commit-Alike before1 before2 (err a, s) (ok b, t) h e = ground (arith, h)
commit-Alike before1 before2 (err a, s) (err b, t) h e = ground (arith, h, e)

deduplicate-Alike :
    (queue : ℕ) (key : Text) (m : MessageRow) (d : DedupRow) (r : Replica) (ds : List DedupRow)
    → find (has_key queue key) r.dedup ≡ some d
    → find (has_key queue key) ds ≡ some d
    → leb d.expires_at r.now ≡ false
    → Alike
        (deduplicate queue key m (record r { tables = record r.tables { dedup = ds } }))
        (deduplicate queue key m r)
unfolding deduplicate exec query
deduplicate-Alike queue key m d r ds e f l = elim (Bool-cases (r.refuses Statement.upsert_dedup)) [
  | inl u ↦ rw u (refl, refl, refl)
  | inr u ↦ elim (Bool-cases (r.refuses Statement.delete_speculative)) [
    | inl v ↦ rw (u, e, f, l, v) (refl, refl, refl)
    | inr v ↦ elim (Bool-cases (r.refuses Statement.select_winner)) [
      | inl w ↦ rw (u, e, f, l, v, w) (refl, refl, refl)
      | inr w ↦ rw (u, e, f, l, v, w, e, f) (refl, refl, refl)
    ]
  ]
]

module _ (queue : ℕ) (group body attributes key : Text) (r : Replica) (ds : List DedupRow) where
  abbrev with_dedup : Replica
  with_dedup = record r { tables = record r.tables { dedup = ds } }

  abbrev SameSend : Type 0
  SameSend =
      ((transaction (send_tx queue group body attributes key) with_dedup).0
        ≡ (transaction (send_tx queue group body attributes key) r).0)
      × ((transaction (send_tx queue group body attributes key) with_dedup).1.messages
          ≡ (transaction (send_tx queue group body attributes key) r).1.messages)

  both-free :
      free_key r.now (entry queue key r) ≡ true
      → free_key r.now (entry queue key with_dedup) ≡ true
      → SameSend
  unfolding transaction commit send_tx deduplicate exec query
  both-free f g = ground (arith, f, g)

  abbrev row : MessageRow
  row = new_message queue group body attributes r

  abbrev inserted : Replica
  inserted = record r { tables = insert_message row r }

  both-taken :
      (d : DedupRow)
      → entry queue key r ≡ some d
      → entry queue key with_dedup ≡ some d
      → leb d.expires_at r.now ≡ false
      → SameSend
  unfolding transaction send_tx exec
  both-taken d e f l = elim (Bool-cases (r.refuses Statement.begin_tx)) [
    | inl b ↦ rw b (refl, refl)
    | inr b ↦ elim (Bool-cases (r.refuses Statement.insert_message)) [
      | inl i ↦ ground (arith, b, i)
      | inr i ↦ elim (Bool-cases (is_empty key)) [
        | inl n ↦ ground (arith, b, i, n)
        | inr n ↦
            rw (b, i, n)
              (commit-Alike with_dedup r
                (deduplicate queue key row
                  (record inserted { tables = record inserted.tables { dedup = ds } }))
                (deduplicate queue key row inserted)
                (deduplicate-Alike queue key row d inserted ds e f l) refl)
      ]
    ]
  ]

  same-entry :
      (o : Option DedupRow) → entry queue key r ≡ o → entry queue key with_dedup ≡ o → SameSend
  same-entry none e f = both-free (rw e refl) (rw f refl)
  same-entry (some d) e f = elim (Bool-cases (leb d.expires_at r.now)) [
    | inl old ↦ both-free (rw e old) (rw f old)
    | inr young ↦ both-taken d e f young
  ]

  same-send :
      (entry queue key with_dedup ≡ entry queue key r)
        ⊎ (free_key r.now (entry queue key r) ≡ true) × (entry queue key with_dedup ≡ none)
      → SameSend
  same-send (inl e) = same-entry _ refl e
  same-send (inr (f, e)) = both-free f (rw e refl)

-- What the transaction of SendMessage answers, and the messages that it leaves, are the same
-- whether the expired deduplication entries have been removed before it or not.
pub reap-send :
    (queue : ℕ) (group body attributes key : Text) (r : Replica)
    → IsWellFormed r.tables
    → let sent = transaction (send_tx queue group body attributes key) r in
      let reaped = transaction (send_tx queue group body attributes key) (reap_dedup r).1 in
      (reaped.0 ≡ sent.0) × (reaped.1.messages ≡ sent.1.messages)
unfolding exec reap_dedup
reap-send queue group body attributes key r w = elim (Bool-cases (r.refuses Statement.reap_dedup)) [
  | inl refused ↦ rw refused (refl, refl)
  | inr done ↦ rw done (
      same-send queue group body attributes key r
        (select (λ d. not (ltb d.expires_at r.now)) r.dedup)
        (reaped-entry r.now queue key r.dedup w.dedup))
]
