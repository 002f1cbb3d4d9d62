-- ===== src/Postgres/Dedup.antt =====
-- The deduplication entries of shim/internal/storage/postgres/messages.go: what keeps one.
pub mod Once
pub mod Expired
pub mod Settled
use dropin_queue.Base.{
  ℕ, suc, ◌<◌, ◌≤◌, ◌+◌, ◌==◌, ==_iff, ◌≡◌, refl, sym, ap, ◌∙◌, Bool, true, false, ◌&&◌, not,
  Option, none, some, List, [], ◌∷◌, ◌++◌, map, arith, ℤ, pos, select, find, All, Text, text_eq,
  text_eq_iff, text_eq_refl, is_empty, leb, ltb, if◌then◌else◌, Bool-cases, Option-cases,
  and-eq-true, inl, inr, all,
}
use dropin_queue.Storage.{ok, err, Result}
use dropin_queue.Postgres.Tables.{
  QueueRow, DedupRow, MessageRow, Tables, Replica, Lib, Statement, exec, query, after_secs,
}
use dropin_queue.Types.{Queue, QueueAttributes}
use dropin_queue.Postgres.Queues.{insert_found}
use dropin_queue.Postgres.Messages.Send.{
  has_key, free_key, upsert, entry, send_tx, transaction, commit, deduplicate, Sent, fresh,
  duplicate, winner_or_fail, new_message,
}
use dropin_queue.Postgres.Messages.Claim.Order.{ids_of}
use dropin_queue.Postgres.Keeps.{Keeps}
use dropin_queue.Postgres.Keeps.Calls.{IsClosed, new_entry}
use dropin_queue.Postgres.Keeps.Traffic.{change-Keeps}
use dropin_queue.Postgres.Steps.{Call, drops, changes, move, run}
use dropin_queue.Postgres.Steps.Unchanged.{Shows, run_keeps}
use dropin_queue.Postgres.WellFormed.{IsWellFormed}

find-append :
    {A : Type 0} (p : A → Bool) (xs : List A) (y a : A)
    → find p xs ≡ some a
    → find p (xs ++ y ∷ []) ≡ some a
find-append p [] y a h = cc
find-append p (x ∷ xs) y a h = ground (arith, h, find-append p xs y a)

find-select :
    {A : Type 0} (p keep : A → Bool) (xs : List A) (a : A)
    → find p xs ≡ some a
    → keep a ≡ true
    → find p (select keep xs) ≡ some a
find-select p keep [] a h k = cc
find-select p keep (x ∷ xs) a h k = ground (arith, h, k, find-select p keep xs a, ap keep)

-- The key of a row that replaces another one is another key.
find-replace :
    (queue : ℕ) (key : Text) (new d : DedupRow) (ds : List DedupRow)
    → has_key queue key new ≡ false
    → find (has_key queue key) ds ≡ some d
    → find
        (has_key queue key)
        (map (λ x. if has_key new.queue_id new.dedup_id x then new else x) ds)
      ≡ some d
find-replace queue key new d [] n h = cc
find-replace queue key new d (x ∷ xs) n h = ground (
  arith,
  n,
  h,
  text_eq_iff x.dedup_id new.dedup_id,
  text_eq_iff x.dedup_id key,
  text_eq_iff new.dedup_id key,
  find-replace queue key new d xs n,
)

-- Up to its expiry the entry `d` is the one that its key finds.
pub record IsTaken (d : DedupRow) (r : Replica) : Type 0 where
  pub found : r.now < d.expires_at → entry d.queue_id d.dedup_id r ≡ some d

module _ (lib : Lib) (d : DedupRow) where
  upsert-other :
      (new : DedupRow) (r : Replica) (o : Option DedupRow)
      → entry new.queue_id new.dedup_id r ≡ o
      → has_key d.queue_id d.dedup_id new ≡ false
      → find (has_key d.queue_id d.dedup_id) r.dedup ≡ some d
      → find (has_key d.queue_id d.dedup_id) (upsert r.now new o r.dedup) ≡ some d
  upsert-other new r none e other h = find-append (has_key d.queue_id d.dedup_id) r.dedup new d h
  upsert-other new r (some old) e other h =
      ground (arith, h, find-replace d.queue_id d.dedup_id new d r.dedup other h)

  inserted-taken :
      (q : Queue) (attrs : QueueAttributes) (r : Replica) (o : Option QueueRow)
      → IsTaken d r
      → IsTaken d (record r { tables = insert_found lib q attrs r o })
  inserted-taken q attrs r none h = record { found = h.found }
  inserted-taken q attrs r (some row) h = record { found = h.found }

  upsert-found :
      (new : DedupRow) (r : Replica)
      → IsTaken d r
      → r.now < d.expires_at
      → find
          (has_key d.queue_id d.dedup_id)
          (upsert r.now new (entry new.queue_id new.dedup_id r) r.dedup)
        ≡ some d
  upsert-found new r h now = elim (Bool-cases (has_key d.queue_id d.dedup_id new)) [
    | inl same ↦
        let (qe, ke) =
          and-eq-true (new.queue_id == d.queue_id) (text_eq new.dedup_id d.dedup_id) same in
        let e : entry new.queue_id new.dedup_id r ≡ some d =
          rw ((==_iff new.queue_id d.queue_id).0 qe, (text_eq_iff new.dedup_id d.dedup_id).0 ke)
            (h.found now) in
        rw e (ground (arith, h.found now))
    | inr other ↦ upsert-other new r _ refl other (h.found now)
  ]

  taken-IsClosed : IsClosed lib (IsTaken d)
  taken-IsClosed = record {
    sending = record {
      caches = λ r c h. record { found = h.found };
      triggers = λ r ts h. record { found = h.found };
      backs = λ a b ha hb g. record { found = ha.found };
      inserts = λ queue group body attributes r h. record { found = h.found };
      upserts = λ queue key id r h. record { found = upsert-found (new_entry queue key id r) r h };
      drops = λ keep r h. record { found = h.found };
    };
    inserts_queue = λ q attrs r h. inserted-taken q attrs r _ h;
    updates = λ name attrs r h. record { found = h.found };
    reaps = λ r h. record {
      found = λ now.
          find-select (has_key d.queue_id d.dedup_id) (λ e. not (ltb e.expires_at r.now)) r.dedup d
            (h.found now) (ground arith);
    };
    claims = λ queue limit timeout r h. record { found = h.found };
  }

-- A call other than DeleteQueue.
abbrev pub no_drop : Call → Bool
no_drop (drops name) = false
no_drop _ = true

module _ (lib : Lib) (d : DedupRow) where
  moved_taken : (elapsed : ℕ) (other r : Replica) → IsTaken d r → IsTaken d (move elapsed other r)
  moved_taken elapsed other r h = record { found = λ now. h.found (omega arith) }

  no_drop-Shows :
      (x : Call) → no_drop x ≡ true → Shows lib (IsTaken d) (taken-IsClosed lib d) moved_taken x
  no_drop-Shows (drops name) h = absurd (cc h)
  no_drop-Shows (changes name handle timeout) h =
      change-Keeps lib (IsTaken d) (taken-IsClosed lib d) name handle timeout
        (λ id token uuid queue e r h. record { found = h.found })
  no_drop-Shows _ h = tt

  All-Shows :
      (xs : List Call)
      → all no_drop xs ≡ true
      → All (Shows lib (IsTaken d) (taken-IsClosed lib d) moved_taken) xs
  All-Shows [] h = tt
  All-Shows (x ∷ xs) h =
      let (here, rest) = and-eq-true (no_drop x) (all no_drop xs) h in
      (no_drop-Shows x here, All-Shows xs rest)

  pub run-taken :
      (xs : List Call) (r : Replica)
      → all no_drop xs ≡ true
      → IsTaken d r
      → IsTaken d (run lib xs r)
  run-taken xs r h =
      run_keeps lib (IsTaken d) (taken-IsClosed lib d) moved_taken xs (All-Shows xs h) r
