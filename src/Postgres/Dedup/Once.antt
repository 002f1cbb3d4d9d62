-- ===== src/Postgres/Dedup/Once.antt =====
-- Within its window a deduplication id is delivered once: the transaction of SendMessage in
-- shim/internal/storage/postgres/messages.go.
use dropin_queue.Base.{
  ℕ, ◌<◌, ◌==◌, ◌≡◌, refl, ap, Bool, true, false, not, Option, none, some, List, [], ◌∷◌, ◌++◌, map,
  arith, pos, select, find, All, Text, text_eq_refl, is_empty, if◌then◌else◌, all,
}
use dropin_queue.Storage.{ok}
use dropin_queue.Postgres.Tables.{DedupRow, MessageRow, Replica, Lib, exec, query, after_secs}
use dropin_queue.Postgres.Messages.Send.{
  has_key, free_key, upsert, entry, send_tx, transaction, commit, deduplicate, Sent, fresh,
  duplicate, new_message,
}
use dropin_queue.Postgres.Messages.Claim.Order.{ids_of}
use dropin_queue.Postgres.Keeps.Calls.{new_entry}
use dropin_queue.Postgres.Steps.{Call, run}
use dropin_queue.Postgres.WellFormed.{IsWellFormed}
use dropin_queue.Postgres.WellFormed.Runs.{run-IsWellFormed, transaction-IsWellFormed}
use dropin_queue.Postgres.Dedup.{IsTaken, run-taken, no_drop}

pub select_others :
    (n : ℕ) (ms : List MessageRow) (m : MessageRow)
    → All (λ k. k < n) (ids_of ms)
    → m.id ≡ n
    → select (λ row. not (row.id == n)) (ms ++ m ∷ []) ≡ ms
select_others n [] m h e = ground (arith, e)
select_others n (x ∷ xs) m h e = ground (arith, e, h, select_others n xs m)

find_last :
    {A : Type 0} (p : A → Bool) (xs : List A) (y : A)
    → find p xs ≡ none
    → p y ≡ true
    → find p (xs ++ y ∷ []) ≡ some y
find_last p [] y h e = ground (arith, e)
find_last p (x ∷ xs) y h e = ground (arith, h, e, find_last p xs y)

find_replaced :
    (p : DedupRow → Bool) (new old : DedupRow) (ds : List DedupRow)
    → p new ≡ true
    → find p ds ≡ some old
    → find p (map (λ x. if p x then new else x) ds) ≡ some new
find_replaced p new old [] e h = cc
find_replaced p new old (x ∷ xs) e h = ground (arith, h, e, find_replaced p new old xs e)

upsert-free :
    (new : DedupRow) (now : ℕ) (o : Option DedupRow) (ds : List DedupRow)
    → find (has_key new.queue_id new.dedup_id) ds ≡ o
    → free_key now o ≡ true
    → find (has_key new.queue_id new.dedup_id) (upsert now new o ds) ≡ some new
upsert-free new now none ds e h =
    find_last (has_key new.queue_id new.dedup_id) ds new e
      (ground (arith, text_eq_refl new.dedup_id))
upsert-free new now (some old) ds e h = ground (
  arith,
  h,
  find_replaced (has_key new.queue_id new.dedup_id) new old ds
      (ground (arith, text_eq_refl new.dedup_id)) e,
)

module _ (queue : ℕ) (group body attributes key : Text) (r after : Replica)
    (n : is_empty key ≡ false) where
  -- The transaction of a first SendMessage with a deduplication id leaves the id taken.
  first-taken :
      (id at : ℕ)
      → transaction (send_tx queue group body attributes key) r ≡ (ok (fresh id at), after)
      → IsTaken (new_entry queue key id r) after
  unfolding transaction commit send_tx deduplicate exec query
  first-taken id at h = record {
    found = λ now. ground (
      arith,
      h,
      n,
      upsert-free (new_entry queue key r.next_message r) r.now (entry queue key r) r.dedup refl,
    );
  }

  -- With a key that is taken, nothing is added and the winner's id is answered.
  taken-duplicate :
      (d : DedupRow) (s : Sent)
      → IsWellFormed r.tables
      → entry queue key r ≡ some d
      → r.now < d.expires_at
      → transaction (send_tx queue group body attributes key) r ≡ (ok s, after)
      → (s ≡ duplicate d.message_id) × (after.messages ≡ r.messages)
  unfolding transaction commit send_tx deduplicate exec query
  taken-duplicate d s w e now h = ground (
    arith,
    h,
    n,
    e,
    select_others r.next_message r.messages (new_message queue group body attributes r)
        w.message_ids refl,
  )

-- Once the transaction of SendMessage has added a message with a deduplication id, the transaction
-- of any later SendMessage with that id to the same queue that succeeds within 300 seconds adds no
-- message and answers the first message's id, whatever calls but DeleteQueue come between.
pub send_once :
    (lib : Lib) (queue : ℕ) (group body attributes key : Text) (r after : Replica) (id at : ℕ)
    → IsWellFormed r.tables
    → is_empty key ≡ false
    → transaction (send_tx queue group body attributes key) r ≡ (ok (fresh id at), after)
    → (xs : List Call) → all no_drop xs ≡ true
    → (run lib xs after).now < after_secs r.now (pos 300)
    → (group2 body2 attributes2 : Text) (s : Sent) (last : Replica)
    → transaction (send_tx queue group2 body2 attributes2 key) (run lib xs after) ≡ (ok s, last)
    → (s ≡ duplicate id) × (last.messages ≡ (run lib xs after).messages)
send_once lib queue group body attributes key r after id at w n h xs l before group2 body2
      attributes2 s last g =
    let w2 : IsWellFormed (run lib xs after).tables =
      run-IsWellFormed lib xs after (
        rw (← ap (λ x. x.1) h)
          (transaction-IsWellFormed lib queue group body attributes key r w)) in
    let taken : IsTaken (new_entry queue key id r) (run lib xs after) =
      run-taken lib (new_entry queue key id r) xs after l
        (first-taken queue group body attributes key r after n id at h) in
    taken-duplicate queue group2 body2 attributes2 key (run lib xs after) last n
      (new_entry queue key id r) s w2 (taken.found before) before g
