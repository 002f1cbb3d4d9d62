-- ===== src/Postgres/WellFormed.antt =====
-- The invariant of the database of shim/internal/storage/postgres/schema.go.
pub mod Runs
use dropin_queue.Base.{
  ℕ, suc, ◌<◌, ◌≤◌, ◌≡◌, ◌≢◌, refl, Bool, false, Option, none, some, List, [], ◌∷◌, ◌++◌, map,
  arith, ℤ, find, All, All-append, All-select, All-weaken, ◌∙◌, ap, Text, text_eq, text_eq_iff,
  if◌then◌else◌, Option-cases, inl, inr, Pairwise, select-Pairwise, append-Pairwise, map-Pairwise,
}
use dropin_queue.Types.{Queue, QueueAttributes}
use dropin_queue.Postgres.Tables.{QueueRow, MessageRow, DedupRow, Tables, Replica, Lib, after_secs}
use dropin_queue.Postgres.Queues.{cascade_queue, queue_named, new_queue, insert_found, update_row}
use dropin_queue.Postgres.Messages.{shown}
use dropin_queue.Postgres.Messages.Send.{has_key, upsert, transaction, send_tx}
use dropin_queue.Postgres.Messages.Claim.{candidates}
use dropin_queue.Postgres.Messages.Claim.Order.{ids_of, IsDistinct}
use dropin_queue.Postgres.Messages.Claim.Oldest.{All-ids_select, select-IsDistinct}
use dropin_queue.Postgres.Messages.Claim.Returned.{ids-claim_rows}
use dropin_queue.Postgres.Keeps.{Keeps-transaction}
use dropin_queue.Postgres.Keeps.Calls.{IsClosed, delete_queue-Keeps, send_tx-Keeps, send_tx-Grows}
use dropin_queue.Postgres.Keeps.Traffic.{change-Keeps}
use dropin_queue.Postgres.Steps.{Call, drops, changes, move, run}
use dropin_queue.Postgres.Steps.Unchanged.{Shows, run_keeps}

abbrev pub Differ : QueueRow → QueueRow → Type 0
Differ a b = (a.id ≢ b.id) × (text_eq a.name b.name ≡ false)

abbrev pub KeysDiffer : DedupRow → DedupRow → Type 0
KeysDiffer a b = has_key a.queue_id a.dedup_id b ≡ false

-- No id, no queue name and no deduplication key stands in two rows of its table, and the sequences
-- are ahead of the ids.
pub record IsWellFormed (t : Tables) : Type 0 where
  pub messages : IsDistinct (ids_of t.messages)
  pub message_ids : All (λ k. k < t.next_message) (ids_of t.messages)
  pub queues : Pairwise Differ t.queues
  pub queue_ids : All (λ (q : QueueRow). q.id < t.next_queue) t.queues
  pub dedup : Pairwise KeysDiffer t.dedup

pub ids-append :
    (ms : List MessageRow) (m : MessageRow) → ids_of (ms ++ m ∷ []) ≡ ids_of ms ++ m.id ∷ []
ids-append [] m = refl
ids-append (n ∷ ns) m = ap (λ xs. n.id ∷ xs) (ids-append ns m)

pub append-IsDistinct :
    (ms : List MessageRow) (m : MessageRow)
    → IsDistinct (ids_of ms)
    → All (λ k. k < m.id) (ids_of ms)
    → IsDistinct (ids_of (ms ++ m ∷ []))
append-IsDistinct ms m d h = rw (ids-append ms m) (
    append-Pairwise (λ x y. x ≢ y) (ids_of ms) m.id d
      (All-weaken (λ k. k < m.id) (λ k. k ≢ m.id) (λ k lt. omega arith) (ids_of ms) h))

pub append-below :
    (ms : List MessageRow) (m : MessageRow)
    → All (λ k. k < m.id) (ids_of ms)
    → All (λ k. k < suc m.id) (ids_of (ms ++ m ∷ []))
append-below ms m h = rw (ids-append ms m) (
    All-append (λ k. k < suc m.id) (ids_of ms) (m.id ∷ [])
      (All-weaken (λ k. k < m.id) (λ k. k < suc m.id) (λ k lt. omega arith) (ids_of ms) h)
      (omega arith, tt))

pub ids-shown :
    (id : ℤ) (uuid queue at : ℕ) (ms : List MessageRow)
    → ids_of (shown id uuid queue at ms) ≡ ids_of ms
ids-shown id uuid queue at [] = refl
ids-shown id uuid queue at (m ∷ ms) = ground (arith, ids-shown id uuid queue at ms)

pub has_key_sym :
    (a b : DedupRow) → has_key a.queue_id a.dedup_id b ≡ has_key b.queue_id b.dedup_id a
has_key_sym a b =
    ground (arith, text_eq_iff a.dedup_id b.dedup_id, text_eq_iff b.dedup_id a.dedup_id)

pub find-none :
    {A : Type 0} (p : A → Bool) (xs : List A) → find p xs ≡ none → All (λ x. p x ≡ false) xs
find-none p [] h = tt
find-none p (x ∷ xs) h = ground (arith, h, find-none p xs)

pub queue-none :
    (q : QueueRow) (qs : List QueueRow)
    → find (λ (p : QueueRow). text_eq p.name q.name) qs ≡ none
    → All (λ (p : QueueRow). p.id < q.id) qs
    → All (λ (p : QueueRow). Differ p q) qs
queue-none q [] e below = tt
queue-none q (p ∷ ps) e below = ground (arith, e, queue-none q ps, below)

pub replace_keep :
    (new a b : DedupRow)
    → KeysDiffer a b
    → KeysDiffer
        (if has_key new.queue_id new.dedup_id a then new else a)
        (if has_key new.queue_id new.dedup_id b then new else b)
replace_keep new a b h = ground (
  arith,
  h,
  text_eq_iff a.dedup_id new.dedup_id,
  text_eq_iff b.dedup_id new.dedup_id,
  text_eq_iff b.dedup_id a.dedup_id,
  text_eq_iff new.dedup_id a.dedup_id,
)

pub upsert-keys :
    (now : ℕ) (new : DedupRow) (ds : List DedupRow)
    → Pairwise KeysDiffer ds
    → Pairwise KeysDiffer (upsert now new (find (has_key new.queue_id new.dedup_id) ds) ds)
upsert-keys now new ds h = elim (Option-cases (find (has_key new.queue_id new.dedup_id) ds)) [
  | inl e ↦ rw e (
      append-Pairwise KeysDiffer ds new h (
        All-weaken _ (λ d. KeysDiffer d new) (λ d n. has_key_sym d new ∙ n) ds
          (find-none (has_key new.queue_id new.dedup_id) ds e)))
  | inr (old, e) ↦ rw e (
      ground (
        arith,
        h,
        map-Pairwise KeysDiffer (λ d. if has_key new.queue_id new.dedup_id d then new else d) ds
            (replace_keep new) h,
      ))
]

pub queue_ids-later :
    (m n : ℕ) (qs : List QueueRow)
    → m ≤ n
    → All (λ (q : QueueRow). q.id < m) qs
    → All (λ (q : QueueRow). q.id < n) qs
queue_ids-later m n qs le h =
    All-weaken (λ (q : QueueRow). q.id < m) (λ (q : QueueRow). q.id < n) (λ q lt. omega arith) qs h

pub cascade-keeps :
    (name : Text) (r : Replica) → IsWellFormed r.tables → IsWellFormed (cascade_queue name r.tables)
unfolding cascade_queue
cascade-keeps name r h = record {
  messages = select-IsDistinct _ r.messages h.messages;
  message_ids = All-ids_select (λ k. k < r.next_message) _ r.messages h.message_ids;
  queues = select-Pairwise Differ _ r.queues h.queues;
  queue_ids = All-select (λ (q : QueueRow). q.id < r.next_queue) _ r.queues h.queue_ids;
  dedup = select-Pairwise KeysDiffer _ r.dedup h.dedup;
}

pub insert-keeps :
    (lib : Lib) (q : Queue) (attrs : QueueAttributes) (r : Replica) (found : Option QueueRow)
    → queue_named q.name r.tables ≡ found
    → IsWellFormed r.tables
    → IsWellFormed (insert_found lib q attrs r found)
insert-keeps lib q attrs r (some row) e h = record {
  messages = h.messages;
  message_ids = h.message_ids;
  queues = h.queues;
  queue_ids = queue_ids-later r.next_queue (suc r.next_queue) r.queues (omega arith) h.queue_ids;
  dedup = h.dedup;
}
insert-keeps lib q attrs r none e h = record {
  messages = h.messages;
  message_ids = h.message_ids;
  queues =
      append-Pairwise Differ r.queues (new_queue lib q attrs r) h.queues
        (queue-none (new_queue lib q attrs r) r.queues e h.queue_ids);
  queue_ids =
      All-append (λ (p : QueueRow). p.id < suc r.next_queue) r.queues _
        (queue_ids-later r.next_queue (suc r.next_queue) r.queues (omega arith) h.queue_ids)
        (omega arith, tt);
  dedup = h.dedup;
}

pub update-ids :
    (name : Text) (attrs : QueueAttributes) (n : ℕ) (qs : List QueueRow)
    → All (λ (q : QueueRow). q.id < n) qs
    → All (λ (q : QueueRow). q.id < n) (map (update_row name attrs) qs)
update-ids name attrs n [] h = tt
update-ids name attrs n (q ∷ qs) h = ground (arith, update-ids name attrs n qs h.1)

pub update-Differ :
    (name : Text) (attrs : QueueAttributes) (a b : QueueRow)
    → Differ a b
    → Differ (update_row name attrs a) (update_row name attrs b)
update-Differ name attrs a b h = ground (arith, h)
