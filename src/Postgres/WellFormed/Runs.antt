-- ===== src/Postgres/WellFormed/Runs.antt =====
-- Every call of the Postgres adapter keeps the invariant of its database.
use dropin_queue.Base.{
  ℕ, ◌<◌, refl, List, [], ◌∷◌, arith, All, All-weaken, Text, select-Pairwise, map-Pairwise,
}
use dropin_queue.Postgres.Tables.{Replica, Lib, after_secs}
use dropin_queue.Postgres.Messages.Send.{transaction, send_tx}
use dropin_queue.Postgres.Messages.Claim.{candidates}
use dropin_queue.Postgres.Messages.Claim.Order.{ids_of}
use dropin_queue.Postgres.Messages.Claim.Oldest.{All-ids_select, select-IsDistinct}
use dropin_queue.Postgres.Messages.Claim.Returned.{ids-claim_rows}
use dropin_queue.Postgres.Keeps.{Keeps-transaction}
use dropin_queue.Postgres.Keeps.Calls.{IsClosed, delete_queue-Keeps, send_tx-Keeps, send_tx-Grows}
use dropin_queue.Postgres.Keeps.Traffic.{change-Keeps}
use dropin_queue.Postgres.Steps.{Call, drops, changes, move, run}
use dropin_queue.Postgres.Steps.Unchanged.{Shows, run_keeps}
use dropin_queue.Postgres.WellFormed.{
  Differ, KeysDiffer, IsWellFormed, append-IsDistinct, append-below, ids-shown, upsert-keys,
  queue_ids-later, cascade-keeps, insert-keeps, update-ids, update-Differ,
}

abbrev Good : Replica → Type 0
Good r = IsWellFormed r.tables

wellformed-IsClosed : (lib : Lib) → IsClosed lib Good
wellformed-IsClosed lib = record {
  sending = record {
    caches = λ r c h. h;
    triggers = λ r ts h. h;
    backs = λ a b ha hb g. record {
      messages = ha.messages;
      message_ids =
          All-weaken (λ k. k < a.next_message) (λ k. k < b.next_message)
            (λ k lt. omega (arith, g.message)) (ids_of a.messages) ha.message_ids;
      queues = ha.queues;
      queue_ids = queue_ids-later _ _ a.queues g.queue ha.queue_ids;
      dedup = ha.dedup;
    };
    inserts = λ queue group body attributes r h. record {
      messages = append-IsDistinct r.messages _ h.messages h.message_ids;
      message_ids = append-below r.messages _ h.message_ids;
      queues = h.queues;
      queue_ids = h.queue_ids;
      dedup = h.dedup;
    };
    upserts = λ queue key id r h. record {
      messages = h.messages;
      message_ids = h.message_ids;
      queues = h.queues;
      queue_ids = h.queue_ids;
      dedup = upsert-keys r.now _ r.dedup h.dedup;
    };
    drops = λ keep r h. record {
      messages = select-IsDistinct keep r.messages h.messages;
      message_ids = All-ids_select (λ k. k < r.next_message) keep r.messages h.message_ids;
      queues = h.queues;
      queue_ids = h.queue_ids;
      dedup = h.dedup;
    };
  };
  inserts_queue = λ q attrs r h. insert-keeps lib q attrs r _ refl h;
  updates = λ name attrs r h. record {
    messages = h.messages;
    message_ids = h.message_ids;
    queues = map-Pairwise Differ _ r.queues (update-Differ name attrs) h.queues;
    queue_ids = update-ids name attrs _ r.queues h.queue_ids;
    dedup = h.dedup;
  };
  reaps = λ r h. record {
    messages = h.messages;
    message_ids = h.message_ids;
    queues = h.queues;
    queue_ids = h.queue_ids;
    dedup = select-Pairwise KeysDiffer _ r.dedup h.dedup;
  };
  claims = λ queue limit timeout r h. record {
    messages =
        rw
          (ids-claim_rows lib (candidates queue limit r) (after_secs r.now timeout) r.drawn
            r.messages)
          h.messages;
    message_ids =
        rw
          (ids-claim_rows lib (candidates queue limit r) (after_secs r.now timeout) r.drawn
            r.messages)
          h.message_ids;
    queues = h.queues;
    queue_ids = h.queue_ids;
    dedup = h.dedup;
  };
}

moved_wellformed : (elapsed : ℕ) (other r : Replica) → Good r → Good (move elapsed other r)
moved_wellformed elapsed other r h = h

All-Shows :
    (lib : Lib) (xs : List Call)
    → All (Shows lib Good (wellformed-IsClosed lib) moved_wellformed) xs
All-Shows lib [] = tt
All-Shows lib (drops name ∷ xs) = (
  delete_queue-Keeps lib Good (wellformed-IsClosed lib) name (cascade-keeps name),
  All-Shows lib xs,
)
All-Shows lib (changes name handle timeout ∷ xs) = (
  change-Keeps lib Good (wellformed-IsClosed lib) name handle timeout (λ id token uuid queue e r h.
      record {
        messages = rw (ids-shown id uuid queue (after_secs r.now timeout) r.messages) h.messages;
        message_ids =
            rw (ids-shown id uuid queue (after_secs r.now timeout) r.messages) h.message_ids;
        queues = h.queues;
        queue_ids = h.queue_ids;
        dedup = h.dedup;
      }),
  All-Shows lib xs,
)
All-Shows lib (_ ∷ xs) = (tt, All-Shows lib xs)

-- Every run of calls, failing ones and those of other replicas included, keeps message ids, queue
-- ids, queue names and deduplication keys unique in their tables, and the sequences ahead of the ids.
pub run-IsWellFormed :
    (lib : Lib) (xs : List Call) (r : Replica)
    → IsWellFormed r.tables
    → IsWellFormed (run lib xs r).tables
run-IsWellFormed lib xs r h =
    run_keeps lib Good (wellformed-IsClosed lib) moved_wellformed xs (All-Shows lib xs) r h

pub transaction-IsWellFormed :
    (lib : Lib) (queue : ℕ) (group body attributes key : Text) (r : Replica)
    → IsWellFormed r.tables
    → IsWellFormed (transaction (send_tx queue group body attributes key) r).1.tables
transaction-IsWellFormed lib queue group body attributes key r h =
    (Keeps-transaction {P = Good} _
        (send_tx-Keeps lib Good (wellformed-IsClosed lib).sending _ _ _ _ _)
        (send_tx-Grows _ _ _ _ _) (wellformed-IsClosed lib).backs).at
      r h
