-- ===== src/Tests/Delivery.antt =====
-- Deliveries of the test messages.
use dropin_queue.Base.{
  ℕ, ◌≡◌, if◌then◌else◌, refl, false, some, List, [], ◌∷◌, ◌++◌, map, pos, arith, format, codes,
  select, not,
}
use dropin_queue.Types.{Message}
use dropin_queue.Storage.{Result, ok}
use dropin_queue.Postgres.Tables.{Replica, after_secs}
use dropin_queue.Postgres.Messages.Claim.{claim}
use dropin_queue.Postgres.Messages.Claim.Oldest.{IsOldest}
use dropin_queue.Postgres.Messages.Claim.Returned.{claim-IsOldest}
use dropin_queue.Postgres.Steps.{Call, resumes, deletes, moves, move, run}
use dropin_queue.Postgres.WellFormed.{IsWellFormed}
use dropin_queue.Postgres.WellFormed.Runs.{run-IsWellFormed}
use dropin_queue.Postgres.Exclusive.{has_message, claim-exclusive}
use dropin_queue.Postgres.Receipts.{encode_receipt_handle}
use dropin_queue.Postgres.Queues.{resolve_queue}
use dropin_queue.Postgres.Messages.{delete_message, change_message_visibility}
use dropin_queue.Postgres.Handles.{UuidLaws, holds, delete-handle, delete-stale, change-handle}
use dropin_queue.Postgres.LongPoll.{poll, woken, deadline}
use dropin_queue.Postgres.LongPoll.Returns.{Waits, starts, waits, claimed, poll-answers}
use dropin_queue.Tests.{test_lib, orders, start, ident_orders, value}

pub start-IsWellFormed : IsWellFormed start.tables
unfolding orders
start-IsWellFormed = record {
  messages = ((λ e. absurd (omega (arith, e)), tt), (tt, tt));
  message_ids = (omega arith, (omega arith, tt));
  queues = (tt, tt);
  queue_ids = (omega arith, tt);
  dedup = tt;
}

abbrev first : Result (List Message) × Replica
first = claim test_lib ident_orders (pos 1) (pos 30) start

abbrev later : List Call
later = moves 10000000 start ∷ deletes (codes "orders") (codes "bad") ∷ []

abbrev second : Result (List Message) × Replica
second = claim test_lib ident_orders (pos 10) (pos 30) (run test_lib later first.1)

claim-exclusive_example : has_message 2 (value [] second.0) ≡ false
unfolding claim run
claim-exclusive_example =
    claim-exclusive test_lib ident_orders (pos 1) (pos 30) start (value [] first.0) 2
      start-IsWellFormed refl refl later refl (omega arith) ident_orders (pos 10) (pos 30)
      (value [] second.0) refl

claim-IsOldest_example :
    (ids : List ℕ) × IsOldest 1 1 start ids
    × (map (λ (m : Message). m.id) (value [] first.0) ≡ map format ids)
unfolding claim
claim-IsOldest_example =
    claim-IsOldest test_lib ident_orders (pos 1) (pos 30) start (value [] first.0)
      start-IsWellFormed.messages refl

run-IsWellFormed_example :
    IsWellFormed (run test_lib (resumes ident_orders (pos 1) (pos 30) ∷ later) start).tables
run-IsWellFormed_example =
    run-IsWellFormed test_lib (resumes ident_orders (pos 1) (pos 30) ∷ later) start
      start-IsWellFormed

uuid_laws : UuidLaws test_lib
uuid_laws = record { read_back = λ u. refl; given = λ u e. cc e }

delete-handle_example :
    (delete_message test_lib
      (codes "orders")
      (encode_receipt_handle 2 (100 ∷ []))
      first.1).1.messages
    ≡ select (λ m. not (holds 2 100 ident_orders m)) first.1.messages
unfolding delete_message claim resolve_queue orders
delete-handle_example =
    delete-handle test_lib uuid_laws (codes "orders") 2 100 (omega arith) first.1 ident_orders refl
      refl

delete-stale_example :
    (delete_message test_lib
      (codes "orders")
      (encode_receipt_handle 2 (99 ∷ []))
      first.1).1.messages
    ≡ first.1.messages
unfolding delete_message claim resolve_queue orders
delete-stale_example =
    delete-stale test_lib uuid_laws (codes "orders") 2 99 (omega arith) first.1 ident_orders refl
      refl ((λ e. refl, (λ e. refl, tt)))

change-handle_example :
    (change_message_visibility test_lib
      (codes "orders")
      (encode_receipt_handle 2 (100 ∷ []))
      (pos 0)
      first.1).1.messages
    ≡ map
        (λ m.
          if holds 2 100 ident_orders m
          then record m { visible_at = after_secs first.1.now (pos 0) }
          else m)
        first.1.messages
unfolding change_message_visibility claim resolve_queue orders
change-handle_example =
    change-handle test_lib uuid_laws (codes "orders") 2 100 (omega arith) first.1 ident_orders
      (pos 0) refl refl

-- Both messages are in flight.
abbrev drained : Replica
drained = (claim test_lib ident_orders (pos 10) (pos 30) start).1

-- 40 seconds pass.
abbrev pass : Replica → Replica
pass = move 40000000 start

-- The state after a claim that finds nothing and what passes then.
abbrev woken_up : Replica
woken_up = pass (claim test_lib ident_orders (pos 1) (pos 30) drained).1

waited : Waits test_lib ident_orders (pos 1) (pos 30) (pass ∷ []) drained woken_up
unfolding claim
waited = waits pass [] drained woken_up refl (starts woken_up)

poll-answers_example :
    (poll test_lib ident_orders (pos 1) (pos 30) (pos 0) [] drained
      ≡ claimed test_lib ident_orders (pos 1) (pos 30) drained)
    × ((m : Message) × (ms : List Message) × (poll test_lib ident_orders
            (pos 1)
            (pos 30)
            (pos 5)
            (map woken (pass ∷ []) ++ [])
            drained
          ≡ (ok (some (m ∷ ms)), (claim test_lib ident_orders (pos 1) (pos 30) woken_up).1)))
    × (poll test_lib ident_orders (pos 1) (pos 30) (pos 5) (map woken [] ++ deadline ∷ []) drained
        ≡ claimed test_lib ident_orders (pos 1) (pos 30) drained)
unfolding claim
poll-answers_example =
    poll-answers test_lib ident_orders (pos 1) (pos 30) (pos 5) refl [] (pass ∷ []) [] drained
      woken_up drained 2 waited (starts drained) (omega arith, (tt, tt)) (omega arith) refl refl
