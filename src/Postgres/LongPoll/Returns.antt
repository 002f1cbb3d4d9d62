-- ===== src/Postgres/LongPoll/Returns.antt =====
-- What ReceiveMessage of shim/internal/storage/postgres/messages.go answers, and when: the end of its
-- wait.
use dropin_queue.Base.{
  ℕ, ◌≤◌, ◌≡◌, ◌≢◌, refl, sym, subst, ◌∙◌, true, false, Option, some, List, [], ◌∷◌, ◌++◌, map, ℤ,
  pos, eq_ℤ, to_ℕ, arith, format,
}
use dropin_queue.Types.{Message}
use dropin_queue.Storage.{Result, ok, err, pure, continue}
use dropin_queue.Postgres.Tables.{QueueIdent, Replica, Lib, Statement}
use dropin_queue.Postgres.Messages.Claim.{claim, candidates}
use dropin_queue.Postgres.Messages.Claim.Order.{ids_of, IsDistinct}
use dropin_queue.Postgres.Messages.Claim.Oldest.{IsOldest, is_claimable, candidates-IsOldest}
use dropin_queue.Postgres.Messages.Claim.Returned.{claim-ids}
use dropin_queue.Postgres.LongPoll.{Wake, deadline, woken, is_done, poll}

map_empty : (xs : List ℕ) → map format xs ≡ [] → xs ≡ []
map_empty [] e = refl
map_empty (x ∷ xs) e = absurd (cc e)

module _ (lib : Lib) (q : QueueIdent) (max timeout : ℤ) where
  -- The claims of a call that is woken by each of the list: none of them found a message, and the
  -- others then did what the wake-up says. The last state is the one that the call is woken in.
  pub data Waits : List (Replica → Replica) → Replica → Replica → Type 0 where
    starts : (r : Replica) → Waits [] r r
    waits :
        (others : Replica → Replica) (before : List (Replica → Replica)) (r now : Replica)
        → (claim lib q max timeout r).0 ≡ ok []
        → Waits before (others (claim lib q max timeout r).1) now
        → Waits (others ∷ before) r now

  -- The answer of a call that claims once: the messages or the error of the claim.
  abbrev pub claimed : Replica → Result (Option (List Message)) × Replica
  claimed r =
      continue (claim lib q max timeout r).0 (λ msgs. pure (some msgs))
        (claim lib q max timeout r).1

  done_at_once : (msgs : List Message) → is_done lib q max timeout (pos 0) msgs ≡ true
  done_at_once [] = refl
  done_at_once (m ∷ ms) = refl

  continue_alike :
      (f g : List Message → Replica → Result (Option (List Message)) × Replica)
      → ((msgs : List Message) (r : Replica) → f msgs r ≡ g msgs r)
      → (x : Result (List Message)) (r : Replica) → continue x f r ≡ continue x g r
  continue_alike f g alike (ok msgs) r = alike msgs r
  continue_alike f g alike (err e) r = refl

  at_once : (wakes : List Wake) (r : Replica) → poll lib q max timeout (pos 0) wakes r ≡ claimed r
  unfolding poll
  at_once [] r =
      continue_alike _ _ (λ msgs s. rw (done_at_once msgs) refl) (claim lib q max timeout r).0
        (claim lib q max timeout r).1
  at_once (deadline ∷ wakes) r = refl
  at_once (woken others ∷ wakes) r =
      continue_alike _ _ (λ msgs s. rw (done_at_once msgs) refl) (claim lib q max timeout r).0
        (claim lib q max timeout r).1

  module _ (r : Replica) (k : ℕ) (d : IsDistinct (ids_of r.messages)) (some_room : 1 ≤ to_ℕ max)
      (ready : is_claimable q.id r k ≡ true)
      (granted : r.refuses Statement.claim_messages ≡ false) where
    candidates-given : candidates q.id (to_ℕ max) r ≢ []
    candidates-given empty =
        let oldest : IsOldest q.id (to_ℕ max) r [] =
          subst (IsOldest q.id (to_ℕ max) r) empty (candidates-IsOldest q.id (to_ℕ max) r d) in
        omega (arith, (oldest.rest k ready refl).0)

    claim-succeeds : (msgs : List Message) × ((claim lib q max timeout r).0 ≡ ok msgs)
    unfolding claim
    claim-succeeds = rw granted (_, refl)

    not_empty :
        (msgs : List Message)
        → (claim lib q max timeout r).0 ≡ ok msgs
        → (m : Message) × (ms : List Message) × ((claim lib q max timeout r).0 ≡ ok (m ∷ ms))
    not_empty [] found =
        absurd (candidates-given (map_empty _ (sym (claim-ids lib q max timeout r [] d found))))
    not_empty (m ∷ ms) found = (m, ms, found)

    claim-gives :
        (m : Message) × (ms : List Message) × ((claim lib q max timeout r).0 ≡ ok (m ∷ ms))
    claim-gives = not_empty claim-succeeds.0 claim-succeeds.1

  module _ (wait : ℤ) (nonzero : eq_ℤ wait (pos 0) ≡ false) where
    slept-poll :
        (before : List (Replica → Replica)) (wakes : List Wake) (r now : Replica)
        → Waits before r now
        → poll lib q max timeout wait (map woken before ++ wakes) r
          ≡ poll lib q max timeout wait wakes now
    unfolding poll
    slept-poll _ wakes r _ (starts _) = refl
    slept-poll _ wakes r _ (waits others before _ now nothing rest) =
        rw (nothing, nonzero)
          (slept-poll before wakes (others (claim lib q max timeout r).1) now rest)

    found-poll :
        (m : Message) (ms : List Message) (wakes : List Wake) (r : Replica)
        → (claim lib q max timeout r).0 ≡ ok (m ∷ ms)
        → poll lib q max timeout wait wakes r ≡ (ok (some (m ∷ ms)), (claim lib q max timeout r).1)
    unfolding poll
    found-poll m ms [] r found = rw found refl
    found-poll m ms (deadline ∷ wakes) r found = rw found refl
    found-poll m ms (woken others ∷ wakes) r found = rw found refl

    -- What a ReceiveMessage answers and when, over any sequence of what ends its waits. With a wait
    -- of 0 it answers what its first claim finds. With another wait, it is woken after its claims so
    -- far found nothing: if a message of the queue can be claimed in that state, the rows' ids are
    -- distinct, the limit is at least 1 and the statement is not refused, it answers at least one
    -- message at once, whatever comes after. However often it is woken without finding any, the
    -- deadline makes it answer what it claims then.
    pub poll-answers :
        (wakes : List Wake) (before slept : List (Replica → Replica)) (r now late : Replica) (k : ℕ)
        → Waits before r now
        → Waits slept r late
        → IsDistinct (ids_of now.messages)
        → 1 ≤ to_ℕ max
        → is_claimable q.id now k ≡ true
        → now.refuses Statement.claim_messages ≡ false
        → (poll lib q max timeout (pos 0) wakes r ≡ claimed r)
          × ((m : Message) × (ms : List Message) × (poll lib q max timeout wait
                  (map woken before ++ wakes)
                  r
                ≡ (ok (some (m ∷ ms)), (claim lib q max timeout now).1)))
          × (poll lib q max timeout wait (map woken slept ++ deadline ∷ wakes) r ≡ claimed late)
    unfolding poll
    poll-answers wakes before slept r now late k woke lasts d room ready granted =
        let (m, ms, found) = claim-gives now k d room ready granted in
        (
          at_once wakes r,
          (m, ms, slept-poll before wakes r now woke ∙ found-poll m ms wakes now found),
          slept-poll slept (deadline ∷ wakes) r late lasts,
        )
