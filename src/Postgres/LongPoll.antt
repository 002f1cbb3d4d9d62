-- ===== src/Postgres/LongPoll.antt =====
-- ReceiveMessage of shim/internal/storage/postgres/messages.go: the limits of its arguments, and the
-- loop that claims and waits. What ends a wait is an argument: the deadline, or a wake-up, by a
-- notification or by the safety poll, which says what the others did to the state meanwhile.
pub mod Returns
use dropin_queue.Base.{
  ℕ, Bool, true, false, ◌||◌, not, Option, none, some, List, [], ◌∷◌, ℤ, pos, ltb_ℤ, eq_ℤ, Text,
  if◌then◌else◌,
}
use dropin_queue.Types.{Queue, Message}
use dropin_queue.Storage.{Op, Result, ok, err, pure, ◌>>=◌}
use dropin_queue.Postgres.Tables.{QueueIdent, Replica, Lib}
use dropin_queue.Postgres.Queues.{get_queue, resolve_queue, or_default}
use dropin_queue.Postgres.Messages.Claim.{claim}

pub data Wake : Type 0 where
  deadline : Wake
  woken : (Replica → Replica) → Wake

-- low if n < low, high if high < n
abbrev pub clamp : ℤ → ℤ → ℤ → ℤ
clamp low high n = if ltb_ℤ n low then low else if ltb_ℤ high n then high else n

-- if visibilityTimeout <= 0 { the queue's }; if visibilityTimeout == 0 { 30 }
abbrev pub visibility : ℤ → Queue → ℤ
visibility requested q =
    or_default (pos 30)
      (if ltb_ℤ (pos 0) requested then requested else q.attributes.visibility_timeout)

abbrev pub is_nil : List Message → Bool
is_nil [] = true
is_nil (m ∷ ms) = false

module _ (lib : Lib) (q : QueueIdent) (max timeout wait : ℤ) where
  -- len(msgs) > 0 || waitSeconds == 0
  abbrev pub is_done : List Message → Bool
  is_done msgs = not (is_nil msgs) || eq_ℤ wait (pos 0)

  -- The loop, over what ends its waits. `none` means that it is waiting when they run out.
  unfoldable pub poll : List Wake → Op Replica (Option (List Message))
  unfolding claim
  poll [] = do msgs ← claim lib q max timeout; pure (if is_done msgs then some msgs else none)
  poll (deadline ∷ ws) = do msgs ← claim lib q max timeout; pure (some msgs)
  poll (woken others ∷ ws) = do
    msgs ← claim lib q max timeout
    let again : Op Replica (Option (List Message)) = λ r. poll ws (others r)
    if is_done msgs then pure (some msgs) else again

module _ (lib : Lib) where
  unfoldable pub receive_message : Text → ℤ → ℤ → ℤ → List Wake → Op Replica (Option (List Message))
  unfolding get_queue resolve_queue poll
  receive_message name max wait timeout wakes = do
    q ← get_queue lib name
    qid ← resolve_queue name
    poll lib qid (clamp (pos 1) (pos 10) max) (visibility timeout q) (clamp (pos 0) (pos 20) wait)
        wakes
