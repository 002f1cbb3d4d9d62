-- ===== src/Postgres/Steps/Unchanged.antt =====
-- A property that the statements keep is kept by every run of calls.
use dropin_queue.Base.{ℕ, List, [], ◌∷◌, All}
use dropin_queue.Postgres.Tables.{Replica, Lib}
use dropin_queue.Postgres.Queues.{delete_queue}
use dropin_queue.Postgres.Messages.{change_message_visibility}
use dropin_queue.Postgres.Keeps.{Keeps}
use dropin_queue.Postgres.Keeps.Calls.{
  IsClosed, create_queue-Keeps, get_queue-Keeps, list_queues-Keeps, purge_queue-Keeps,
  set_queue_attributes-Keeps,
}
use dropin_queue.Postgres.Keeps.Traffic.{
  send_message-Keeps, claim-Keeps, delete_message-Keeps, queue_depth-Keeps, reap_once_keeps,
  receive_message-Keeps,
}
use dropin_queue.Postgres.Steps.{
  Call, creates, gets, lists, drops, purges, sets, sends, receives, resumes, deletes, changes,
  counts, reaps, moves, move, step, run,
}

module _ (lib : Lib) (P : Replica → Type 0) (c : IsClosed lib P)
    (moved : (elapsed : ℕ) (other r : Replica) → P r → P (move elapsed other r)) where
  -- A call that deletes no queue and changes no visibility, or one that is known to keep the property.
  abbrev pub Shows : Call → Type 0
  Shows (drops name) = Keeps P (delete_queue name)
  Shows (changes name handle timeout) = Keeps P (change_message_visibility lib name handle timeout)
  Shows _ = Unit {0}

  pub step_keeps : (x : Call) → Shows x → (r : Replica) → P r → P (step lib x r)
  unfolding step
  step_keeps (creates q) s r h = (create_queue-Keeps lib P c q).at r h
  step_keeps (gets name) s r h = (get_queue-Keeps lib P c.sending name).at r h
  step_keeps (lists prefix) s r h = (list_queues-Keeps lib P c.sending prefix).at r h
  step_keeps (drops name) s r h = s.at r h
  step_keeps (purges name) s r h = (purge_queue-Keeps lib P c name).at r h
  step_keeps (sets name attrs) s r h = (set_queue_attributes-Keeps lib P c name attrs).at r h
  step_keeps (sends name msg) s r h = (send_message-Keeps lib P c.sending name msg).at r h
  step_keeps (receives name max wait timeout) s r h =
      (receive_message-Keeps lib P c name max wait timeout).at r h
  step_keeps (resumes q max timeout) s r h = (claim-Keeps lib P c q max timeout).at r h
  step_keeps (deletes name handle) s r h = (delete_message-Keeps lib P c name handle).at r h
  step_keeps (changes name handle timeout) s r h = s.at r h
  step_keeps (counts name) s r h = (queue_depth-Keeps lib P c name).at r h
  step_keeps reaps s r h = reap_once_keeps lib P c r h
  step_keeps (moves elapsed other) s r h = moved elapsed other r h

  pub run_keeps : (xs : List Call) → All Shows xs → (r : Replica) → P r → P (run lib xs r)
  unfolding run
  run_keeps [] s r h = h
  run_keeps (x ∷ xs) s r h = run_keeps xs s.1 (step lib x r) (step_keeps x s.0 r h)
