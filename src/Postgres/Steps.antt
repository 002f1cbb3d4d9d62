-- ===== src/Postgres/Steps.antt =====
-- Runs of the Postgres adapter: calls by any number of replicas that share the database, one after
-- another, with the time that passes between them and what else may change meanwhile.
pub mod Unchanged
use dropin_queue.Base.{ℕ, ◌+◌, Option, List, [], ◌∷◌, ℤ, Text}
use dropin_queue.Types.{QueueAttributes, Queue, Message}
use dropin_queue.Postgres.Tables.{Tables, QueueIdent, Replica, Lib}
use dropin_queue.Postgres.Queues.{
  create_queue, get_queue, list_queues, delete_queue, purge_queue, set_queue_attributes,
}
use dropin_queue.Postgres.Messages.{delete_message, change_message_visibility, queue_depth}
use dropin_queue.Postgres.Messages.Send.{send_message}
use dropin_queue.Postgres.Messages.Claim.{claim}
use dropin_queue.Postgres.LongPoll.{receive_message}
use dropin_queue.Postgres.Reaper.{reap_once}

-- `receives` is ReceiveMessage up to its first wait, and `resumes` a claim that a waiting
-- ReceiveMessage makes once it is woken. `moves` is the time that passes and the replica whose
-- caches, clock, locks and refusals the next calls see.
pub data Call : Type 0 where
  creates : Queue → Call
  gets : Text → Call
  lists : Text → Call
  drops : Text → Call
  purges : Text → Call
  sets : Text → QueueAttributes → Call
  sends : Text → Option Message → Call
  receives : Text → ℤ → ℤ → ℤ → Call
  resumes : QueueIdent → ℤ → ℤ → Call
  deletes : Text → Text → Call
  changes : Text → Text → ℤ → Call
  counts : Text → Call
  reaps : Call
  moves : ℕ → Replica → Call

abbrev pub move : ℕ → Replica → Replica → Replica
move elapsed other r = record other { tables = r.tables; now = r.now + elapsed; drawn = r.drawn }

module _ (lib : Lib) where
  -- What a call leaves, whatever it answers.
  unfoldable pub step : Call → Replica → Replica
  unfolding create_queue get_queue list_queues delete_queue purge_queue set_queue_attributes
      send_message receive_message claim delete_message change_message_visibility queue_depth
      reap_once
  step (creates q) r = (create_queue lib q r).1
  step (gets name) r = (get_queue lib name r).1
  step (lists prefix) r = (list_queues prefix r).1
  step (drops name) r = (delete_queue name r).1
  step (purges name) r = (purge_queue name r).1
  step (sets name attrs) r = (set_queue_attributes name attrs r).1
  step (sends name msg) r = (send_message lib name msg r).1
  step (receives name max wait timeout) r = (receive_message lib name max wait timeout [] r).1
  step (resumes q max timeout) r = (claim lib q max timeout r).1
  step (deletes name handle) r = (delete_message lib name handle r).1
  step (changes name handle timeout) r = (change_message_visibility lib name handle timeout r).1
  step (counts name) r = (queue_depth name r).1
  step reaps r = reap_once r
  step (moves elapsed other) r = move elapsed other r

  unfoldable pub run : List Call → Replica → Replica
  unfolding step
  run [] r = r
  run (x ∷ xs) r = run xs (step x r)
