-- ===== src/Sns/Delivers.antt =====
-- Publish of shim/internal/sns/service.go reaches the queues of a topic's subscriptions, over
-- Postgres.
use dropin_queue.Base.{ℕ, ◌≡◌, false, ltb_ℤ, pos, List, Text, is_empty, length}
use dropin_queue.Types.{Subscription}
use dropin_queue.Storage.{Result, ok}
use dropin_queue.Sns.Service.{PublishParams, topic_message}
use dropin_queue.Sns.Service as Sns
use dropin_queue.Postgres.Tables.{QueueRow, Replica, Lib}
use dropin_queue.Postgres.Queues.{row_queue}
use dropin_queue.Postgres.Messages.Send.{max_size}
use dropin_queue.Postgres.Topics.Delivers.{Delivered}

module _ (lib : Lib) (schedule : List Subscription → List Subscription) (n : Text) (q : QueueRow)
    (p : PublishParams) (now : ℕ) (body : is_empty p.message ≡ false) (standard : q.fifo ≡ false)
    (fits : ltb_ℤ (max_size (row_queue lib n q)) (pos (length p.message)) ≡ false) where
  -- The call answers an id, and the message is in the queue, visible.
  abbrev pub Reaches : Result Text × Replica → Type 0
  Reaches out =
      ((id : Text) × (out.0 ≡ ok id))
      × Delivered lib n q (topic_message p) now body standard fits out.1
