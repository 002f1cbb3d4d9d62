-- ===== src/Postgres/Sending/Outcome.antt =====
-- What SendMessage of shim/internal/storage/postgres/messages.go answers and leaves, on every branch.
use dropin_queue.Base.{
  ◌<◌, ◌≡◌, ◌⊎◌, refl, ap, sym, Option, none, some, List, [], ◌∷◌, ◌++◌, pos, ltb_ℤ, Text, is_empty,
  length, format, Bool-cases, inl, inr,
}
use dropin_queue.Types.{Queue, Message}
use dropin_queue.Storage.{Result, Err, ok, err, continue}
use dropin_queue.Postgres.Tables.{
  QueueRow, DedupRow, MessageRow, Tables, Replica, Lib, Statement, query,
}
use dropin_queue.Postgres.Queues.{queue_named, row_queue, get_queue, get_row, cache_queue}
use dropin_queue.Postgres.Messages.Send.{
  Sent, fresh, duplicate, new_message, answer, trigger, entry, send_checked, send_sized,
  send_message, group_of, dedup_id_of, max_size,
}
use dropin_queue.Postgres.WellFormed.{IsWellFormed}
use dropin_queue.Postgres.Sending.{
  SameRows, Leaves, cached, checked-tx, tx-Leaves, transaction-rolls,
}

same : {t : Tables} → SameRows t t
same = record { queues = refl; messages = refl; dedup = refl; topics = refl; subscriptions = refl }

module _ (lib : Lib) (name : Text) (msg : Message) (q : QueueRow) (r : Replica) where
  abbrev queue : Queue
  queue = row_queue lib name q

  abbrev new_row : MessageRow
  new_row =
      new_message q.id (group_of queue msg) msg.body (lib.marshal_attributes msg.message_attributes)
        r

  -- The message is new, and stands behind the others in the queue of that row; or its deduplication
  -- id is in use, no message is added and the answer is the first message's id.
  abbrev pub Added : Message → List MessageRow → Type 0
  Added answered after =
      (answered.body ≡ msg.body)
      × ((answered.id ≡ format r.next_message) × (after ≡ r.messages ++ new_row ∷ [])
          ⊎ (after ≡ r.messages)
            × (d : DedupRow) × (entry q.id (dedup_id_of lib queue msg) r ≡ some d)
            × (answered.id ≡ format d.message_id)
            × (r.now < d.expires_at))

  abbrev Ends : Result Message × Replica → Type 0
  Ends (err e, after) = SameRows after.tables r.tables
  Ends (ok m, after) = Added m after.messages

  answer-Ends :
      (s : Sent) (after : Replica)
      → Leaves q.id
          (group_of queue msg)
          msg.body
          (lib.marshal_attributes msg.message_attributes)
          (dedup_id_of lib queue msg)
          r
          s
          after.messages
      → Ends (answer lib name msg s after)
  unfolding answer trigger
  answer-Ends (fresh id at) after h = (refl, inl (ap format h.0, h.2))
  answer-Ends (duplicate winner) after (h, d, e, w, l) = (refl, inr (h, d, e, ap format (sym w), l))

  continue-Ends :
      (x : Result Sent) (after : Replica)
      → ((e : Err) → x ≡ err e → SameRows after.tables r.tables)
      → ((s : Sent)
          → x ≡ ok s
          → Leaves q.id
              (group_of queue msg)
              msg.body
              (lib.marshal_attributes msg.message_attributes)
              (dedup_id_of lib queue msg)
              r
              s
              after.messages)
      → Ends (continue x (answer lib name msg) after)
  continue-Ends (ok s) after rolls leaves = answer-Ends s after (leaves s refl)
  continue-Ends (err e) after rolls leaves = rolls e refl

  checked-Ends : IsWellFormed r.tables → Ends (send_checked lib name queue msg (cached name q r))
  checked-Ends w = rw (checked-tx lib name msg q r) (
      continue-Ends _ _ (λ e h. transaction-rolls _ (cached name q r) e h)
        (λ s h. tx-Leaves _ _ _ _ _ (cached name q r) s w h))

  pub sized-Ends : IsWellFormed r.tables → Ends (send_sized lib name msg queue (cached name q r))
  unfolding send_sized
  sized-Ends w = elim (Bool-cases (ltb_ℤ (max_size queue) (pos (length msg.body)))) [
    | inl large ↦ rw large same
    | inr fits ↦ rw fits (checked-Ends w)
  ]

module _ (lib : Lib) (name : Text) (msg : Message) (r : Replica) (w : IsWellFormed r.tables) where
  -- An error leaves the rows of every table as they were. A success has found the queue, whatever
  -- the caches said, and has added the message to it or found its deduplication id in use.
  abbrev pub Sends : Result Message × Replica → Type 0
  Sends (err e, after) = SameRows after.tables r.tables
  Sends (ok m, after) =
      (q : QueueRow) × (queue_named name r.tables ≡ some q)
      × Added lib name msg q r m after.messages

  sends :
      (q : QueueRow) (out : Result Message × Replica)
      → queue_named name r.tables ≡ some q
      → Ends lib name msg q r out
      → Sends out
  sends q (ok m, after) e h = (q, e, h)
  sends q (err x, after) e h = h

  found-Sends :
      (o : Option QueueRow)
      → queue_named name r.tables ≡ o
      → Sends (continue (get_row lib name o r).0 (send_sized lib name msg) (get_row lib name o r).1)
  unfolding get_row cache_queue
  found-Sends none e = same
  found-Sends (some q) e = sends q _ e (sized-Ends lib name msg q r w)

  pub send_message-Sends : Sends (send_message lib name (some msg) r)
  unfolding send_message get_queue query
  send_message-Sends = elim (Bool-cases (is_empty msg.body)) [
    | inl empty ↦ rw empty same
    | inr body ↦ elim (Bool-cases (r.refuses Statement.select_queue)) [
      | inl refused ↦ rw (body, refused) same
      | inr found ↦ rw (body, found) (found-Sends _ refl)
    ]
  ]
