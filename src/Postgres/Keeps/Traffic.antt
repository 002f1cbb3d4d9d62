-- ===== src/Postgres/Keeps/Traffic.antt =====
-- The message calls of the Postgres adapter and its reaper keep what the statements keep.
use dropin_queue.Base.{
  ℕ, ◌≡◌, refl, not, ◌||◌, Option, none, some, [], ℤ, pos, Text, arith, is_empty, ltb_ℤ, to_ℕ,
}
use dropin_queue.Types.{Queue, Message}
use dropin_queue.Storage.{Op, invalid_argument, ◌>>=◌}
use dropin_queue.Postgres.Tables.{Replica, QueueIdent, Lib, Statement, after_secs}
use dropin_queue.Postgres.Receipts.{decode_receipt_handle}
use dropin_queue.Postgres.Messages.{
  claimed_by, shown, handle_or_fail, uuid_or_fail, delete_message, change_message_visibility,
  queue_depth,
}
use dropin_queue.Postgres.Messages.Send.{send_checked, send_sized, send_message}
use dropin_queue.Postgres.Messages.Claim.{claim}
use dropin_queue.Postgres.LongPoll.{poll, receive_message, clamp, visibility}
use dropin_queue.Postgres.Reaper.{retained, reap_dedup, reap_messages, reap_once}
use dropin_queue.Postgres.Keeps.{
  Keeps, Keeps-pure, Keeps-fail, Keeps-if, Keeps-query, Keeps-exec, Keeps-bind, Keeps-transaction,
}
use dropin_queue.Postgres.Keeps.Calls.{
  IsSendClosed, IsClosed, resolve-Keeps, get_queue-Keeps, send_tx-Keeps, answer-Keeps,
  send_tx-Grows,
}

module _ (P : Replica → Type 0) where
  handle-Keeps :
      {A : Type 0} (o : Option (ℤ × Text)) (f : ℤ × Text → Op Replica A)
      → ((h : ℤ × Text) → o ≡ some h → Keeps P (f h))
      → Keeps P (handle_or_fail o >>= f)
  handle-Keeps none f k = Keeps-fail _
  handle-Keeps (some h) f k = record { at = (k h refl).at }

  uuid-Keeps : (u : Option ℕ) → Keeps P (uuid_or_fail u)
  uuid-Keeps none = Keeps-fail _
  uuid-Keeps (some u) = Keeps-pure _

module _ (lib : Lib) (P : Replica → Type 0) (c : IsSendClosed lib P) where
  send_checked-Keeps :
      (name : Text) (q : Queue) (msg : Message) → Keeps P (send_checked lib name q msg)
  unfolding send_checked
  send_checked-Keeps name q msg = Keeps-bind _ _ (resolve-Keeps lib P c name) (λ qid.
      Keeps-bind _ _
        (Keeps-transaction _ (send_tx-Keeps lib P c _ _ _ _ _) (send_tx-Grows _ _ _ _ _) c.backs)
        (λ sent. answer-Keeps lib P c name msg sent))

  send_sized-Keeps : (name : Text) (msg : Message) (q : Queue) → Keeps P (send_sized lib name msg q)
  unfolding send_sized
  send_sized-Keeps name msg q = Keeps-if _ _ _ (Keeps-fail _) (send_checked-Keeps name q msg)

  pub send_message-Keeps :
      (name : Text) (msg : Option Message) → Keeps P (send_message lib name msg)
  unfolding send_message
  send_message-Keeps name none = Keeps-fail _
  send_message-Keeps name (some msg) =
      Keeps-if _ _ _ (Keeps-fail _)
        (Keeps-bind _ _ (get_queue-Keeps lib P c name) (send_sized-Keeps name msg))

module _ (lib : Lib) (P : Replica → Type 0) (c : IsClosed lib P) where
  pub claim-Keeps : (q : QueueIdent) (max timeout : ℤ) → Keeps P (claim lib q max timeout)
  unfolding claim
  claim-Keeps q max timeout = record {
    at = λ r h. ground (arith, h, c.claims q.id (to_ℕ max) timeout r h);
  }

  pub delete_message-Keeps : (name handle : Text) → Keeps P (delete_message lib name handle)
  unfolding delete_message
  delete_message-Keeps name handle = Keeps-if (is_empty handle) _ _ (Keeps-fail invalid_argument) (
      handle-Keeps P (decode_receipt_handle handle) _ (λ h e.
        Keeps-bind _ _ (resolve-Keeps lib P c.sending name) (λ q.
          Keeps-bind _ _ (uuid-Keeps P (lib.parse_uuid h.1)) (λ uuid.
            Keeps-exec Statement.delete_message _ _
              (c.drops (λ m. not (claimed_by h.0 uuid q.id m)))))))

  -- Also needed: that the property survives the change of a message's visibility.
  pub change-Keeps :
      (name handle : Text) (timeout : ℤ)
      → ((id : ℤ) (token : Text) (uuid queue : ℕ)
          → decode_receipt_handle handle ≡ some (id, token)
          → (r : Replica) → P r
          → P (record r {
            tables = record r.tables {
              messages = shown id uuid queue (after_secs r.now timeout) r.messages;
            };
          }))
      → Keeps P (change_message_visibility lib name handle timeout)
  unfolding change_message_visibility
  change-Keeps name handle timeout shows =
      Keeps-if (is_empty handle) _ _ (Keeps-fail invalid_argument) (
        Keeps-if (ltb_ℤ timeout (pos 0) || ltb_ℤ (pos 43200) timeout) _ _
          (Keeps-fail invalid_argument)
          (handle-Keeps P (decode_receipt_handle handle) _ (λ h e.
            Keeps-bind _ _ (resolve-Keeps lib P c.sending name) (λ q.
              Keeps-bind _ _ (uuid-Keeps P (lib.parse_uuid h.1))
                (λ uuid. Keeps-exec Statement.update_visibility _ _ (shows h.0 h.1 uuid q.id e))))))

  pub queue_depth-Keeps : (name : Text) → Keeps P (queue_depth name)
  unfolding queue_depth
  queue_depth-Keeps name =
      Keeps-bind _ _ (resolve-Keeps lib P c.sending name) (λ q. Keeps-query _ _)

  reap_dedup-Keeps : Keeps P reap_dedup
  unfolding reap_dedup
  reap_dedup-Keeps = Keeps-exec _ _ _ c.reaps

  reap_messages-Keeps : Keeps P reap_messages
  unfolding reap_messages
  reap_messages-Keeps = Keeps-exec _ _ _ (λ r. c.drops (retained r) r)

  pub reap_once_keeps : (r : Replica) → P r → P (reap_once r)
  unfolding reap_once
  reap_once_keeps r h = reap_messages-Keeps.at _ (reap_dedup-Keeps.at r h)

  pub poll-Keeps :
      (q : QueueIdent) (max timeout wait : ℤ) → Keeps P (poll lib q max timeout wait [])
  unfolding poll
  poll-Keeps q max timeout wait = Keeps-bind _ _ (claim-Keeps q max timeout) (λ msgs. Keeps-pure _)

  -- Up to its first wait.
  pub receive_message-Keeps :
      (name : Text) (max wait timeout : ℤ) → Keeps P (receive_message lib name max wait timeout [])
  unfolding receive_message
  receive_message-Keeps name max wait timeout =
      Keeps-bind _ _ (get_queue-Keeps lib P c.sending name) (λ q.
        Keeps-bind _ _ (resolve-Keeps lib P c.sending name) (λ qid.
          poll-Keeps qid (clamp (pos 1) (pos 10) max) (visibility timeout q)
            (clamp (pos 0) (pos 20) wait)))
