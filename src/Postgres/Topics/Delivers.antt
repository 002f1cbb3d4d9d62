-- ===== src/Postgres/Topics/Delivers.antt =====
-- Publish of shim/internal/storage/postgres/topics.go: a queue that it reaches.
use dropin_queue.Base.{
  ℕ, ◌≡◌, ◌⊎◌, refl, ap, ◌∙◌, leb, ◌==◌, Bool, true, false, ◌&&◌, ◌||◌, some, List, [], ◌∷◌, ◌++◌,
  arith, pos, ltb_ℤ, any, Text, codes, text_eq, text_eq_refl, is_empty, length, Bool-cases, inl,
  inr,
}
use dropin_queue.Types.{Message, Subscription}
use dropin_queue.Storage.{Result, ok, err}
use dropin_queue.Protocol.Arn.{queue_name_from_url}
use dropin_queue.Postgres.Tables.{QueueRow, MessageRow, Replica, Lib, Statement, exec, query}
use dropin_queue.Postgres.Queues.{queue_named, row_queue, get_queue, get_row, cache_queue}
use dropin_queue.Postgres.Messages.Send.{
  new_message, max_size, send_message, send_sized, transaction, commit, send_tx, answer, trigger,
}
use dropin_queue.Postgres.Keeps.Calls.{IsSendClosed}
use dropin_queue.Postgres.Keeps.Traffic.{send_message-Keeps}
use dropin_queue.Postgres.Steps.{sends, run}
use dropin_queue.Postgres.WellFormed.{IsWellFormed}
use dropin_queue.Postgres.WellFormed.Runs.{run-IsWellFormed}
use dropin_queue.Postgres.Sending.{checked-tx}
use dropin_queue.Postgres.Sending.Outcome.{Sends, send_message-Sends}
use dropin_queue.Postgres.Topics.Publish.{delivery, deliver_to_subscription, fan_out}

any-append :
    {A : Type 0} (p : A → Bool) (xs ys : List A) → any p (xs ++ ys) ≡ (any p xs || any p ys)
any-append p [] ys = refl
any-append p (x ∷ xs) ys = ground (arith, any-append p xs ys)

abbrev pub Occurs : {A : Type 0} → A → List A → Type 0
Occurs a [] = ⊥
Occurs a (x ∷ xs) = (x ≡ a) ⊎ Occurs a xs

-- A queue with its row, and a message that it takes.
module _ (lib : Lib) (n : Text) (q : QueueRow) (msg : Message) (now : ℕ)
    (body : is_empty msg.body ≡ false) (standard : q.fifo ≡ false)
    (fits : ltb_ℤ (max_size (row_queue lib n q)) (pos (length msg.body)) ≡ false) where
  -- The message, in the queue and visible.
  abbrev pub is_delivery : MessageRow → Bool
  is_delivery m = (m.queue_id == q.id) && (text_eq m.body msg.body && leb m.visible_at now)

  abbrev pub IsReady : Replica → Type 0
  IsReady r =
      (queue_named n r.tables ≡ some q) × ((st : Statement) → r.refuses st ≡ false) × (r.now ≡ now)

  IsReady-IsSendClosed : IsSendClosed lib IsReady
  IsReady-IsSendClosed = record {
    caches = λ r c h. h;
    triggers = λ r ts h. h;
    backs = λ a b ha hb g. ha;
    inserts = λ queue group body attributes r h. h;
    upserts = λ queue key id r h. h;
    drops = λ keep r h. h;
  }

  abbrev row : Replica → MessageRow
  row r =
      new_message q.id (codes "default") msg.body (lib.marshal_attributes msg.message_attributes) r

  send-row :
      (r : Replica)
      → IsReady r
      → (send_message lib n (some (delivery msg)) r).1.messages ≡ r.messages ++ row r ∷ []
  unfolding send_message get_queue query get_row cache_queue send_sized transaction commit send_tx
      exec answer trigger
  send-row r (found, answers, at) =
      rw
        (
          send_message,
          body,
          answers Statement.select_queue,
          found,
          fits,
          checked-tx lib n (delivery msg) q r,
          transaction,
          answers Statement.begin_tx,
          answers Statement.insert_message,
          standard,
          answers Statement.commit_tx,
        )
        refl

  row-is_delivery : (r : Replica) → IsReady r → is_delivery (row r) ≡ true
  row-is_delivery r (found, answers, at) = ground (arith, text_eq_refl msg.body, at)

  Sends-any :
      (p : MessageRow → Bool) (name : Text) (m : Message) (r : Replica) (w : IsWellFormed r.tables)
      (out : Result Message × Replica)
      → Sends lib name m r w out
      → any p r.messages ≡ true
      → any p out.1.messages ≡ true
  Sends-any p name m r w (err e, after) h had = ap (any p) h.messages ∙ had
  Sends-any p name m r w (ok a, after) (x, e, (same, inl (id, added))) had =
      ap (any p) added ∙ any-append p r.messages _ ∙ ground (arith, had)
  Sends-any p name m r w (ok a, after) (x, e, (same, inr h)) had = ap (any p) h.0 ∙ had

  pub record IsOpen (r : Replica) : Type 0 where
    pub wellformed : IsWellFormed r.tables
    pub ready : IsReady r

  send-IsOpen :
      (name : Text) (m : Message) (r : Replica)
      → IsOpen r
      → IsOpen (send_message lib name (some m) r).1
  unfolding send_message run
  send-IsOpen name m r h = record {
    wellformed = run-IsWellFormed lib (sends name (some m) ∷ []) r h.wellformed;
    ready = (send_message-Keeps lib IsReady IsReady-IsSendClosed name (some m)).at r h.ready;
  }

  abbrev pub Delivered : Replica → Type 0
  Delivered r = any is_delivery r.messages ≡ true

  -- A delivery leaves the database open, and what was delivered stays.
  record Stays (r after : Replica) : Type 0 where
    pub still_open : IsOpen after
    pub still_there : Delivered r → Delivered after

  deliver-Stays :
      (s : Subscription) (r : Replica) → IsOpen r → Stays r (deliver_to_subscription lib msg s r)
  unfolding deliver_to_subscription
  deliver-Stays s r h = elim (Bool-cases (text_eq s.protocol (codes "sqs"))) [
    | inl sqs ↦ elim (Bool-cases (is_empty (queue_name_from_url s.endpoint))) [
      | inl empty ↦ rw (sqs, empty) (record { still_open = h; still_there = λ d. d })
      | inr given ↦
          rw (sqs, given)
            (record {
              still_open = send-IsOpen _ (delivery msg) r h;
              still_there =
                  Sends-any is_delivery _ (delivery msg) r h.wellformed _
                    (send_message-Sends lib _ (delivery msg) r h.wellformed);
            })
    ]
    | inr other ↦ rw other (record { still_open = h; still_there = λ d. d })
  ]

  fan_out-Stays :
      (subs : List Subscription) (r : Replica) → IsOpen r → Stays r (fan_out lib msg subs r)
  unfolding fan_out
  fan_out-Stays [] r h = record { still_open = h; still_there = λ d. d }
  fan_out-Stays (s ∷ ss) r h =
      let first = deliver-Stays s r h in
      let rest = fan_out-Stays ss (deliver_to_subscription lib msg s r) first.still_open in
      record {
        still_open = rest.still_open;
        still_there = λ d. rest.still_there (first.still_there d);
      }

  -- A subscription of the queue.
  abbrev pub IsFor : Subscription → Type 0
  IsFor s = (text_eq s.protocol (codes "sqs") ≡ true) × (queue_name_from_url s.endpoint ≡ n)

  deliver-Delivered :
      (s : Subscription) (r : Replica)
      → is_empty n ≡ false
      → IsFor s
      → IsOpen r
      → Delivered (deliver_to_subscription lib msg s r)
  unfolding deliver_to_subscription
  deliver-Delivered s r named (sqs, e) h =
      rw (sqs, e, named, send-row r h.ready)
        (any-append is_delivery r.messages (row r ∷ []) ∙ ground (arith, row-is_delivery r h.ready))

  pub fan_out-Delivered :
      (s : Subscription) (subs : List Subscription) (r : Replica)
      → is_empty n ≡ false
      → IsFor s
      → Occurs s subs
      → IsOpen r
      → Delivered (fan_out lib msg subs r)
  unfolding fan_out
  fan_out-Delivered s [] r named for o h = absurd o
  fan_out-Delivered s (x ∷ xs) r named for (inl e) h =
      (fan_out-Stays xs _ (deliver-Stays x r h).still_open).still_there
        (deliver-Delivered x r named (rw e for) h)
  fan_out-Delivered s (x ∷ xs) r named for (inr o) h =
      fan_out-Delivered s xs _ named for o (deliver-Stays x r h).still_open
