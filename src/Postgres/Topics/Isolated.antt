-- ===== src/Postgres/Topics/Isolated.antt =====
-- Publish of shim/internal/storage/postgres/topics.go leaves the queues alone that no subscription
-- which gets the message names.
use dropin_queue.Base.{
  ℕ, ◌<◌, ◌==◌, ◌≡◌, sym, ap, ◌∙◌, true, false, Option, none, some, List, [], ◌∷◌, ◌++◌, map, arith,
  find, select, All, All-append, Text, codes, text_eq, text_eq_iff, is_empty, Bool-cases, inl, inr,
}
use dropin_queue.Types.{Queue, QueueAttributes, Message, Subscription}
use dropin_queue.Storage.{Result, ok, err}
use dropin_queue.Protocol.Arn.{queue_name_from_url}
use dropin_queue.Postgres.Tables.{QueueRow, MessageRow, Tables, Replica, Lib}
use dropin_queue.Postgres.Queues.{queue_named, new_queue, insert_found, update_row}
use dropin_queue.Postgres.Messages.Send.{send_message}
use dropin_queue.Postgres.Keeps.Calls.{IsClosed}
use dropin_queue.Postgres.Keeps.Traffic.{send_message-Keeps}
use dropin_queue.Postgres.Steps.{sends, run}
use dropin_queue.Postgres.WellFormed.{IsWellFormed}
use dropin_queue.Postgres.WellFormed.Runs.{run-IsWellFormed}
use dropin_queue.Postgres.Sending.Outcome.{Sends, send_message-Sends}
use dropin_queue.Postgres.Topics.Publish.{delivery, deliver_to_subscription, fan_out}

-- The messages of a queue id.
abbrev pub of_queue : ℕ → List MessageRow → List MessageRow
of_queue i ms = select (λ (m : MessageRow). m.queue_id == i) ms

abbrev Owns : Text → ℕ → QueueRow → Type 0
Owns n i q = q.id ≡ i → q.name ≡ n

-- The id has been given out, and it is the queue's of that name, if the queue is still there.
abbrev pub IsQueue : Text → ℕ → Tables → Type 0
IsQueue n i t = (i < t.next_queue) × All (Owns n i) t.queues

module _ (lib : Lib) (n : Text) (i : ℕ) where
  insert-IsQueue :
      (q : Queue) (attrs : QueueAttributes) (r : Replica) (found : Option QueueRow)
      → IsQueue n i r.tables
      → IsQueue n i (insert_found lib q attrs r found)
  insert-IsQueue q attrs r (some row) (k, h) = (omega (arith, k), h)
  insert-IsQueue q attrs r none (k, h) = (
    omega (arith, k),
    All-append (Owns n i) r.queues (new_queue lib q attrs r ∷ []) h
        (λ same. absurd (omega (arith, k, same)), tt),
  )

  update-Owns :
      (name : Text) (attrs : QueueAttributes) (qs : List QueueRow)
      → All (Owns n i) qs
      → All (Owns n i) (map (update_row name attrs) qs)
  update-Owns name attrs [] h = tt
  update-Owns name attrs (q ∷ qs) h = elim (Bool-cases (text_eq q.name name)) [
    | inl same ↦ rw same (h.0, update-Owns name attrs qs h.1)
    | inr differs ↦ rw differs (h.0, update-Owns name attrs qs h.1)
  ]

  queue-IsClosed : IsClosed lib (λ r. IsQueue n i r.tables)
  queue-IsClosed = record {
    sending = record {
      caches = λ r c h. h;
      triggers = λ r ts h. h;
      backs = λ a b ha hb g. (hb.0, ha.1);
      inserts = λ queue group body attributes r h. h;
      upserts = λ queue key id r h. h;
      drops = λ keep r h. h;
    };
    inserts_queue = λ q attrs r h. insert-IsQueue q attrs r (queue_named q.name r.tables) h;
    updates = λ name attrs r h. (h.0, update-Owns name attrs r.queues h.1);
    reaps = λ r h. h;
    claims = λ queue limit timeout r h. h;
  }

found-Owns :
    (n name : Text) (i : ℕ) (qs : List QueueRow) (q : QueueRow)
    → find (λ q. text_eq q.name name) qs ≡ some q
    → All (Owns n i) qs
    → text_eq name n ≡ false
    → (q.id == i) ≡ false
found-Owns n name i [] q e h d = absurd (cc e)
found-Owns n name i (p ∷ qs) q e h d = elim (Bool-cases (text_eq p.name name)) [
  | inl same ↦
      let first : p ≡ q = ground (arith, same, e) in
      ground (arith, sym first, h.0, (text_eq_iff p.name name).0 same, text_eq_iff name n, d)
  | inr differs ↦ found-Owns n name i qs q (ground (arith, differs, e)) h.1 d
]

of_queue-last :
    (i : ℕ) (ms : List MessageRow) (m : MessageRow)
    → (m.queue_id == i) ≡ false
    → of_queue i (ms ++ m ∷ []) ≡ of_queue i ms
of_queue-last i [] m h = ground (arith, h)
of_queue-last i (k ∷ ms) m h = ground (arith, of_queue-last i ms m h)

-- A subscription whose deliveries, if any, go to another name.
abbrev pub IsElsewhere : Text → Subscription → Type 0
IsElsewhere n s =
    text_eq s.protocol (codes "sqs") ≡ true → text_eq (queue_name_from_url s.endpoint) n ≡ false

module _ (lib : Lib) (n : Text) (i : ℕ) where
  Sends-others :
      (name : Text) (msg : Message) (r : Replica) (w : IsWellFormed r.tables)
      (out : Result Message × Replica)
      → IsQueue n i r.tables
      → text_eq name n ≡ false
      → Sends lib name msg r w out
      → of_queue i out.1.messages ≡ of_queue i r.messages
  Sends-others name msg r w (err e, after) k d h = ap (of_queue i) h.messages
  Sends-others name msg r w (ok m, after) k d (q, e, (body, inl (id, added))) =
      ap (of_queue i) added ∙ of_queue-last i r.messages _ (found-Owns n name i r.queues q e k.1 d)
  Sends-others name msg r w (ok m, after) k d (q, e, (body, inr h)) = ap (of_queue i) h.0

  pub record Holds (rows : List MessageRow) (r : Replica) : Type 0 where
    pub wellformed : IsWellFormed r.tables
    pub queue : IsQueue n i r.tables
    pub rows_kept : of_queue i r.messages ≡ rows

  send-Holds :
      (name : Text) (msg : Message) (rows : List MessageRow) (r : Replica)
      → text_eq name n ≡ false
      → Holds rows r
      → Holds rows (send_message lib name (some msg) r).1
  unfolding send_message run
  send-Holds name msg rows r d h = record {
    wellformed = run-IsWellFormed lib (sends name (some msg) ∷ []) r h.wellformed;
    queue =
        (send_message-Keeps lib _ (queue-IsClosed lib n i).sending name (some msg)).at r h.queue;
    rows_kept =
        Sends-others name msg r h.wellformed _ h.queue d
          (send_message-Sends lib name msg r h.wellformed)
        ∙ h.rows_kept;
  }

  deliver-Holds :
      (msg : Message) (s : Subscription) (rows : List MessageRow) (r : Replica)
      → IsElsewhere n s
      → Holds rows r
      → Holds rows (deliver_to_subscription lib msg s r)
  unfolding deliver_to_subscription
  deliver-Holds msg s rows r away h = elim (Bool-cases (text_eq s.protocol (codes "sqs"))) [
    | inl sqs ↦ elim (Bool-cases (is_empty (queue_name_from_url s.endpoint))) [
      | inl empty ↦ rw (sqs, empty) h
      | inr given ↦ rw (sqs, given) (send-Holds _ (delivery msg) rows r (away sqs) h)
    ]
    | inr other ↦ rw other h
  ]

  pub fan_out-Holds :
      (msg : Message) (ss : List Subscription) (rows : List MessageRow) (r : Replica)
      → All (IsElsewhere n) ss
      → Holds rows r
      → Holds rows (fan_out lib msg ss r)
  unfolding fan_out
  fan_out-Holds msg [] rows r away h = h
  fan_out-Holds msg (s ∷ ss) rows r away h =
      fan_out-Holds msg ss rows (deliver_to_subscription lib msg s r) away.1
        (deliver-Holds msg s rows r away.0 h)
