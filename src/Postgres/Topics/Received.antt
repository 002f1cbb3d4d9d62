-- ===== src/Postgres/Topics/Received.antt =====
-- Publish of shim/internal/storage/postgres/topics.go puts the message into the queues of its
-- subscriptions.
use dropin_queue.Base.{
  ℕ, ◌≡◌, refl, ap, ◌∙◌, Bool, true, false, Option, none, some, List, [], ◌∷◌, pos, ltb_ℤ, select,
  Text, is_empty, length, lookup, Bool-cases, inl, inr,
}
use dropin_queue.Types.{Message, Subscription}
use dropin_queue.Storage.{Result, ok}
use dropin_queue.Postgres.Tables.{QueueRow, TopicRow, Replica, Lib, Statement, query}
use dropin_queue.Postgres.Queues.{row_queue}
use dropin_queue.Postgres.Messages.Send.{max_size}
use dropin_queue.Postgres.Topics.{
  topic_named, resolve_topic_row, resolve_topic_cached, resolve_topic, list_subscriptions,
}
use dropin_queue.Postgres.Topics.Publish.{is_delivered, publish_listed, published, publish}
use dropin_queue.Postgres.Topics.Reached.{resolve-Recached, list-Recached, delivered-published}
use dropin_queue.Postgres.Topics.Delivers.{Occurs, IsOpen, IsFor, Delivered, fan_out-Delivered}

Occurs-select :
    {A : Type 0} (p : A → Bool) (a : A) (xs : List A)
    → p a ≡ true
    → Occurs a xs
    → Occurs a (select p xs)
Occurs-select p a [] h o = absurd o
Occurs-select p a (x ∷ xs) h (inl e) = rw (ap p e ∙ h) (inl e)
Occurs-select p a (x ∷ xs) h (inr o) = elim (Bool-cases (p x)) [
  | inl taken ↦ rw taken (inr (Occurs-select p a xs h o))
  | inr left ↦ rw left (Occurs-select p a xs h o)
]

-- A schedule that starts every delivery.
abbrev pub IsFair : (List Subscription → List Subscription) → Type 0
IsFair schedule =
    (s : Subscription) (subs : List Subscription) → Occurs s subs → Occurs s (schedule subs)

resolve-ok :
    (name : Text) (t : TopicRow) (id : Option ℕ) (r : Replica)
    → r.refuses Statement.resolve_topic ≡ false
    → topic_named name r.tables ≡ some t
    → (i : ℕ) × ((resolve_topic_cached name id r).0 ≡ ok i)
unfolding resolve_topic_cached resolve_topic_row query
resolve-ok name t (some id) r answered found = (id, refl)
resolve-ok name t none r answered found = (t.id, rw (answered, found) refl)

module _ (lib : Lib) (schedule : List Subscription → List Subscription) (n : Text) (q : QueueRow)
    (msg : Message) (now : ℕ) (body : is_empty msg.body ≡ false) (standard : q.fifo ≡ false)
    (fits : ltb_ℤ (max_size (row_queue lib n q)) (pos (length msg.body)) ≡ false) where
  abbrev pub Arrives : Result Message × Replica → Type 0
  Arrives out =
      ((m : Message) × (out.0 ≡ ok m)) × Delivered lib n q msg now body standard fits out.1

  resolved-Arrives :
      (nanos : ℕ) (name : Text) (subs : List Subscription) (s : Subscription) (i : ℕ) (r : Replica)
      → is_empty n ≡ false
      → IsFair schedule
      → Occurs s subs
      → IsFor lib n q msg now body standard fits s
      → is_delivered lib msg s ≡ true
      → IsOpen lib n q msg now body standard fits r
      → list_subscriptions name r ≡ (ok subs, r)
      → Arrives (
        ok (published lib schedule nanos msg i),
        publish_listed lib schedule
            (published lib schedule nanos msg i)
            (list_subscriptions name r).0
            (list_subscriptions name r).1,
      )
  unfolding publish_listed
  resolved-Arrives nanos name subs s i r named fair o for d h l = (
    (published lib schedule nanos msg i, refl),
    rw l (
        fan_out-Delivered lib n q (published lib schedule nanos msg i) now body standard fits s _ r
          named for
          (fair s _ (Occurs-select _ s subs (delivered-published lib schedule nanos i msg s ∙ d) o))
          (record { wellformed = h.wellformed; ready = h.ready })),
  )

  -- If the database refuses no statement and every delivery starts, Publish to a topic that exists
  -- answers a message and puts it, visible from now on, into the queue of each subscription that is
  -- confirmed, matches the message, has the protocol sqs and names the queue in its endpoint, among
  -- whichever other subscriptions and deliveries. The queue is a standard one, and the message is
  -- not empty and within its maximum size.
  pub publish-Delivered :
      (nanos : ℕ) (name : Text) (t : TopicRow) (subs : List Subscription) (s : Subscription)
      (r : Replica)
      → is_empty n ≡ false
      → IsFair schedule
      → Occurs s subs
      → IsFor lib n q msg now body standard fits s
      → is_delivered lib msg s ≡ true
      → IsOpen lib n q msg now body standard fits r
      → topic_named name r.tables ≡ some t
      → (list_subscriptions name r).0 ≡ ok subs
      → Arrives (publish lib schedule nanos name (some msg) r)
  unfolding publish resolve_topic
  publish-Delivered nanos name t subs s r named fair o for d h found l =
      let id = lookup name r.topic_cache in
      let (i, resolved) = resolve-ok name t id r (h.ready.1 Statement.resolve_topic) found in
      let (c, same) = resolve-Recached name id r in
      rw (resolved, same)
        (resolved-Arrives nanos name subs s i (record r { topic_cache = c }) named fair o for d
          (record { wellformed = h.wellformed; ready = h.ready })
          (list-Recached name c r ∙ ap (λ x. (x, record r { topic_cache = c })) l))
