-- ===== src/Postgres/Topics/Reached.antt =====
-- Publish of shim/internal/storage/postgres/topics.go: which queues it can reach.
use dropin_queue.Base.{
  ℕ, ◌≡◌, refl, ap, Bool, true, Option, none, some, List, [], ◌∷◌, select, sym, ◌∙◌, All,
  All-weaken, Text, Map, lookup, Bool-cases, inl, inr,
}
use dropin_queue.Types.{Message, Subscription}
use dropin_queue.Storage.{Result, ok, err, continue}
use dropin_queue.Postgres.Tables.{TopicRow, MessageRow, Replica, Lib, Statement, query}
use dropin_queue.Postgres.WellFormed.{IsWellFormed}
use dropin_queue.Postgres.FilterPolicy.{
  attribute_value, matches_policy, parsed, matches_filter_policy,
}
use dropin_queue.Postgres.Topics.{
  cache_topic, topic_named, resolve_topic_row, resolve_topic_cached, resolve_topic,
  list_subscriptions,
}
use dropin_queue.Postgres.Topics.Publish.{is_delivered, publish_listed, published, publish}
use dropin_queue.Postgres.Topics.Isolated.{of_queue, IsQueue, IsElsewhere, Holds, fan_out-Holds}

select-All-if :
    {A : Type 0} (p : A → Bool) (Q : A → Type 0) (xs : List A)
    → All (λ a. p a ≡ true → Q a) xs
    → All Q (select p xs)
select-All-if p Q [] h = tt
select-All-if p Q (a ∷ xs) h = elim (Bool-cases (p a)) [
  | inl taken ↦ rw taken (h.0 taken, select-All-if p Q xs h.1)
  | inr left ↦ rw left (select-All-if p Q xs h.1)
]

-- The same state but for the cache of topic ids.
abbrev pub Recached : Replica → Replica → Type 0
Recached r after = (c : Map ℕ) × (after ≡ record r { topic_cache = c })

resolve_row-Recached :
    (name : Text) (row : Option TopicRow) (r : Replica)
    → Recached r (resolve_topic_row name row r).1
unfolding resolve_topic_row cache_topic
resolve_row-Recached name none r = (r.topic_cache, refl)
resolve_row-Recached name (some t) r = (_, refl)

pub resolve-Recached :
    (name : Text) (id : Option ℕ) (r : Replica) → Recached r (resolve_topic_cached name id r).1
unfolding resolve_topic_cached query
resolve-Recached name (some id) r = (r.topic_cache, refl)
resolve-Recached name none r = elim (Bool-cases (r.refuses Statement.resolve_topic)) [
  | inl refused ↦ (r.topic_cache, rw refused refl)
  | inr answered ↦ rw answered (resolve_row-Recached name (topic_named name r.tables) r)
]

pub list-Recached :
    (name : Text) (c : Map ℕ) (r : Replica)
    → list_subscriptions name (record r { topic_cache = c })
      ≡ ((list_subscriptions name r).0, record r { topic_cache = c })
unfolding list_subscriptions query
list-Recached name c r = elim (Bool-cases (r.refuses Statement.select_subscriptions)) [
  | inl refused ↦ rw refused refl
  | inr answered ↦ rw answered refl
]

-- A filter policy reads the message's attributes, which Publish leaves as they are.
module _ (lib : Lib) (schedule : List Subscription → List Subscription) where
  matches-published :
      (nanos topic : ℕ) (msg : Message) (policy : Map (List Text))
      → matches_policy policy (published lib schedule nanos msg topic) ≡ matches_policy policy msg
  unfolding matches_policy attribute_value
  matches-published nanos topic msg [] = refl
  matches-published nanos topic msg ((k, v) ∷ policy) =
      rw (matches-published nanos topic msg policy) refl

  parsed-published :
      (nanos topic : ℕ) (msg : Message) (policy : Option (Map (List Text)))
      → parsed policy (published lib schedule nanos msg topic) ≡ parsed policy msg
  parsed-published nanos topic msg none = refl
  parsed-published nanos topic msg (some policy) = matches-published nanos topic msg policy

  pub delivered-published :
      (nanos topic : ℕ) (msg : Message) (s : Subscription)
      → is_delivered lib (published lib schedule nanos msg topic) s ≡ is_delivered lib msg s
  unfolding is_delivered matches_filter_policy
  delivered-published nanos topic msg s =
      rw (parsed-published nanos topic msg (lib.unmarshal_policy s.filter_policy)) refl

-- A schedule runs deliveries of its list only.
abbrev pub IsSchedule : (List Subscription → List Subscription) → Type 1
IsSchedule schedule =
    (P : Subscription → Type 0) (subs : List Subscription) → All P subs → All P (schedule subs)

module _ (lib : Lib) (schedule : List Subscription → List Subscription) (n : Text) (i : ℕ) where
  listed-Holds :
      (msg : Message) (subs : List Subscription) (rows : List MessageRow) (r : Replica)
      → IsSchedule schedule
      → All (λ s. is_delivered lib msg s ≡ true → IsElsewhere n s) subs
      → Holds lib n i rows r
      → Holds lib n i rows (publish_listed lib schedule msg (ok subs) r)
  unfolding publish_listed
  listed-Holds msg subs rows r sched away h =
      fan_out-Holds lib n i msg (schedule (select (is_delivered lib msg) subs)) rows r
        (sched (IsElsewhere n) (select (is_delivered lib msg) subs)
          (select-All-if (is_delivered lib msg) (IsElsewhere n) subs away))
        h

  resolved-rows :
      (nanos : ℕ) (name : Text) (msg : Message) (subs : List Subscription) (rows : List MessageRow)
      (x : Result ℕ) (r : Replica)
      → IsSchedule schedule
      → All (λ s. is_delivered lib msg s ≡ true → IsElsewhere n s) subs
      → Holds lib n i rows r
      → list_subscriptions name r ≡ (ok subs, r)
      → of_queue i
          (continue x
            (λ topic r. (
              ok (published lib schedule nanos msg topic),
              publish_listed lib schedule
                  (published lib schedule nanos msg topic)
                  (list_subscriptions name r).0
                  (list_subscriptions name r).1,
            ))
            r).1.messages
        ≡ rows
  resolved-rows nanos name msg subs rows (err e) r sched away h l = h.rows_kept
  resolved-rows nanos name msg subs rows (ok topic) r sched away h l =
      rw l
        (listed-Holds (published lib schedule nanos msg topic) subs rows r sched
          (All-weaken _ _
            (λ s f p. f (sym (delivered-published lib schedule nanos topic msg s) ∙ p)) subs away)
          h).rows_kept

  -- Publish, whatever it answers and whatever deliveries run, in whichever order, leaves the messages
  -- of a queue as they are, if the topic's subscriptions can be read and none that is confirmed,
  -- matches the message and has the protocol sqs has the queue's name in its endpoint. The database
  -- is well formed, and the queue's id is that name's.
  pub publish-others :
      (nanos : ℕ) (name : Text) (msg : Message) (subs : List Subscription) (r : Replica)
      → IsSchedule schedule
      → IsWellFormed r.tables
      → IsQueue n i r.tables
      → (list_subscriptions name r).0 ≡ ok subs
      → All (λ s. is_delivered lib msg s ≡ true → IsElsewhere n s) subs
      → of_queue i (publish lib schedule nanos name (some msg) r).1.messages ≡ of_queue i r.messages
  unfolding publish resolve_topic
  publish-others nanos name msg subs r sched w k l away =
      let (c, e) = resolve-Recached name (lookup name r.topic_cache) r in
      resolved-rows nanos name msg subs (of_queue i r.messages)
        (resolve_topic_cached name (lookup name r.topic_cache) r).0
        (resolve_topic_cached name (lookup name r.topic_cache) r).1 sched away
        (rw e (record { wellformed = w; queue = k; rows_kept = refl }))
        (rw e (list-Recached name c r ∙ ap (λ x. (x, record r { topic_cache = c })) l))
