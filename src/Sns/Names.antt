-- ===== src/Sns/Names.antt =====
-- The ARNs that the service of shim/internal/sns/service.go gives out, over Postgres.
use dropin_queue.Base.{
  ℕ, ◌≡◌, refl, Bool, true, Option, none, some, List, [], ◌∷◌, arith, Text, is_empty, Without,
  Bool-cases, inl, inr, find, text_eq_refl, ◌++◌,
}
use dropin_queue.Types.{Subscription}
use dropin_queue.Storage.{Result, ok, err}
use dropin_queue.Protocol.Arn.{resource_name_from_arn, name-sns}
use dropin_queue.Sns.Validation.{is_valid_topic_name, valid_topic-Without}
use dropin_queue.Sns.Service.{Service, CreateTopicParams, create_topic}
use dropin_queue.Postgres.Tables.{TopicRow, Replica, Lib, Statement, exec}
use dropin_queue.Postgres.Topics.{
  cache_topic, topic_named, topic_or_new, insert_topic_found, new_topic,
}
use dropin_queue.Postgres.Topics as Topics
use dropin_queue.Postgres.Backend.{topic_backend}

-- The topic is in the database, under the name that the ARN holds.
abbrev pub Names : Text → Result Text × Replica → Type 0
Names name (err e, after) = Unit {0}
Names name (ok arn, after) =
    (resource_name_from_arn arn ≡ name) × (t : TopicRow) × (topic_named name after.tables ≡ some t)

find-last :
    {A : Type 0} (p : A → Bool) (xs : List A) (x : A)
    → find p xs ≡ none
    → p x ≡ true
    → find p (xs ++ x ∷ []) ≡ some x
find-last p [] x h e = ground (arith, e)
find-last p (y ∷ ys) x h e = ground (arith, h, e, find-last p ys x)

inserted_named :
    (name : Text) (r : Replica) (found : Option TopicRow)
    → topic_named name r.tables ≡ found
    → (t : TopicRow) × (topic_named name (insert_topic_found name r found) ≡ some t)
inserted_named name r (some row) h = (row, h)
inserted_named name r none h =
    (new_topic name r, find-last _ r.topics (new_topic name r) h (text_eq_refl name))

-- CreateTopic over Postgres, whatever fails: the ARN of an answer is read back as the name that was
-- asked for, and a topic of that name is in the database. The account and the region have no colon.
pub create_topic-Names :
    (lib : Lib) (nanos : ℕ) (schedule : List Subscription → List Subscription) (s : Service)
    (p : CreateTopicParams) (r : Replica)
    → Without b':' s.region
    → Without b':' s.account_id
    → Names p.name (create_topic (topic_backend lib nanos schedule) s (some p) r)
unfolding create_topic topic_backend Topics.create_topic exec cache_topic
create_topic-Names lib nanos schedule s p r region account = elim (Bool-cases (is_empty p.name)) [
  | inl empty ↦ rw empty tt
  | inr given ↦ elim (Bool-cases (is_valid_topic_name p.name)) [
    | inr bad ↦ rw (given, bad) tt
    | inl good ↦ elim (Bool-cases (r.refuses Statement.insert_topic)) [
      | inl refused ↦ rw (given, good, refused) tt
      | inr done ↦
          let (t, found) = inserted_named p.name r (topic_named p.name r.tables) refl in
          rw (given, good, done)
            (
              name-sns s.region s.account_id p.name region account
                  (valid_topic-Without p.name good),
              t,
              found,
            )
    ]
  ]
]
