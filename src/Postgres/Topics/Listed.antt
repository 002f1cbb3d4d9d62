-- ===== src/Postgres/Topics/Listed.antt =====
-- DeleteTopic and ListSubscriptions of shim/internal/storage/postgres/topics.go: the subscriptions
-- that are listed after a topic was deleted.
use dropin_queue.Base.{
  sort_by, ℕ, ◌==◌, ◌≡◌, refl, sym, ap, ◌∙◌, Bool, true, false, ◌&&◌, ◌||◌, not, List, [], ◌∷◌, map,
  arith, Text, text_eq, text_eq_iff, is_empty, if◌then◌else◌, Bool-cases, inl, inr, select, any,
}
use dropin_queue.Types.{Subscription}
use dropin_queue.Storage.{ok}
use dropin_queue.Postgres.Tables.{
  TopicRow, SubscriptionRow, Tables, Replica, Statement, exec, query,
}
use dropin_queue.Postgres.Topics.{
  joined, cascade_topic, delete_topic, list_subscriptions, row_subscription, invalidate_topic_cache,
}

-- Ids are a primary key.
abbrev pub IsKeyed : List TopicRow → Type 0
IsKeyed [] = Unit {0}
IsKeyed (t ∷ ts) = (any (λ (u : TopicRow). u.id == t.id) ts ≡ false) × IsKeyed ts

abbrev gone : Text → List TopicRow → ℕ → Bool
gone name ts id = any (λ t. text_eq t.name name && (t.id == id)) ts

abbrev kept : Text → List TopicRow → List TopicRow
kept name ts = select (λ t. not (text_eq t.name name)) ts

any-id-named :
    (ts : List TopicRow) (p : TopicRow → Bool) (id : ℕ)
    → any (λ (u : TopicRow). u.id == id) ts ≡ false
    → any (λ (u : TopicRow). (u.id == id) && p u) ts ≡ false
any-id-named [] p id h = refl
any-id-named (t ∷ ts) p id h = ground (arith, h, any-id-named ts p id)

gone-none :
    (ts : List TopicRow) (name : Text) (id : ℕ)
    → any (λ (u : TopicRow). u.id == id) ts ≡ false
    → gone name ts id ≡ false
gone-none [] name id h = refl
gone-none (t ∷ ts) name id h = ground (arith, h, gone-none ts name id)

joined-not-gone :
    (ts : List TopicRow) (name other : Text) (s : SubscriptionRow)
    → is_empty other ≡ false
    → text_eq name other ≡ false
    → IsKeyed ts
    → joined other ts s ≡ true
    → not (gone name ts s.topic_id) ≡ true
joined-not-gone [] name other s e d k h = absurd (cc h)
joined-not-gone (t ∷ ts) name other s e d k h = elim (Bool-cases (t.id == s.topic_id)) [
  | inl same ↦
      let alone : any (λ (u : TopicRow). u.id == s.topic_id) ts ≡ false =
        ground (arith, same, k.0) in
      let named : text_eq t.name other ≡ true = ground (
        arith,
        h,
        e,
        any-id-named ts (λ t. is_empty other || text_eq t.name other) s.topic_id alone,
      ) in
      ground (
        arith,
        d,
        (text_eq_iff t.name other).0 named,
        text_eq_iff t.name name,
        text_eq_iff name other,
        gone-none ts name s.topic_id alone,
      )
  | inr differs ↦ ground (arith, differs, h, joined-not-gone ts name other s e d k.1)
]

joined-kept :
    (ts : List TopicRow) (name other : Text) (s : SubscriptionRow)
    → is_empty other ≡ false
    → joined other (kept name ts) s ≡ (if text_eq name other then false else joined other ts s)
joined-kept [] name other s e = ground arith
joined-kept (t ∷ ts) name other s e = ground (
  arith,
  e,
  text_eq_iff t.name name,
  text_eq_iff t.name other,
  text_eq_iff name other,
  joined-kept ts name other s e,
)

module _ {A : Type 0} (p q k : A → Bool) where
  select-none : ((a : A) → p a ≡ false) → (xs : List A) → select p xs ≡ []
  select-none h [] = refl
  select-none h (a ∷ xs) = ground (arith, h a, select-none h xs)

  select-select :
      ((a : A) → p a ≡ q a)
      → ((a : A) → q a ≡ true → k a ≡ true)
      → (xs : List A) → select p (select k xs) ≡ select q xs
  select-select h i [] = refl
  select-select h i (a ∷ xs) = ground (arith, h a, i a, select-select h i xs)

listed-cascade :
    (name other : Text) (t : Tables)
    → is_empty other ≡ false
    → IsKeyed t.topics
    → select (joined other (cascade_topic name t).topics) (cascade_topic name t).subscriptions
      ≡ (if text_eq name other then [] else select (joined other t.topics) t.subscriptions)
unfolding cascade_topic
listed-cascade name other t e k = elim (Bool-cases (text_eq name other)) [
  | inl same ↦
      let none_joined : (s : SubscriptionRow) → joined other (kept name t.topics) s ≡ false = λ s.
        joined-kept t.topics name other s e
        ∙ ap (λ b. if b then false else joined other t.topics s) same in
      select-none (joined other (kept name t.topics)) (λ s. true) (λ s. true) none_joined
        (select (λ s. not (gone name t.topics s.topic_id)) t.subscriptions)
      ∙ sym (ap (λ b. if b then [] else select (joined other t.topics) t.subscriptions) same)
  | inr differs ↦
      select-select (joined other (kept name t.topics)) (joined other t.topics)
        (λ s. not (gone name t.topics s.topic_id))
        (λ s.
          joined-kept t.topics name other s e
          ∙ ap (λ b. if b then false else joined other t.topics s) differs)
        (λ s. joined-not-gone t.topics name other s e differs k) t.subscriptions
      ∙ sym (ap (λ b. if b then [] else select (joined other t.topics) t.subscriptions) differs)
]

sorted-if :
    (b : Bool) (rows : List SubscriptionRow)
    → map row_subscription (sort_by (λ s. s.arn) (if b then [] else rows))
      ≡ (if b then [] else map row_subscription (sort_by (λ s. s.arn) rows))
unfolding sort_by
sorted-if true rows = refl
sorted-if false rows = refl

-- Once a DeleteTopic has succeeded, ListSubscriptions of that topic's name lists nothing, and of
-- another topic's name what it listed before, in the same order; the ids of the topics are distinct.
pub delete_topic-list :
    (name other : Text) (r : Replica) (before after : List Subscription)
    → is_empty other ≡ false
    → IsKeyed r.topics
    → (delete_topic name r).0 ≡ ok tt
    → (list_subscriptions other r).0 ≡ ok before
    → (list_subscriptions other (delete_topic name r).1).0 ≡ ok after
    → after ≡ (if text_eq name other then [] else before)
unfolding delete_topic list_subscriptions exec query invalidate_topic_cache
delete_topic-list name other r before after e k d b a =
    let listed =
      λ (rows : List SubscriptionRow). map row_subscription (sort_by (λ s. s.arn) rows) in
    let cascaded =
      ap listed (listed-cascade name other r.tables e k)
      ∙ sorted-if (text_eq name other) (select (joined other r.topics) r.subscriptions) in
    elim (Bool-cases (r.refuses Statement.delete_topic)) [
      | inl refused ↦ absurd (ground (arith, refused, d))
      | inr done ↦ elim (Bool-cases (r.refuses Statement.select_subscriptions)) [
        | inl refused ↦ absurd (ground (arith, refused, b))
        | inr answered ↦ ground (arith, done, answered, b, a, cascaded)
      ]
    ]
