-- ===== src/Postgres/FilterPolicy.antt =====
-- matchesFilterPolicy of shim/internal/storage/postgres/topics.go. A policy is a Go map, whose keys
-- are distinct and which a loop visits in any order.
use dropin_queue.Base.{
  IsGoMap, ◌≡◌, ◌↔◌, refl, sym, ◌∙◌, Bool, true, false, Option, none, some, List, [], ◌∷◌, arith,
  any, Text, text_eq, text_eq_iff, is_empty, Map, lookup, if◌then◌else◌, Bool-cases, inl, inr,
}
use dropin_queue.Types.{Message}
use dropin_queue.Postgres.Tables.{Lib}

-- The value of a message attribute, or of a system attribute of that name.
unfoldable pub attribute_value : Message → Text → Option Text
unfolding lookup
attribute_value msg name = elim (lookup name msg.message_attributes) [
  | some a ↦ some a.string_value
  | none ↦ lookup name msg.attributes
]

abbrev allows : List Text → Option Text → Bool
allows allowed none = false
allows allowed (some actual) = any (λ v. text_eq v actual) allowed

unfoldable pub matches_policy : Map (List Text) → Message → Bool
unfolding attribute_value
matches_policy [] msg = true
matches_policy ((name, allowed) ∷ policy) msg =
    let rest = matches_policy policy msg in
    if allows allowed (attribute_value msg name) then rest else false

abbrev pub parsed : Option (Map (List Text)) → Message → Bool
parsed none msg = true
parsed (some policy) msg = matches_policy policy msg

-- A policy that is empty or does not parse lets every message through.
unfoldable pub matches_filter_policy : Lib → Text → Message → Bool
unfolding matches_policy
matches_filter_policy lib policy msg =
    if is_empty policy then true else parsed (lib.unmarshal_policy policy) msg

-- The message has the attribute, with one of the values that the policy allows.
abbrev pub Accepts : Message → Text → List Text → Type 0
Accepts msg name allowed =
    (v : Text) × (attribute_value msg name ≡ some v) × (any (λ a. text_eq a v) allowed ≡ true)

allows-some :
    (allowed : List Text) (o : Option Text)
    → allows allowed o ≡ true
    → (v : Text) × (o ≡ some v) × (any (λ a. text_eq a v) allowed ≡ true)
allows-some allowed none h = absurd (cc h)
allows-some allowed (some v) h = (v, refl, h)

matches-Accepts :
    (policy : Map (List Text)) (msg : Message) (name : Text) (allowed : List Text)
    → matches_policy policy msg ≡ true
    → lookup name policy ≡ some allowed
    → allows allowed (attribute_value msg name) ≡ true
unfolding matches_policy lookup
matches-Accepts [] msg name allowed h l = absurd (cc l)
matches-Accepts ((k, v) ∷ policy) msg name allowed h l = elim (Bool-cases (text_eq k name)) [
  | inl same ↦ ground (arith, (text_eq_iff k name).0 same, same, l, h)
  | inr other ↦
      matches-Accepts policy msg name allowed (ground (arith, h)) (ground (arith, other, l))
]

Accepts-matches :
    (policy : Map (List Text)) (msg : Message)
    → IsGoMap policy
    → ((name : Text) (allowed : List Text)
        → lookup name policy ≡ some allowed
        → Accepts msg name allowed)
    → matches_policy policy msg ≡ true
unfolding matches_policy lookup
Accepts-matches [] msg d f = refl
Accepts-matches ((k, v) ∷ policy) msg d f =
    let (x, e, a) = f k v (ground (arith, (text_eq_iff k k).1 refl)) in
    let rest : matches_policy policy msg ≡ true = Accepts-matches policy msg d.1 (λ name allowed l.
      f name allowed (elim (Bool-cases (text_eq k name)) [
        | inl same ↦ absurd (ground (arith, (text_eq_iff k name).0 same, d.0, l))
        | inr other ↦ ground (arith, other, l)
      ])) in
    ground (arith, e, a, rest)

-- A message matches a policy that parses exactly if, for every name in the policy, it has an
-- attribute of that name with an allowed value, whatever the order of the loop over the policy.
pub matches_filter_policy_iff :
    (lib : Lib) (text : Text) (policy : Map (List Text)) (msg : Message)
    → is_empty text ≡ false
    → lib.unmarshal_policy text ≡ some policy
    → IsGoMap policy
    → (matches_filter_policy lib text msg ≡ true) ↔ (
        (name : Text) (allowed : List Text)
        → lookup name policy ≡ some allowed
        → Accepts msg name allowed)
unfolding matches_filter_policy
matches_filter_policy_iff lib text policy msg e p d =
    let same : matches_filter_policy lib text msg ≡ matches_policy policy msg =
      ground (arith, e, p) in
    (
      λ h name allowed l.
          allows-some allowed (attribute_value msg name)
            (matches-Accepts policy msg name allowed (sym same ∙ h) l),
      λ f. same ∙ Accepts-matches policy msg d f,
    )
