-- ===== src/Sqs/FromQuery/Numbered.antt =====
-- The loop over `<name>.1`, `<name>.2`, ... of shim/internal/sqs/service.go ends.
use dropin_queue.Base.{
  text_eq-append, ℕ, zero, suc, ◌+◌, ◌≤◌, ◌<◌, ◌==◌, ◌≡◌, refl, ap, ◌∙◌, Option, none, some, List,
  [], ◌∷◌, ◌++◌, arith, length, Text, text_eq, Map, lookup, delete, lookup-delete, format,
  text_eq-format, Option-cases, inl, inr,
}
use dropin_queue.Protocol.Query.{Values, first}
use dropin_queue.Sqs.FromQuery.{numbered}

length-delete-le : {V : Type 0} (k : Text) (m : Map V) → length (delete k m) ≤ length m
unfolding delete
length-delete-le k [] = omega arith
length-delete-le k ((j, v) ∷ m) = ground (arith, length-delete-le k m)

length-delete-lt :
    {V : Type 0} (k : Text) (m : Map V) (v : V)
    → lookup k m ≡ some v
    → length (delete k m) < length m
unfolding delete lookup
length-delete-lt k [] v h = absurd (cc h)
length-delete-lt k ((j, w) ∷ m) v h = ground (arith, length-delete-le k m, length-delete-lt k m v)

abbrev key : Text → ℕ → Text
key name i = name ++ b'.' ∷ format i

-- The keys from number i on are found in a part of the values.
abbrev Agree : Text → ℕ → Values → Values → Type 0
Agree name i params rest = (j : ℕ) → i ≤ j → lookup (key name j) rest ≡ lookup (key name j) params

text_eq-key : (name : Text) (i j : ℕ) → text_eq (key name i) (key name j) ≡ (i == j)
unfolding text_eq
text_eq-key name i j = text_eq-append name (b'.' ∷ format i) (b'.' ∷ format j) ∙ text_eq-format i j

Agree-delete :
    (name : Text) (i : ℕ) (params rest : Values)
    → Agree name i params rest
    → Agree name (suc i) params (delete (key name i) rest)
Agree-delete name i params rest h j le =
    lookup-delete (key name i) (key name j) rest ∙ rw (text_eq-key name i j) (ground (arith, h j))

first-some :
    (o : Option (List Text)) (v : Text) → first o ≡ some v → (vs : List Text) × (o ≡ some (v ∷ vs))
first-some none v h = absurd (cc h)
first-some (some []) v h = absurd (cc h)
first-some (some (x ∷ xs)) v h = (xs, ground (arith, h))

numbered_more :
    (fuel more : ℕ) (name : Text) (i : ℕ) (params rest : Values)
    → Agree name i params rest
    → length rest < fuel
    → numbered (fuel + more) name i params ≡ numbered fuel name i params
unfolding numbered
numbered_more zero more name i params rest h lt = absurd (omega arith)
numbered_more (suc fuel) more name i params rest h lt =
    let step : suc fuel + more ≡ suc (fuel + more) = omega arith in
    rw step (elim (Option-cases (first (lookup (key name i) params))) [
      | inl missing ↦ rw (missing, numbered) refl
      | inr (v, found) ↦
          let (vs, e) = first-some (lookup (key name i) params) v found in
          rw (found, numbered)
            (ap (λ xs. v ∷ xs)
              (numbered_more fuel more name (suc i) params (delete (key name i) rest)
                (Agree-delete name i params rest h)
                (omega
                  (arith, length-delete-lt (key name i) rest (v ∷ vs) (h i (omega arith) ∙ e)))))
    ])

-- The loop over numbered keys has ended before its fuel has: more fuel finds no more values.
pub numbered-ends :
    (name : Text) (params : Values) (more : ℕ)
    → numbered (suc (length params) + more) name 1 params
      ≡ numbered (suc (length params)) name 1 params
numbered-ends name params more =
    numbered_more (suc (length params)) more name 1 params params (λ j le. refl) (omega arith)
