-- ===== src/Nats/Headers/Keys.antt =====
-- The keys of the headers that messageHeaders of shim/internal/storage/nats/messages.go makes.
use dropin_queue.Base.{
  ℕ, IsGoMap, lookup-insert, text_eq_iff, text_eq-append, text_eq→eq, ap, sym, subst, ◌∙◌, refl,
  ◌≡◌, ◌≢◌, Bool, true, false, not, none, [], ◌∷◌, ◌++◌, length, Text, codes, text_eq, has_prefix,
  has_suffix, Map, lookup, insert, drop, arith, Bool-cases, inl, inr, length-append,
}
use dropin_queue.Nats.Headers.{value_key, type_key}

-- Assigning keeps the keys of a map distinct.
pub insert-IsGoMap :
    {V : Type 0} (k : Text) (v : V) (m : Map V) → IsGoMap m → IsGoMap (insert k v m)
unfolding insert lookup
insert-IsGoMap k v [] h = (refl, tt)
insert-IsGoMap k v ((j, w) ∷ m) h = elim (Bool-cases (text_eq j k)) [
  | inl same ↦ rw same (subst (λ i. lookup i m ≡ none) ((text_eq_iff j k).0 same) h.0, h.1)
  | inr differ ↦ rw differ (
    ground (arith, lookup-insert k j v m, h.0, text_eq_iff j k, text_eq_iff k j, differ),
    insert-IsGoMap k v m h.1,
  )
]

-- A text with something before it is longer.
not-append : (s t : Text) (c : ℕ) → s ≢ c ∷ (t ++ s)
not-append s t c e = absurd (omega (arith, ap length e, length-append t s))

append-right : (s a b : Text) → a ++ s ≡ b ++ s → a ≡ b
append-right s [] [] e = refl
append-right s [] (c ∷ b) e = absurd (not-append s b c e)
append-right s (c ∷ a) [] e = absurd (not-append s a c (sym e))
append-right s (c ∷ a) (d ∷ b) e = ground (arith, append-right s a b, e)

pub text_eq-suffix : (s a b : Text) → text_eq (a ++ s) (b ++ s) ≡ text_eq a b
text_eq-suffix s a b =
    ground (arith, text_eq_iff (a ++ s) (b ++ s), text_eq_iff a b, append-right s a b)

suffix_dt : (s : Text) → has_suffix (codes "-dt") (s ++ codes "-dt") ≡ true
unfolding has_suffix text_eq
suffix_dt [] = refl
suffix_dt (c ∷ s) = ground (arith, suffix_dt s)

-- The key of the attribute's value does not look like the key of a type: the name is not dt, and
-- does not end in -dt.
abbrev pub is_plain : Text → Bool
is_plain name = not (has_suffix (codes "-dt") (value_key name))

pub prefix_split : (p s : Text) → has_prefix p s ≡ true → p ++ drop (length p) s ≡ s
unfolding has_prefix
prefix_split [] s h = refl
prefix_split (c ∷ p) [] h = absurd (cc h)
prefix_split (c ∷ p) (d ∷ s) h = ground (arith, h, prefix_split p s)

pub has_prefix-append : (p s : Text) → has_prefix p (p ++ s) ≡ true
unfolding has_prefix
has_prefix-append [] s = refl
has_prefix-append (c ∷ p) s = ground (arith, has_prefix-append p s)

pub value_value : (m n : Text) → text_eq (value_key m) (value_key n) ≡ text_eq m n
value_value m n = text_eq-append (codes "X-Sqs-Atr-") m n

pub type_type : (m n : Text) → text_eq (type_key m) (type_key n) ≡ text_eq m n
type_type m n = text_eq-suffix (codes "-dt") (value_key m) (value_key n) ∙ value_value m n

not_type :
    (k s : Text) → not (has_suffix (codes "-dt") s) ≡ true → text_eq (k ++ codes "-dt") s ≡ false
not_type k s h = elim (Bool-cases (text_eq (k ++ codes "-dt") s)) [
  | inl same ↦
      ground (
        arith,
        ap (has_suffix (codes "-dt")) (text_eq→eq (k ++ codes "-dt") s same),
        suffix_dt k,
        h,
      )
  | inr differ ↦ differ
]

pub type_value : (m n : Text) → is_plain n ≡ true → text_eq (type_key m) (value_key n) ≡ false
type_value m n h = not_type (value_key m) (value_key n) h

pub value_type : (m n : Text) → is_plain m ≡ true → text_eq (value_key m) (type_key n) ≡ false
value_type m n h = ground (
  arith,
  not_type (value_key n) (value_key m) h,
  text_eq_iff (value_key m) (type_key n),
  text_eq_iff (type_key n) (value_key m),
)
