-- ===== src/Base/Bytes.antt =====
-- Go strings as lists of bytes, with the functions of package strings that the program calls.
use Prim.Native.Nat.{ℕ}
use Prim.Native.Char.{code}
use Prim.Native.String.{String}
use mathlib.Core.Path.{◌≡◌, refl}
use mathlib.Core.Logic.{◌≢◌, ◌↔◌}
use mathlib.Core.Bool.{Bool, true, false, ◌&&◌, ◌||◌}
use mathlib.Core.List.{List, [], ◌∷◌, ◌++◌}
use mathlib.Core.Option.{Option, none, some}
use native.Mathlib.Omega.{arith}
use dropin_queue.Base.Tests.{◌==◌, if◌then◌else◌}
use dropin_queue.Base.Lists.{All}

abbrev pub Text : Type 0
Text = List ℕ

-- The bytes of an ASCII literal.
abbrev pub codes : String → Text
codes String.[] = []
codes (String.◌∷◌ c s) = code c ∷ codes s

-- s == t
unfoldable pub text_eq : Text → Text → Bool
text_eq [] [] = true
text_eq [] (d ∷ t) = false
text_eq (c ∷ s) [] = false
text_eq (c ∷ s) (d ∷ t) = (c == d) && text_eq s t

pub text_eq→eq : (s t : Text) → text_eq s t ≡ true → s ≡ t
unfolding text_eq
text_eq→eq [] [] h = refl
text_eq→eq [] (d ∷ t) h = cc
text_eq→eq (c ∷ s) [] h = cc
text_eq→eq (c ∷ s) (d ∷ t) h = ground (arith, text_eq→eq s t)

pub text_eq_refl : (s : Text) → text_eq s s ≡ true
unfolding text_eq
text_eq_refl [] = refl
text_eq_refl (c ∷ s) = ground (arith, text_eq_refl s)

pub text_eq_iff : (s t : Text) → (text_eq s t ≡ true) ↔ (s ≡ t)
text_eq_iff s t = (text_eq→eq s t, λ e. rw e (text_eq_refl t))

-- A common beginning does not matter.
pub text_eq-append : (p s t : Text) → text_eq (p ++ s) (p ++ t) ≡ text_eq s t
unfolding text_eq
text_eq-append [] s t = refl
text_eq-append (c ∷ p) s t = ground (arith, text_eq-append p s t)

-- s == ""
abbrev pub is_empty : Text → Bool
is_empty [] = true
is_empty (c ∷ s) = false

-- strings.HasPrefix(s, p), with p first
unfoldable pub has_prefix : Text → Text → Bool
has_prefix [] s = true
has_prefix (c ∷ p) [] = false
has_prefix (c ∷ p) (d ∷ s) = (c == d) && has_prefix p s

-- strings.HasSuffix(s, p), with p first
unfoldable pub has_suffix : Text → Text → Bool
unfolding text_eq
has_suffix p [] = text_eq p []
has_suffix p (c ∷ s) = text_eq p (c ∷ s) || has_suffix p s

-- strings.Contains(s, p), with p first
unfoldable pub contains : Text → Text → Bool
unfolding has_prefix
contains p [] = has_prefix p []
contains p (c ∷ s) = has_prefix p (c ∷ s) || contains p s

-- The text before the first separator, and the text behind it.
unfoldable pub cut : ℕ → Text → Option (Text × Text)
cut sep [] = none
cut sep (c ∷ s) =
    if c == sep
    then some ([], s)
    else elim (cut sep s) [ none ↦ none | some (a, b) ↦ some (c ∷ a, b) ]

-- A text without the byte.
abbrev pub Without : ℕ → Text → Type 0
Without sep = All (λ c. c ≢ sep)

-- Cutting at the first separator gives back what stands on its two sides.
pub cut-append : (sep : ℕ) (a b : Text) → Without sep a → cut sep (a ++ sep ∷ b) ≡ some (a, b)
unfolding cut
cut-append sep [] b h = ground arith
cut-append sep (c ∷ a) b h = ground (arith, cut-append sep a b h.1)

pub cut-none : (sep : ℕ) (a : Text) → Without sep a → cut sep a ≡ none
unfolding cut
cut-none sep [] h = refl
cut-none sep (c ∷ a) h = ground (arith, cut-none sep a h.1)
