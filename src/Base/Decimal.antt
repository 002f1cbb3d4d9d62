-- ===== src/Base/Decimal.antt =====
-- strconv.FormatInt(n, 10) of a number that is not negative, and strconv.ParseInt(s, 10, bits).
use Prim.Native.Nat.{ℕ, zero, suc, ◌+◌, ◌-◌, ◌*◌, ◌/◌, ◌%◌, ◌^◌, ◌≤◌, ◌<◌}
use mathlib.Core.Path.{◌≡◌, refl, ap}
use mathlib.Core.Logic.{◌≢◌}
use mathlib.Core.Bool.{Bool, true, false, ◌||◌}
use mathlib.Core.List.{[], ◌∷◌, ◌++◌, append_assoc, append-nil}
use native.Mathlib.Decide.{dec_lt}
use mathlib.Core.Option.{Option, none, some}
use native.Mathlib.Omega.{arith}
use dropin_queue.Base.Tests.{ltb, leb, ◌==◌, if◌then◌else◌}
use dropin_queue.Base.Lists.{All, All-weaken}
use dropin_queue.Base.Int.{ℤ, pos, negsuc}
use dropin_queue.Base.Bytes.{Text, codes, Without, text_eq, text_eq_iff}

digits : ℕ → ℕ → Text
digits zero n = (b'0' + n) ∷ []
digits (suc fuel) n =
    let front = digits fuel (n / 10) in
    if ltb n 10 then (b'0' + n) ∷ [] else front ++ (b'0' + n % 10) ∷ []

-- A number has fewer digits than its value, if it has more than one.
unfoldable pub format : ℕ → Text
unfolding digits
format n = digits n n

scan : Text → ℕ → Option ℕ
scan [] n = some n
scan (c ∷ s) n =
    let rest = scan s (n * 10 + (c - b'0')) in if ltb c b'0' || ltb b'9' c then none else rest

magnitude : Text → Option ℕ
unfolding scan
magnitude [] = none
magnitude (c ∷ s) = scan (c ∷ s) 0

signed : ℕ → Bool → Option ℕ → Option ℤ
signed bits negative none = none
signed bits false (some n) = if ltb n (2 ^ (bits - 1)) then some (pos n) else none
signed bits true (some n) =
    if leb n (2 ^ (bits - 1)) then some (if n == 0 then pos 0 else negsuc (n - 1)) else none

-- The value in range, or none for what ParseInt refuses.
unfoldable pub parse_int : ℕ → Text → Option ℤ
unfolding magnitude signed
parse_int bits [] = none
parse_int bits (c ∷ s) =
    if c == b'-'
    then signed bits true (magnitude s)
    else if c == b'+'
    then signed bits false (magnitude s)
    else signed bits false (magnitude (c ∷ s))

scan-digits :
    (fuel n : ℕ) (rest : Text) → n < fuel + 10 → scan (digits fuel n ++ rest) 0 ≡ scan rest n
unfolding scan digits
scan-digits zero n rest h = ground arith
scan-digits (suc fuel) n rest h = ground (
  arith,
  append_assoc (digits fuel (n / 10)) ((b'0' + n % 10) ∷ []) rest,
  scan-digits fuel (n / 10) ((b'0' + n % 10) ∷ rest),
)

abbrev pub IsDigit : ℕ → Type 0
IsDigit c = (b'0' ≤ c) × (c ≤ b'9')

append-IsDigit : (s : Text) (c : ℕ) → All IsDigit s → IsDigit c → All IsDigit (s ++ c ∷ [])
append-IsDigit [] c hs hc = (hc, tt)
append-IsDigit (d ∷ s) c hs hc = (hs.0, append-IsDigit s c hs.1 hc)

digits-IsDigit : (fuel n : ℕ) → n < fuel + 10 → All IsDigit (digits fuel n)
unfolding digits
digits-IsDigit zero n h = omega arith
digits-IsDigit (suc fuel) n h = ground (
  arith,
  append-IsDigit (digits fuel (n / 10)) (b'0' + n % 10) (digits-IsDigit fuel (n / 10) (omega arith))
      (omega arith),
)

digits_head :
    (fuel n : ℕ) → n < fuel + 10 → (c : ℕ) × (s : Text) × (digits fuel n ≡ c ∷ s) × IsDigit c
unfolding digits
digits_head zero n h = (b'0' + n, [], refl, omega arith)
digits_head (suc fuel) n h = elim (dec_lt n 10) [
  | yes small ↦ (b'0' + n, [], ground arith, omega arith)
  | no large ↦
      let (c, s, e, d) = digits_head fuel (n / 10) (omega arith) in
      (c, s ++ (b'0' + n % 10) ∷ [], ground arith, d)
]

-- A number that fits the signed range is read back from its decimal print.
pub parse_int-format : (bits n : ℕ) → n < 2 ^ (bits - 1) → parse_int bits (format n) ≡ some (pos n)
unfolding parse_int format magnitude scan signed
parse_int-format bits n h =
    let (c, s, e, d) = digits_head n n (omega arith) in
    rw e (ground (arith, scan-digits n n [], append-nil (digits n n)))

scan-format : (n : ℕ) → scan (format n) 0 ≡ some n
unfolding format scan
scan-format n = ground (arith, scan-digits n n [], append-nil (digits n n))

-- Two numbers have the same print only if they are equal.
pub text_eq-format : (a b : ℕ) → text_eq (format a) (format b) ≡ (a == b)
text_eq-format a b = ground (
  arith,
  text_eq_iff (format a) (format b),
  scan-format a,
  scan-format b,
  ap (λ s. scan s 0),
  ap format,
)

-- The print holds digits only, so no byte that is not one.
pub format-Without : (sep n : ℕ) → ¬ (IsDigit sep) → Without sep (format n)
unfolding format
format-Without sep n h =
    All-weaken IsDigit (λ c. c ≢ sep) (λ c d e. h (rw (← e) d)) (digits n n)
      (digits-IsDigit n n (omega arith))

format_examples : (format 0 ≡ codes "0") × (format 12345 ≡ codes "12345")
unfolding format
format_examples = (refl, refl)

parse_int_examples :
    (parse_int 32 (codes "-2147483648") ≡ some (negsuc 2147483647))
    × (parse_int 32 (codes "2147483648") ≡ none)
    × (parse_int 32 (codes "+007") ≡ some (pos 7))
    × (parse_int 64 (codes "12a") ≡ none)
unfolding parse_int
parse_int_examples = (refl, refl, refl, refl)
