-- ===== src/Postgres/Receipts.antt =====
-- Receipt handles: encodeReceiptHandle and decodeReceiptHandle of
-- shim/internal/storage/postgres/messages.go.
use dropin_queue.Base.{
  ℕ, zero, suc, ◌^◌, ◌<◌, ◌≡◌, refl, ◌≢◌, Option, none, some, List, [], ◌∷◌, ◌++◌, arith, ℤ, pos,
  Text, codes, cut, cut-append, text_eq, is_empty, if◌then◌else◌, format, parse_int,
  parse_int-format, format-Without,
}

-- strings.SplitN(s, sep, n) with a separator of one byte
unfoldable pub split_n : ℕ → ℕ → Text → List Text
unfolding cut
split_n zero sep s = []
split_n (suc zero) sep s = s ∷ []
split_n (suc (suc n)) sep s = elim (cut sep s) [
  | none ↦ s ∷ []
  | some (a, b) ↦ a ∷ split_n (suc n) sep b
]

-- fmt.Sprintf("pg1:%d:%s", id, claimToken)
unfoldable pub encode_receipt_handle : ℕ → Text → Text
encode_receipt_handle id claim_token = codes "pg1:" ++ (format id ++ b':' ∷ claim_token)

with_id : Option ℤ → Text → Option (ℤ × Text)
with_id none token = none
with_id (some id) token = if is_empty token then none else some (id, token)

receipt_parts : List Text → Option (ℤ × Text)
unfolding with_id text_eq parse_int
receipt_parts (version ∷ id ∷ token ∷ []) =
    if text_eq version (codes "pg1") then with_id (parse_int 64 id) token else none
receipt_parts _ = none

-- none stands for the error.
unfoldable pub decode_receipt_handle : Text → Option (ℤ × Text)
unfolding receipt_parts split_n
decode_receipt_handle rh = receipt_parts (split_n 3 b':' rh)

-- A handle made of an id below 2^63 and a token that is not empty is read back as that id and token,
-- whatever the token holds.
pub decode-encode :
    (id : ℕ) (token : Text)
    → id < 2 ^ 63
    → token ≢ []
    → decode_receipt_handle (encode_receipt_handle id token) ≡ some (pos id, token)
unfolding receipt_parts split_n with_id encode_receipt_handle text_eq decode_receipt_handle
decode-encode id [] fits h = absurd (h refl)
decode-encode id (c ∷ token) fits h = ground (
  arith,
  cut-append b':' (format id) (c ∷ token) (format-Without b':' id (omega arith)),
  parse_int-format 64 id fits,
)
