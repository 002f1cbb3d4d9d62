-- ===== src/Sqs/Validation.antt =====
-- The checks of parameters in shim/internal/sqs/service.go: isValidQueueName, validateAttributes,
-- validateMessageAttributes and parseInt32Default. A check answers the code of its error.
use dropin_queue.Base.{
  ℕ, zero, suc, and-eq-true, sym, ap, ◌∙◌, ◌≤◌, ◌==◌, ◌≡◌, ◌↔◌, ◌⊎◌, inl, inr, refl, ltb, leb, Bool,
  true, false, ◌&&◌, ◌||◌, not, Option, none, some, [], ◌∷◌, arith, ℤ, pos, negsuc, ltb_ℤ, eq_ℤ,
  all, length, Text, codes, contains, has_suffix, Without, Map, parse_int, if◌then◌else◌,
}
use dropin_queue.Types.{QueueAttributes}
use dropin_queue.Awserr.Code.{Code, invalid_parameter_value}
use dropin_queue.Protocol.Attributes.{MessageAttributeValue}

-- A-Z, a-z, 0-9, '-', '_' and '.'
abbrev pub is_name_byte : ℕ → Bool
is_name_byte c =
    (leb b'A' c && leb c b'Z')
    || ((leb b'a' c && leb c b'z')
        || ((leb b'0' c && leb c b'9') || ((c == b'-') || ((c == b'_') || (c == b'.')))))

unfoldable pub is_valid_queue_name : Text → Bool
unfolding contains has_suffix
is_valid_queue_name name =
    if ltb (length name) 1 || ltb 80 (length name)
    then false
    else if not (all is_name_byte name)
    then false
    else not (contains (codes ".fifo") name && not (has_suffix (codes ".fifo") name))

abbrev or_int : ℤ → Option ℤ → ℤ
or_int d none = d
or_int d (some n) = n

unfoldable pub parse_int32_default : Text → ℤ → ℤ
unfolding parse_int
parse_int32_default [] d = d
parse_int32_default (c ∷ s) d = or_int d (parse_int 32 (c ∷ s))

-- n < low || n > high
abbrev pub outside : ℕ → ℕ → ℤ → Bool
outside low high n = ltb_ℤ n (pos low) || ltb_ℤ (pos high) n

unfoldable pub validate_attributes : QueueAttributes → Option Code
validate_attributes a =
    if outside 0 43200 a.visibility_timeout
    then some invalid_parameter_value
    else if not (eq_ℤ a.message_retention_period (pos 0))
        && outside 60 1209600 a.message_retention_period
    then some invalid_parameter_value
    else if not (eq_ℤ a.maximum_message_size (pos 0)) && outside 1024 262144 a.maximum_message_size
    then some invalid_parameter_value
    else if outside 0 900 a.delay_seconds
    then some invalid_parameter_value
    else if outside 0 20 a.receive_message_wait_time_seconds
    then some invalid_parameter_value
    else none

abbrev pub max_message_attributes : ℕ
max_message_attributes = 10

unfoldable pub validate_message_attributes : Map MessageAttributeValue → Option Code
validate_message_attributes attrs =
    if ltb max_message_attributes (length attrs) then some invalid_parameter_value else none

abbrev pub Between : ℕ → ℕ → ℤ → Type 0
Between low high n = (m : ℕ) × (n ≡ pos m) × (low ≤ m) × (m ≤ high)

between : (low high : ℕ) (n : ℤ) → outside low high n ≡ false → Between low high n
between low high (pos m) h = (m, refl, ground (arith, h), ground (arith, h))
between low high (negsuc m) h = absurd (cc h)

-- Attributes that pass are in the ranges that SQS documents, where zero stands for a default.
pub record InRange (a : QueueAttributes) : Type 0 where
  pub visibility : Between 0 43200 a.visibility_timeout
  pub retention :
      (a.message_retention_period ≡ pos 0) ⊎ Between 60 1209600 a.message_retention_period
  pub size : (a.maximum_message_size ≡ pos 0) ⊎ Between 1024 262144 a.maximum_message_size
  pub delay : Between 0 900 a.delay_seconds
  pub wait : Between 0 20 a.receive_message_wait_time_seconds

zero_or :
    (low high : ℕ) (n : ℤ)
    → (not (eq_ℤ n (pos 0)) && outside low high n) ≡ false
    → (n ≡ pos 0) ⊎ Between low high n
zero_or low high (pos zero) h = inl refl
zero_or low high (pos (suc m)) h = inr (between low high (pos (suc m)) (ground (arith, h)))
zero_or low high (negsuc m) h = absurd (cc h)

inside : (low high : ℕ) (n : ℤ) → Between low high n → outside low high n ≡ false
inside low high (pos m) (k, e, l, h) = ground arith
inside low high (negsuc m) (k, e, l, h) = absurd (cc e)

inside_or :
    (low high : ℕ) (n : ℤ)
    → (n ≡ pos 0) ⊎ Between low high n
    → (not (eq_ℤ n (pos 0)) && outside low high n) ≡ false
inside_or low high n (inl e) = rw e refl
inside_or low high n (inr b) = ground (arith, inside low high n b)

valid-InRange : (a : QueueAttributes) → validate_attributes a ≡ none → InRange a
unfolding validate_attributes
valid-InRange a h = record {
  visibility = between 0 43200 _ (ground (arith, h));
  retention = zero_or 60 1209600 _ (ground (arith, h));
  size = zero_or 1024 262144 _ (ground (arith, h));
  delay = between 0 900 _ (ground (arith, h));
  wait = between 0 20 _ (ground (arith, h));
}

InRange-valid : (a : QueueAttributes) → InRange a → validate_attributes a ≡ none
unfolding validate_attributes
InRange-valid a h =
    rw
      (
        inside 0 43200 _ h.visibility,
        inside_or 60 1209600 _ h.retention,
        inside_or 1024 262144 _ h.size,
        inside 0 900 _ h.delay,
        inside 0 20 _ h.wait,
      )
      refl

-- The attributes that are accepted are exactly those in the documented ranges, with zero allowed for
-- the retention period and the size.
pub validate_attributes-InRange : (a : QueueAttributes) → (validate_attributes a ≡ none) ↔ InRange a
validate_attributes-InRange a = (valid-InRange a, InRange-valid a)

pub all-Without :
    (sep : ℕ) (s : Text) → is_name_byte sep ≡ false → all is_name_byte s ≡ true → Without sep s
all-Without sep [] h e = tt
all-Without sep (c ∷ s) h e =
    let (here, rest) = and-eq-true (is_name_byte c) (all is_name_byte s) e in
    (λ same. absurd (ground (arith, sym here ∙ ap is_name_byte same ∙ h)), all-Without sep s h rest)

pub valid-name :
    (name : Text)
    → is_valid_queue_name name ≡ true
    → (all is_name_byte name ≡ true) × (1 ≤ length name) × (length name ≤ 80)
unfolding is_valid_queue_name
valid-name name h = ground (arith, h)

pub valid-Without :
    (sep : ℕ) (name : Text)
    → is_name_byte sep ≡ false
    → is_valid_queue_name name ≡ true
    → Without sep name
valid-Without sep name e h = all-Without sep name e (valid-name name h).0
