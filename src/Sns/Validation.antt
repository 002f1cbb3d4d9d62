-- ===== src/Sns/Validation.antt =====
-- The checks of parameters in shim/internal/sns/service.go: isValidTopicName and isValidProtocol.
use dropin_queue.Base.{
  ◌≡◌, refl, ltb, Bool, true, false, ◌||◌, List, [], ◌∷◌, arith, any, all, length, Text, codes,
  text_eq, Without, if◌then◌else◌,
}
use dropin_queue.Sqs.Validation.{is_name_byte, all-Without}

unfoldable pub is_valid_topic_name : Text → Bool
is_valid_topic_name name =
    if ltb (length name) 1 || ltb 256 (length name) then false else all is_name_byte name

abbrev pub protocols : List Text
protocols =
    codes "sqs"
    ∷ codes "http"
    ∷ codes "https"
    ∷ codes "email"
    ∷ codes "email-json"
    ∷ codes "sms"
    ∷ codes "application"
    ∷ []

unfoldable pub is_valid_protocol : Text → Bool
unfolding text_eq
is_valid_protocol p = any (text_eq p) protocols

pub valid_topic-Without : (name : Text) → is_valid_topic_name name ≡ true → Without b':' name
unfolding is_valid_topic_name
valid_topic-Without name h = all-Without b':' name refl (ground (arith, h))
