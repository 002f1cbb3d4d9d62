-- ===== src/Server/Http/Routes.antt =====
-- The tables of shim/internal/server/http.go hold the actions that shim/internal/protocol/types.go
-- knows.
use dropin_queue.Base.{
  ◌≡◌, refl, sym, ap, ◌∙◌, Bool, true, false, none, some, List, [], ◌∷◌, arith, any, Text, text_eq,
  all, and-eq-true, not, Bool-cases, text_eq→eq, Option-cases, inl, inr, Map, lookup,
}
use dropin_queue.Protocol.Action.{sqs, sns, known_sqs_actions, known_sns_actions, is_valid_action}
use dropin_queue.Server.{Context, Server}
use dropin_queue.Server.Http.{
  sns_actions, is_sns_action, sqs_query_handlers, sqs_json_handlers, sns_query_handlers,
  sns_json_handlers,
}

abbrev pub has_handler : {H : Type 0} → Map H → Text → Bool
unfolding lookup
has_handler m action = elim (lookup action m) [ none ↦ false | some h ↦ true ]

has-any :
    {H : Type 0} (m : Map H) (action : Text)
    → has_handler m action ≡ any (λ e. text_eq e.0 action) m
unfolding lookup
has-any [] action = refl
has-any ((k, h) ∷ m) action = ground (arith, has-any m action)

pub handler_found :
    {H : Type 0} (m : Map H) (action : Text)
    → has_handler m action ≡ true
    → (h : H) × (lookup action m ≡ some h)
unfolding lookup
handler_found m action e = elim (Option-cases (lookup action m)) [
  | inl missing ↦ absurd (cc (rw (has_handler, missing) at e))
  | inr found ↦ found
]

known_apart :
    (names : List Text) (action : Text)
    → all (λ a. not (is_valid_action sns a)) names ≡ true
    → any (λ a. text_eq a action) names ≡ true
    → is_valid_action sns action ≡ false
known_apart [] action h e = absurd (cc e)
known_apart (a ∷ names) action h e =
    let (here, rest) = and-eq-true (not (is_valid_action sns a)) _ h in
    elim (Bool-cases (text_eq a action)) [
      | inl same ↦ sym (ap (is_valid_action sns) (text_eq→eq a action same)) ∙ ground (arith, here)
      | inr differs ↦ known_apart names action rest (ground (arith, differs, e))
    ]

-- No action is known to both services.
pub sqs-not-sns :
    (action : Text) → is_valid_action sqs action ≡ true → is_valid_action sns action ≡ false
unfolding is_valid_action known_sqs_actions known_sns_actions text_eq
sqs-not-sns action h = known_apart known_sqs_actions action refl h

pub handled-is_valid_action :
    {S : Type 0} (v : Server S) (c : Context) (action : Text)
    → (has_handler (sqs_query_handlers v c) action ≡ is_valid_action sqs action)
      × (has_handler (sqs_json_handlers v c) action ≡ is_valid_action sqs action)
      × (has_handler (sns_query_handlers v c) action ≡ is_valid_action sns action)
      × (has_handler (sns_json_handlers v c) action ≡ is_valid_action sns action)
      × (is_sns_action action ≡ is_valid_action sns action)
unfolding is_sns_action is_valid_action sns_actions known_sns_actions known_sqs_actions
    sqs_query_handlers sqs_json_handlers sns_query_handlers sns_json_handlers
handled-is_valid_action v c action = (
  has-any (sqs_query_handlers v c) action ∙ ground arith,
  has-any (sqs_json_handlers v c) action ∙ ground arith,
  has-any (sns_query_handlers v c) action ∙ ground arith,
  has-any (sns_json_handlers v c) action ∙ ground arith,
  ground arith,
)
