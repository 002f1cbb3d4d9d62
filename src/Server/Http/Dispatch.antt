-- ===== src/Server/Http/Dispatch.antt =====
-- The dispatch of shim/internal/server/http.go brings a request to the handler of its action.
use dropin_queue.Base.{
  ◌≡◌, refl, ◌∙◌, true, false, not, ◌&&◌, some, [], ◌∷◌, ◌++◌, arith, length, take, Text, codes,
  text_eq, is_empty, has_prefix, cut, ℕ, ◌≤◌, ap, take_all, Map, lookup, delete, Bool-cases, inl,
  inr, and-eq-true,
}
use dropin_queue.Protocol.Action.{sqs, is_valid_action}
use dropin_queue.Protocol.Query.{Values, get_value}
use dropin_queue.Protocol.Json.{Json}
use dropin_queue.Protocol.Wire.{
  Request, read_limited, read_body, target_action, action_values, parse_wire_query_request,
  parse_wire_json_request,
}
use dropin_queue.Server.{is_json_protocol, Context, Server}
use dropin_queue.Server.Http.{
  sqs_query_handlers, sqs_json_handlers, handle_aws_json, handle_aws_json_dispatch,
  handle_aws_query_dispatch, handle_aws_query, handle_aws, recovered, serve,
}
use dropin_queue.Server.Http.Operations.{outcome, handler-Do}
use dropin_queue.Server.Http.Operations.InJson.{json_operations, json_handlers-Do}
use dropin_queue.Server.Http.Operations.InQuery.{query_operations, query_handlers-Do}
use dropin_queue.Server.Http.Routes.{handler_found, sqs-not-sns, handled-is_valid_action}

prefix_taken : (p s : Text) → text_eq (take (length p) s) p ≡ true → has_prefix p s ≡ true
unfolding text_eq has_prefix
prefix_taken [] s h = refl
prefix_taken (c ∷ p) [] h = absurd (cc h)
prefix_taken (c ∷ p) (d ∷ s) h = ground (arith, h, prefix_taken p s)

json-has_prefix :
    (r : Request)
    → is_json_protocol r ≡ true
    → has_prefix (codes "application/x-amz-json") r.content_type ≡ true
unfolding is_json_protocol
json-has_prefix r h =
    prefix_taken (codes "application/x-amz-json") r.content_type
      (elim (Bool-cases (is_empty r.target)) [
        | inl missing ↦ absurd (cc (rw missing at h))
        | inr given ↦ (and-eq-true _ _ (rw given at h)).1
      ])

target_action-sqs :
    (action : Text)
    → is_valid_action sqs action ≡ true
    → target_action sqs (codes "AmazonSQS." ++ action) ≡ some action
unfolding target_action cut text_eq
target_action-sqs action h = rw h refl

action_values-known :
    (action : Text) (values : Values)
    → get_value values (codes "Action") ≡ action
    → is_valid_action sqs action ≡ true
    → action_values sqs values
      ≡ some (action, delete (codes "Action") (delete (codes "Version") values))
unfolding action_values is_valid_action text_eq
action_values-known [] values named known = absurd (cc known)
action_values-known (x ∷ action) values named known =
    rw (action_values, named, is_valid_action, known) refl

module _ {S : Type 0} (v : Server S) (c : Context) where
  -- A POST in JSON whose target is AmazonSQS with an action that SQS knows, and whose body is not
  -- empty, is within the server's limit and the parser's and decodes, does what the action is for:
  -- it leaves the state that the action's operation leaves on the parameters read from the decoded
  -- body, and is answered with status 200 if the operation succeeds, 400 if it fails by the
  -- caller's fault and 500 if by the server's.
  pub serve-json :
      (r : Request) (action body : Text) (params : Map Json) (s : S)
      → text_eq r.method (codes "POST") ≡ true
      → is_json_protocol r ≡ true
      → r.target ≡ codes "AmazonSQS." ++ action
      → is_valid_action sqs action ≡ true
      → r.body ≡ some body
      → length body ≤ v.max_body_bytes
      → read_body (some body) ≡ some body
      → v.unmarshal body ≡ some params
      → (operate : Map Json → S → ℕ × S) × (lookup action (json_operations v c) ≡ some operate)
        × (outcome (serve v c r s) ≡ operate params s)
  unfolding serve recovered handle_aws handle_aws_json_dispatch handle_aws_json
      parse_wire_json_request has_prefix
  serve-json r action body params s post json target known given short read decoded =
      let (handle, found) =
        handler_found (sqs_json_handlers v c) action
          ((handled-is_valid_action v c action).1 ∙ known) in
      let (operate, meant, does) =
        handler-Do (sqs_json_handlers v c) (json_operations v c) action (json_handlers-Do v c)
          handle found in
      let served : serve v c r s ≡ handle params s =
        rw
          (
            serve,
            json,
            target,
            handle_aws_json,
            post,
            json-has_prefix r json,
            target_action-sqs action known,
            given,
            read,
            decoded,
            found,
          )
          refl in
      (operate, meant, ap outcome served ∙ does params s)

  -- A POST of form values with no target and the form's content type or none, whose body is not
  -- empty, is within the server's limit and the parser's and decodes to values with an action that
  -- SQS knows, does what the action is for: it leaves the state that the action's operation leaves
  -- on the parameters read from the other values, and is answered with status 200 if the operation
  -- succeeds, 400 if it fails by the caller's fault and 500 if by the server's.
  pub serve-query :
      (r : Request) (action body : Text) (values : Values) (s : S)
      → text_eq r.method (codes "POST") ≡ true
      → r.target ≡ []
      → (not (is_empty r.content_type)
          && not (has_prefix (codes "application/x-www-form-urlencoded") r.content_type))
        ≡ false
      → r.body ≡ some body
      → length body ≤ v.max_body_bytes
      → read_body (some body) ≡ some body
      → v.parse_query body ≡ some values
      → get_value values (codes "Action") ≡ action
      → is_valid_action sqs action ≡ true
      → (operate : Values → S → ℕ × S) × (lookup action (query_operations v c) ≡ some operate)
        × (outcome (serve v c r s)
            ≡ operate (delete (codes "Action") (delete (codes "Version") values)) s)
  unfolding serve recovered handle_aws handle_aws_query_dispatch handle_aws_query is_json_protocol
      parse_wire_query_request has_prefix
  serve-query r action body values s post target form given short whole decoded named known =
      let (handle, found) =
        handler_found (sqs_query_handlers v c) action
          ((handled-is_valid_action v c action).0 ∙ known) in
      let (operate, meant, does) =
        handler-Do (sqs_query_handlers v c) (query_operations v c) action (query_handlers-Do v c)
          handle found in
      let params = delete (codes "Action") (delete (codes "Version") values) in
      let uncut : read_limited v.max_body_bytes r.body ≡ some body =
        rw given (ap some (take_all v.max_body_bytes body short)) in
      let served : serve v c r s ≡ handle params s =
        rw
          (
            serve,
            target,
            handle_aws_query_dispatch,
            uncut,
            decoded,
            named,
            (handled-is_valid_action v c action).4,
            sqs-not-sns action known,
            handle_aws_query,
            post,
            form,
            whole,
            decoded,
            action_values-known action values named known,
            found,
          )
          refl in
      (operate, meant, ap outcome served ∙ does params s)
