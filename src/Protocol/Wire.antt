-- ===== src/Protocol/Wire.antt =====
-- Requests on the wire: parseWireQueryRequest and parseWireJSONRequest of
-- shim/internal/protocol/common.go. A request is its method, the two headers that the code reads and
-- the bytes of its body; the texts of errors are not modelled. url.ParseQuery and json.Unmarshal
-- are parameters, and so is a body that cannot be read.
use dropin_queue.Base.{
  ℕ, ◌*◌, not, ◌&&◌, Option, none, some, Text, codes, text_eq, is_empty, has_prefix, cut, Map,
  delete, take, if◌then◌else◌,
}
use dropin_queue.Protocol.Action.{ServiceName, sqs, sns, is_valid_action}
use dropin_queue.Protocol.Query.{Values, get_value}
use dropin_queue.Protocol.Json.{Json}

-- A body that breaks off is `none`.
pub record Request : Type 0 where
  pub method : Text
  pub content_type : Text
  pub target : Text
  pub body : Option Text

-- 10 << 20
abbrev pub max_wire_body_bytes : ℕ
max_wire_body_bytes = 10 * 1048576

-- io.ReadAll(io.LimitReader(r.Body, limit))
abbrev pub read_limited : ℕ → Option Text → Option Text
read_limited limit none = none
read_limited limit (some body) = some (take limit body)

-- The body, if it can be read and is not empty.
unfoldable pub read_body : Option Text → Option Text
read_body body = elim (read_limited max_wire_body_bytes body) [
  | none ↦ none
  | some b ↦ if is_empty b then none else some b
]

unfoldable pub action_values : ServiceName → Values → Option (Text × Values)
unfolding get_value is_valid_action delete
action_values service values =
    let action = get_value values (codes "Action") in
    if is_empty action
    then none
    else if is_valid_action service action
    then some (action, delete (codes "Action") (delete (codes "Version") values))
    else none

-- The action and the parameters, or none for an error.
unfoldable pub parse_wire_query_request :
    (Text → Option Values) → Request → ServiceName → Option (Text × Values)
unfolding has_prefix read_body action_values text_eq
parse_wire_query_request parse_query r service =
    if not (text_eq r.method (codes "POST"))
    then none
    else if not (is_empty r.content_type)
        && not (has_prefix (codes "application/x-www-form-urlencoded") r.content_type)
    then none
    else elim (read_body r.body) [
      | none ↦ none
      | some body ↦ elim (parse_query body) [
        | none ↦ none
        | some values ↦ action_values service values
      ]
    ]

-- The namespace of X-Amz-Target, without its dot.
abbrev pub expected_prefix : ServiceName → Text
expected_prefix sqs = codes "AmazonSQS"
expected_prefix sns = codes "AmazonSNS"

-- The action that the target names, if its namespace is the service's.
unfoldable pub target_action : ServiceName → Text → Option Text
unfolding cut text_eq is_valid_action
target_action service target = elim (cut b'.' target) [
  | none ↦ none
  | some (namespace, action) ↦
      if not (text_eq namespace (expected_prefix service))
      then none
      else if is_valid_action service action
      then some action
      else none
]

unfoldable pub parse_wire_json_request :
    (Text → Option (Map Json)) → Request → ServiceName → Option (Text × Map Json)
unfolding has_prefix read_body target_action text_eq
parse_wire_json_request unmarshal r service =
    if not (text_eq r.method (codes "POST"))
    then none
    else if not (has_prefix (codes "application/x-amz-json") r.content_type)
    then none
    else elim (target_action service r.target) [
      | none ↦ none
      | some action ↦ elim (read_body r.body) [
        | none ↦ none
        | some body ↦ elim (unmarshal body) [ none ↦ none | some params ↦ some (action, params) ]
      ]
    ]
