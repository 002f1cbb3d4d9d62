-- ===== src/Server.antt =====
-- The responses of the HTTP server: shim/internal/server/response.go, and what its handlers share.
-- What packages encoding/xml and encoding/json write is not modelled: a body is the tree that is
-- given to them. An element's attributes are left out but for the namespace.
pub mod SqsQuery
pub mod SqsJson
pub mod SnsQuery
pub mod SnsJson
pub mod Http
pub mod Statuses
use dropin_queue.Base.{
  ℕ, leb, Bool, true, false, ◌&&◌, Option, none, some, List, [], ◌∷◌, ◌++◌, map, ℤ, length, take,
  Text, codes, text_eq, is_empty, has_prefix, Map, sort_by, if◌then◌else◌,
}
use dropin_queue.Awserr.Code.{Code, code_text, queue_does_not_exist, topic_does_not_exist}
use dropin_queue.Awserr.Faults.{is_sender_fault, from_storage, server_registry}
use dropin_queue.Storage.{Storage, TopicStorage, Op, Result, ok, err}
use dropin_queue.Protocol.Json.{
  Json, string, bool, array, object, Items, nil, cons, Fields, end, field,
}
use dropin_queue.Protocol.Query.{Values}
use dropin_queue.Protocol.Wire.{Request}
use dropin_queue.Sqs.Service as Sqs
use dropin_queue.Sns.Service as Sns

pub data Transport : Type 0 where
  sqs_query sqs_json sns_query sns_json : Transport

abbrev xml_type : Text
xml_type = codes "text/xml"

abbrev json_type : Text
json_type = codes "application/x-amz-json-1.0"

unfoldable pub content_type_for : Transport → Text
content_type_for sqs_query = xml_type
content_type_for sns_query = xml_type
content_type_for _ = json_type

-- ct[:22] == "application/x-amz-json"
unfoldable pub is_json_protocol : Request → Bool
unfolding text_eq
is_json_protocol r =
    if is_empty r.target
    then false
    else leb 22 (length r.content_type)
      && text_eq (take 22 r.content_type) (codes "application/x-amz-json")

mutual
  pub data Xml : Type 0 where
    leaf : Text → Text → Xml
    element : Text → Nodes → Xml

  pub data Nodes : Type 0 where
    stop : Nodes
    next : Xml → Nodes → Nodes

abbrev pub nodes : List Xml → Nodes
nodes [] = stop
nodes (x ∷ xs) = next x (nodes xs)

abbrev pub json_array : List Json → Json
json_array xs = array (go xs)
  where
    go : List Json → Items
    go [] = nil
    go (y ∷ ys) = cons y (go ys)

abbrev pub json_object : Map Json → Json
json_object fs = object (go fs)
  where
    go : Map Json → Fields
    go [] = end
    go ((k, v) ∷ rest) = field k v (go rest)

-- The element, with its namespace or without one, and what it holds.
pub data Body : Type 0 where
  xml_body : Text → Option Text → Nodes → Body
  json_body : Json → Body

pub record Response : Type 0 where
  pub status : ℕ
  pub content_type : Text
  pub body : Body

unfoldable pub err_type : Bool → Text
err_type sender_fault = if sender_fault then codes "Sender" else codes "Receiver"

-- What a handler reads beside the parameters: the request's id, the clock, and the texts of the
-- error that the call may answer and of those of a batch's entries, by id.
pub record Context : Type 0 where
  pub request_id : Text
  pub now : ℕ
  pub message : Text
  pub entry_message : Text → Text

unfoldable pub write_query_error_envelope : Code → Text → Text → Bool → Body
unfolding err_type code_text
write_query_error_envelope code message request_id sender_fault =
    xml_body (codes "ErrorResponse") none (
      nodes (
        element (codes "Error") (
          nodes (
            leaf (codes "Type") (err_type sender_fault)
            ∷ leaf (codes "Code") (code_text code)
            ∷ leaf (codes "Message") message
            ∷ []))
        ∷ leaf (codes "RequestId") request_id
        ∷ []))

unfoldable pub encode_json_error : Code → Text → Body
unfolding code_text
encode_json_error code message = json_body (
    json_object
      ((codes "__type", string (code_text code)) ∷ (codes "message", string message) ∷ []))

abbrev error_body : Transport → Code → Text → Text → Bool → Body
unfolding write_query_error_envelope encode_json_error
error_body sqs_query code message id fault = write_query_error_envelope code message id fault
error_body sns_query code message id fault = write_query_error_envelope code message id fault
error_body _ code message id fault = encode_json_error code message

unfoldable pub write_fatal_error : Transport → Code → Text → Text → Response
unfolding content_type_for write_query_error_envelope encode_json_error is_sender_fault
    server_registry
write_fatal_error t code message request_id =
    let fault = is_sender_fault server_registry code in
    record {
      status = if fault then 400 else 500;
      content_type = content_type_for t;
      body = error_body t code message request_id fault;
    }

abbrev sqs_query_namespace : Text
sqs_query_namespace = codes "http://queue.amazonaws.com/doc/2012-11-05"

abbrev sns_query_namespace : Text
sns_query_namespace = codes "http://sns.amazonaws.com/doc/2010-03-31"

unfoldable pub respond_query_xml : Text → Text → Option Xml → Text → Response
respond_query_xml action namespace result request_id = record {
  status = 200;
  content_type = xml_type;
  body = xml_body (action ++ codes "Response") (some namespace) (
      nodes (
        elim result [ none ↦ [] | some x ↦ x ∷ [] ]
        ++ element (codes "ResponseMetadata") (nodes (leaf (codes "RequestId") request_id ∷ []))
          ∷ []));
}

abbrev pub respond_sqs_query_xml : Text → Option Xml → Text → Response
unfolding respond_query_xml
respond_sqs_query_xml action result request_id =
    respond_query_xml action sqs_query_namespace result request_id

abbrev pub respond_sns_query_xml : Text → Option Xml → Text → Response
unfolding respond_query_xml
respond_sns_query_xml action result request_id =
    respond_query_xml action sns_query_namespace result request_id

-- A response with status 200 and a value in JSON.
abbrev pub respond_json : Json → Response
respond_json value = record { status = 200; content_type = json_type; body = json_body value }

-- `{}`
abbrev pub no_fields : Json
no_fields = object end

abbrev pub json_fields : Map Text → Json
json_fields m = json_object (map (λ e. (e.0, string e.1)) m)

-- The response to what a service answers. An error becomes an AWS error and is written.
module _ {A : Type 0} (t : Transport) (not_found : Code) (c : Context) where
  unfoldable pub finish : Result A → (A → Response) → Response
  unfolding from_storage write_fatal_error
  finish (ok a) f = f a
  finish (err e) f = write_fatal_error t (from_storage not_found e) c.message c.request_id

  unfoldable pub respond : {S : Type 0} → Op S A → (A → Response) → S → Response × S
  unfolding finish
  respond m f s = (finish (m s).0 f, (m s).1)

-- A map's entries in the order of the keys, which are distinct.
abbrev pub by_key : {V : Type 0} → Map V → Map V
unfolding sort_by
by_key m = sort_by (λ e. e.0) m

-- The services, the limit on a body, and what the handlers use of packages encoding/base64,
-- encoding/json and net/url and of Go's conversion to int32.
pub record Server (S : Type 0) : Type 0 where
  pub storage : Storage S
  pub topics : TopicStorage S
  pub sqs : Sqs.Service
  pub sns : Sns.Service
  pub max_body_bytes : ℕ
  pub parse_query : Text → Option Values
  pub unmarshal : Text → Option (Map Json)
  pub decodes_to_map : Text → Bool
  pub decode_string : Text → Option Text
  pub encode_string : Text → Text
  pub int32 : ℤ → ℤ
