-- ===== src/Nats/Headers.antt =====
-- Message attributes as headers of NATS messages: messageHeaders, and the loop over the headers in
-- parseJetStreamMsg, of shim/internal/storage/nats/messages.go. A nats.Header is a map from keys to
-- lists of values.
pub mod Keys
pub mod Sent
pub mod Read
pub mod RoundTrip
use dropin_queue.Base.{
  ◌≡◌, Bool, true, false, ◌||◌, not, Option, none, some, List, [], ◌∷◌, ◌++◌, length, Text, codes,
  text_eq, has_prefix, has_suffix, Map, lookup, insert, drop, if◌then◌else◌,
}
use dropin_queue.Types.{MessageAttribute}
use dropin_queue.Storage.{Result, ok, err, other}

-- encoding/base64's StdEncoding
pub record Base64 : Type 0 where
  pub encode_to_string : Text → Text
  pub decode_string : Text → Option Text

abbrev pub Header : Type 0
Header = Map (List Text)

abbrev pub value_key : Text → Text
value_key name = codes "X-Sqs-Atr-" ++ name

abbrev pub type_key : Text → Text
type_key name = value_key name ++ codes "-dt"

-- strings.TrimPrefix(s, p), with p first
abbrev pub trim_prefix : Text → Text → Text
trim_prefix p s = if has_prefix p s then drop (length p) s else s

-- h.Set(k, v)
abbrev pub set : Text → Text → Header → Header
set k v h = insert k (v ∷ []) h

abbrev binary : Option Text → Option MessageAttribute
binary none = none
binary (some v) = some (record { data_type = codes "Binary"; string_value = []; binary_value = v })

abbrev pub data_type_of : Option (List Text) → Text
data_type_of (some (dt ∷ _)) = dt
data_type_of _ = codes "String"

abbrev pub assign : Text → Option MessageAttribute → Map MessageAttribute → Map MessageAttribute
assign name none out = out
assign name (some attr) out = insert name attr out

module _ (b : Base64) where
  -- The value that a header carries for an attribute, if its type is supported.
  unfoldable pub header_value : MessageAttribute → Option Text
  unfolding text_eq
  header_value attr =
      if text_eq attr.data_type (codes "String")
      then some attr.string_value
      else if text_eq attr.data_type (codes "Number")
      then some attr.string_value
      else if text_eq attr.data_type (codes "String.List")
      then some (codes "list:" ++ attr.string_value)
      else if text_eq attr.data_type (codes "Binary")
      then some (b.encode_to_string attr.binary_value)
      else none

  unfoldable pub set_headers : Map MessageAttribute → Header → Result Header
  unfolding insert header_value
  set_headers [] h = ok h
  set_headers ((name, attr) ∷ attrs) h = elim (header_value attr) [
    | none ↦ err other
    | some v ↦ set_headers attrs (set (type_key name) attr.data_type (set (value_key name) v h))
  ]

  -- A nil map of headers is an empty one.
  unfoldable pub message_headers : Map MessageAttribute → Result Header
  unfolding set_headers
  message_headers attrs = set_headers attrs []

  -- The attribute that a header's value is read as, given its type.
  unfoldable pub parsed_attribute : Text → Text → Option MessageAttribute
  unfolding text_eq has_prefix
  parsed_attribute dt raw =
      if text_eq dt (codes "String.List")
      then some (record {
        data_type = codes "String.List";
        string_value = trim_prefix (codes "list:") raw;
        binary_value = [];
      })
      else if text_eq dt (codes "Binary")
      then binary (b.decode_string raw)
      else some (record { data_type = dt; string_value = raw; binary_value = [] })

  -- The attribute of one header, if the loop does not skip it.
  unfoldable pub add_header :
      Header → Text → List Text → Map MessageAttribute → Map MessageAttribute
  unfolding insert lookup parsed_attribute has_prefix has_suffix
  add_header hdr k [] out = out
  add_header hdr k (raw ∷ vs) out =
      if not (has_prefix (codes "X-Sqs-Atr-") k)
      then out
      else if has_suffix (codes "-dt") k
      then out
      else let name = trim_prefix (codes "X-Sqs-Atr-") k in
        assign name (parsed_attribute (data_type_of (lookup (type_key name) hdr)) raw) out

  unfoldable pub read_headers : Header → Header → Map MessageAttribute → Map MessageAttribute
  unfolding add_header
  read_headers hdr [] out = out
  read_headers hdr ((k, vs) ∷ ks) out = read_headers hdr ks (add_header hdr k vs out)

  unfoldable pub parse_attributes : Header → Map MessageAttribute
  unfolding read_headers
  parse_attributes hdr = read_headers hdr hdr []
