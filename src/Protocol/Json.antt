-- ===== src/Protocol/Json.antt =====
-- JSON parameters on the wire: shim/internal/protocol/sqs_json.go. What package encoding/json decodes
-- into an `any` is given. A float64 is the integer that it is truncated to; `int32` is Go's
-- conversion of one, which Go leaves open for a value out of range.
pub mod Batch
use dropin_queue.Base.{
  ℕ, Bool, true, false, Option, none, some, List, [], ◌∷◌, ◌++◌, ℤ, pos, Text, codes, text_eq,
  is_empty, has_suffix, Map, lookup, insert, if◌then◌else◌, ◌||◌,
}
use dropin_queue.Protocol.Attributes.{MessageAttributeValue}
use dropin_queue.Protocol.Query.{decode_base64, join_list, or_empty}

mutual
  pub data Json : Type 0 where
    null : Json
    bool : Bool → Json
    number : ℤ → Json
    string : Text → Json
    array : Items → Json
    object : Fields → Json

  pub data Items : Type 0 where
    nil : Items
    cons : Json → Items → Items

  pub data Fields : Type 0 where
    end : Fields
    field : Text → Json → Fields → Fields

abbrev pub items : Items → List Json
items nil = []
items (cons x xs) = x ∷ items xs

abbrev pub fields : Fields → Map Json
fields end = []
fields (field k v fs) = (k, v) ∷ fields fs

-- v.(string), v.(float64), v.([]any) and v.(map[string]any), for a value that may be missing
abbrev pub as_string : Option Json → Option Text
as_string (some (string s)) = some s
as_string _ = none

abbrev pub as_number : Option Json → Option ℤ
as_number (some (number n)) = some n
as_number _ = none

abbrev pub as_bool : Option Json → Option Bool
as_bool (some (bool b)) = some b
as_bool _ = none

abbrev pub as_array : Option Json → Option (List Json)
as_array (some (array xs)) = some (items xs)
as_array _ = none

abbrev pub as_object : Option Json → Option (Map Json)
as_object (some (object fs)) = some (fields fs)
as_object _ = none

unfoldable pub json_string : Map Json → Text → Text
unfolding lookup
json_string obj key = or_empty (as_string (lookup key obj))

-- key[:len(key)-1]
unfoldable pub drop_last : Text → Text
drop_last [] = []
drop_last (c ∷ []) = []
drop_last (c ∷ d ∷ s) = c ∷ drop_last (d ∷ s)

abbrev pub or_else_at : Option Json → Option Json → Option Json
or_else_at (some v) other = some v
or_else_at none other = other

-- The value of the key, or of its other form, singular or plural.
unfoldable pub attributes_at : Map Json → Text → Option Json
unfolding lookup has_suffix drop_last
attributes_at params key = or_else_at (lookup key params) (
    if has_suffix (codes "s") key
    then lookup (drop_last key) params
    else lookup (key ++ codes "s") params)

-- The strings of a compact object.
unfoldable pub compact_attributes : Map Json → Map Text → Map Text
unfolding insert
compact_attributes [] out = out
compact_attributes ((k, v) ∷ m) out =
    compact_attributes m (elim (as_string (some v)) [ none ↦ out | some s ↦ insert k s out ])

unfoldable pub add_listed : Text → Option (Map Json) → Map Text → Map Text
unfolding json_string insert
add_listed id_field none out = out
add_listed id_field (some m) out =
    if is_empty (json_string m id_field)
    then out
    else insert (json_string m id_field) (json_string m (codes "Value")) out

-- The pairs of an array of objects.
unfoldable pub listed_attributes : Text → List Json → Map Text → Map Text
unfolding add_listed
listed_attributes id_field [] out = out
listed_attributes id_field (item ∷ arr) out =
    listed_attributes id_field arr (add_listed id_field (as_object (some item)) out)

abbrev in_format : Text → Json → Map Text
unfolding compact_attributes listed_attributes
in_format id_field (object fs) = compact_attributes (fields fs) []
in_format id_field (array xs) = listed_attributes id_field (items xs) []
in_format id_field _ = []

unfoldable pub extract_json_attributes : Map Json → Text → Text → Map Text
unfolding attributes_at compact_attributes listed_attributes
extract_json_attributes params key id_field = elim (attributes_at params key) [
  | none ↦ []
  | some raw ↦ in_format id_field raw
]

-- The strings of StringListValues.
unfoldable pub strings_of : List Json → List Text
strings_of [] = []
strings_of (string s ∷ xs) = s ∷ strings_of xs
strings_of (_ ∷ xs) = strings_of xs

abbrev pub or_no_items : Option (List Json) → List Json
or_no_items none = []
or_no_items (some xs) = xs

module _ (decode_string : Text → Option Text) where
  -- The attribute of an object, if its type is known.
  unfoldable pub json_attribute : Map Json → Option MessageAttributeValue
  unfolding json_string text_eq decode_base64 join_list strings_of lookup
  json_attribute obj =
      let data_type = json_string obj (codes "DataType") in
      if text_eq data_type (codes "String") || text_eq data_type (codes "Number")
      then some (record {
        data_type = data_type;
        string_value = json_string obj (codes "StringValue");
        binary_value = [];
      })
      else if text_eq data_type (codes "Binary")
      then some (record {
        data_type = codes "Binary";
        string_value = [];
        binary_value = decode_base64 decode_string (json_string obj (codes "BinaryValue"));
      })
      else if text_eq data_type (codes "String.List")
      then some (record {
        data_type = codes "String.List";
        string_value =
            join_list (strings_of (or_no_items (as_array (lookup (codes "StringListValues") obj))));
        binary_value = [];
      })
      else none

  unfoldable pub parse_json_msg_attr :
      Map MessageAttributeValue → Text → Map Json → Map MessageAttributeValue
  unfolding json_attribute insert
  parse_json_msg_attr out name obj = elim (json_attribute obj) [
    | none ↦ out
    | some v ↦ insert name v out
  ]

  unfoldable pub compact_msg_attrs :
      Map Json → Map MessageAttributeValue → Map MessageAttributeValue
  unfolding parse_json_msg_attr
  compact_msg_attrs [] out = out
  compact_msg_attrs ((name, v) ∷ m) out =
      compact_msg_attrs m
        (elim (as_object (some v)) [ none ↦ out | some obj ↦ parse_json_msg_attr out name obj ])

  abbrev add_named : Map MessageAttributeValue → Option (Map Json) → Map MessageAttributeValue
  unfolding parse_json_msg_attr json_string
  add_named out none = out
  add_named out (some obj) =
      if is_empty (json_string obj (codes "Name"))
      then out
      else parse_json_msg_attr out (json_string obj (codes "Name")) obj

  unfoldable pub listed_msg_attrs :
      List Json → Map MessageAttributeValue → Map MessageAttributeValue
  unfolding parse_json_msg_attr json_string
  listed_msg_attrs [] out = out
  listed_msg_attrs (item ∷ arr) out = listed_msg_attrs arr (add_named out (as_object (some item)))

  -- The compact object, or else the array. The same code reads a request's parameters and an entry
  -- of a batch.
  unfoldable pub extract_json_message_attributes : Map Json → Map MessageAttributeValue
  unfolding lookup compact_msg_attrs listed_msg_attrs
  extract_json_message_attributes params =
      elim (as_object (lookup (codes "MessageAttributes") params)) [
        | some m ↦ compact_msg_attrs m []
        | none ↦
            listed_msg_attrs (or_no_items (as_array (lookup (codes "MessageAttribute") params))) []
      ]

  unfoldable pub extract_json_msg_attrs_from_obj : Map Json → Map MessageAttributeValue
  unfolding extract_json_message_attributes
  extract_json_msg_attrs_from_obj obj = extract_json_message_attributes obj
