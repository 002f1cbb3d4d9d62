-- ===== src/Protocol/Query.antt =====
-- Form values on the wire: shim/internal/protocol/sqs_query.go. A url.Values is an association list
-- in the order in which a loop over the map visits it; what package net/url parses is given.
pub mod Pairs
pub mod Batch
use dropin_queue.Base.{
  ℕ, ◌==◌, Bool, true, false, ◌&&◌, ◌||◌, not, Option, none, some, List, [], ◌∷◌, ◌++◌, ℤ, pos,
  Text, codes, text_eq, is_empty, has_prefix, cut, Map, lookup, insert, parse_int, if◌then◌else◌,
}
use dropin_queue.Protocol.Attributes.{MessageAttributeValue}

abbrev pub Values : Type 0
Values = Map (List Text)

-- vs[0], if there is one
abbrev pub first : Option (List Text) → Option Text
first (some (v ∷ vs)) = some v
first _ = none

abbrev pub or_empty : Option Text → Text
or_empty none = []
or_empty (some s) = s

-- params.Get(key)
unfoldable pub get_value : Values → Text → Text
unfolding lookup
get_value params key = or_empty (first (lookup key params))

-- strings.HasPrefix(s, p) and s[len(p):]
unfoldable pub strip_prefix : Text → Text → Option Text
strip_prefix [] s = some s
strip_prefix (c ∷ p) [] = none
strip_prefix (c ∷ p) (d ∷ s) = if c == d then strip_prefix p s else none

-- strings.TrimPrefix(s, p), with p first
abbrev pub trim_prefix : Text → Text → Text
trim_prefix p s = elim (strip_prefix p s) [ none ↦ s | some rest ↦ rest ]

-- A key with the prefix, cut at the next dot: the index and the field.
unfoldable pub index_field : Text → Text → Option (Text × Text)
unfolding strip_prefix cut
index_field prefix key = elim (strip_prefix prefix key) [ none ↦ none | some rest ↦ cut b'.' rest ]

-- strconv.ParseInt(s, 10, 32), and 0 for an error
unfoldable pub parse_int32_default_q : Text → ℤ
unfolding parse_int
parse_int32_default_q s =
    if is_empty s then pos 0 else elim (parse_int 32 s) [ none ↦ pos 0 | some n ↦ n ]

-- strings.Join(items, "|")
unfoldable pub join_list : List Text → Text
join_list [] = []
join_list (s ∷ []) = s
join_list (s ∷ t ∷ ss) = s ++ b'|' ∷ join_list (t ∷ ss)

pub record MsgAttrEntry : Type 0 where
  pub name : Text
  pub data_type : Text
  pub string_value : Text
  pub binary_value : Text
  pub string_list : List Text

abbrev pub no_entry : MsgAttrEntry
no_entry = record {
  name = [];
  data_type = [];
  string_value = [];
  binary_value = [];
  string_list = [];
}

abbrev pub or_no_entry : Option MsgAttrEntry → MsgAttrEntry
or_no_entry none = no_entry
or_no_entry (some e) = e

-- What the field of a key sets in the entry of its index.
unfoldable pub set_field : Text → Text → MsgAttrEntry → MsgAttrEntry
unfolding text_eq has_prefix
set_field field v e =
    if text_eq field (codes "Name")
    then record e { name = v }
    else if text_eq field (codes "DataType")
    then record e { data_type = v }
    else if text_eq field (codes "StringValue")
    then record e { string_value = v }
    else if text_eq field (codes "BinaryValue")
    then record e { binary_value = v }
    else if has_prefix (codes "StringListValue.") field
    then record e { string_list = e.string_list ++ v ∷ [] }
    else e

abbrev set_at : Text → Text → Text → Map MsgAttrEntry → Map MsgAttrEntry
set_at idx field v by_idx =
    insert idx (set_field (trim_prefix (codes "Value.") field) v (or_no_entry (lookup idx by_idx)))
      by_idx

unfoldable pub parse_query_attrs : Values → Text → Map MsgAttrEntry → Map MsgAttrEntry
unfolding index_field set_field lookup insert
parse_query_attrs [] prefix by_idx = by_idx
parse_query_attrs ((k, []) ∷ params) prefix by_idx = parse_query_attrs params prefix by_idx
parse_query_attrs ((k, v ∷ vs) ∷ params) prefix by_idx =
    parse_query_attrs params prefix (elim (index_field prefix k) [
      | none ↦ by_idx
      | some (idx, field) ↦ set_at idx field v by_idx
    ])

abbrev or_else : Text → Text → Text
or_else s t = if is_empty s then t else s

-- The fields that an entry leaves out, taken from another one.
unfoldable pub fill : MsgAttrEntry → MsgAttrEntry → MsgAttrEntry
fill flat e = record {
  name = or_else flat.name e.name;
  data_type = or_else flat.data_type e.data_type;
  string_value = or_else flat.string_value e.string_value;
  binary_value = or_else flat.binary_value e.binary_value;
  string_list = elim flat.string_list [ [] ↦ e.string_list | x ∷ xs ↦ x ∷ xs ];
}

unfoldable pub flatten : Map MsgAttrEntry → Map MsgAttrEntry → Map MsgAttrEntry
unfolding fill lookup insert
flatten [] by_idx = by_idx
flatten ((idx, e) ∷ es) by_idx =
    flatten es (insert idx (fill (or_no_entry (lookup idx by_idx)) e) by_idx)

-- encoding/base64's StdEncoding.DecodeString, which is not modelled.
module _ (decode_string : Text → Option Text) where
  unfoldable pub decode_base64 : Text → Text
  decode_base64 s = if is_empty s then [] else or_empty (decode_string s)

  -- The attribute of an entry, if it has a name and a type that is known.
  unfoldable pub entry_attribute : MsgAttrEntry → Option MessageAttributeValue
  unfolding text_eq decode_base64 join_list
  entry_attribute e =
      if is_empty e.name || is_empty e.data_type
      then none
      else if text_eq e.data_type (codes "String") || text_eq e.data_type (codes "Number")
      then some
          (record { data_type = e.data_type; string_value = e.string_value; binary_value = [] })
      else if text_eq e.data_type (codes "Binary")
      then some (record {
        data_type = codes "Binary";
        string_value = [];
        binary_value = decode_base64 e.binary_value;
      })
      else if text_eq e.data_type (codes "String.List")
      then some (record {
        data_type = codes "String.List";
        string_value = join_list e.string_list;
        binary_value = [];
      })
      else none

  unfoldable pub entry_attributes :
      Map MsgAttrEntry → Map MessageAttributeValue → Map MessageAttributeValue
  unfolding entry_attribute insert
  entry_attributes [] out = out
  entry_attributes ((idx, e) ∷ es) out =
      entry_attributes es (elim (entry_attribute e) [ none ↦ out | some v ↦ insert e.name v out ])

  unfoldable pub extract_query_message_attributes : Values → Map MessageAttributeValue
  unfolding parse_query_attrs flatten entry_attributes
  extract_query_message_attributes params =
      entry_attributes
        (flatten (parse_query_attrs params (codes "MessageAttributes.entry.") [])
          (parse_query_attrs params (codes "MessageAttribute.") []))
        []
