-- ===== src/Protocol/Query/Pairs.antt =====
-- The pairs `<prefix>N.<field>` and `<prefix>N.Value` of form values: extractAttributes of
-- shim/internal/sqs/service.go, extractTagsQuery of shim/internal/sns/service.go and
-- ExtractQuerySystemAttributes of shim/internal/protocol/sqs_query.go.
pub mod RoundTrip
use dropin_queue.Base.{
  Option, none, some, List, [], ◌∷◌, ◌++◌, Text, codes, text_eq, Map, lookup, insert, if◌then◌else◌,
}
use dropin_queue.Protocol.Query.{Values, first, index_field}

abbrev pub value_key : Text → Text → Text
value_key prefix idx = prefix ++ (idx ++ codes ".Value")

-- The name and the value, if the key is that of a name and the value's key is there.
unfoldable pub pair_at : Text → Text → Values → Text → Text → Option (Text × Text)
unfolding index_field text_eq lookup
pair_at prefix name_field all k name = elim (index_field prefix k) [
  | none ↦ none
  | some (idx, field) ↦
      if text_eq field name_field
      then elim (first (lookup (value_key prefix idx) all)) [
        | none ↦ none
        | some v ↦ some (name, v)
      ]
      else none
]

abbrev pub add_pair : Option (Text × Text) → Map Text → Map Text
add_pair none out = out
add_pair (some (name, v)) out = insert name v out

-- The loop over what is left of the values, with all of them at hand.
unfoldable pub extract_from : Text → Text → Values → Values → Map Text → Map Text
unfolding pair_at insert
extract_from prefix name_field all [] out = out
extract_from prefix name_field all ((k, []) ∷ params) out =
    extract_from prefix name_field all params out
extract_from prefix name_field all ((k, name ∷ vs) ∷ params) out =
    extract_from prefix name_field all params (add_pair (pair_at prefix name_field all k name) out)

unfoldable pub extract_attributes : Values → Text → Map Text
unfolding extract_from
extract_attributes params key = extract_from (key ++ codes ".") (codes "Name") params params []

unfoldable pub extract_query_system_attributes : Values → Map Text
unfolding extract_from
extract_query_system_attributes params =
    extract_from (codes "Attribute.") (codes "Name") params params []

unfoldable pub extract_tags_query : Values → Map Text
unfolding extract_from
extract_tags_query params = extract_from (codes "Tags.") (codes "Key") params params []
