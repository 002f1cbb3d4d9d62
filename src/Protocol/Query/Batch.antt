-- ===== src/Protocol/Query/Batch.antt =====
-- The entries of a batch in form values: ExtractQuerySendMessageBatchEntries and
-- ExtractQueryDeleteMessageBatchEntries of shim/internal/protocol/sqs_query.go.
use dropin_queue.Base.{
  Option, none, some, List, [], ◌∷◌, ◌++◌, map, any, ℤ, Text, codes, text_eq, is_empty, Map, insert,
  sort_by, if◌then◌else◌,
}
use dropin_queue.Protocol.Attributes.{MessageAttributeValue}
use dropin_queue.Protocol.Query.{
  Values, get_value, strip_prefix, index_field, parse_int32_default_q,
  extract_query_message_attributes,
}

pub record SendEntry : Type 0 where
  pub id : Text
  pub message_body : Text
  pub delay_seconds : ℤ
  pub message_group_id : Text
  pub message_deduplication_id : Text
  pub message_attributes : Map MessageAttributeValue

pub record DeleteEntry : Type 0 where
  pub id : Text
  pub receipt_handle : Text
  pub visibility_timeout : ℤ

abbrev add_index : Option (Text × Text) → List Text → List Text
add_index none seen = seen
add_index (some (idx, field)) seen =
    if is_empty idx then seen else if any (text_eq idx) seen then seen else seen ++ idx ∷ []

-- The indices in the order in which the loop finds them.
unfoldable pub indices_from : Values → Text → List Text → List Text
unfolding index_field text_eq
indices_from [] prefix seen = seen
indices_from ((k, vs) ∷ params) prefix seen =
    indices_from params prefix (add_index (index_field prefix k) seen)

-- sort.Strings orders the indices as strings.
unfoldable pub collect_batch_indices : Values → Text → List Text
unfolding indices_from sort_by
collect_batch_indices params prefix = sort_by (λ s. s) (indices_from params prefix [])

-- The keys with the prefix, renamed.
unfoldable pub renamed_values : Values → Text → Values
unfolding strip_prefix insert
renamed_values [] prefix = []
renamed_values ((k, v) ∷ params) prefix = elim (strip_prefix (prefix ++ codes ".") k) [
  | none ↦ renamed_values params prefix
  | some rest ↦ (codes "MessageAttribute." ++ rest, v) ∷ renamed_values params prefix
]

module _ (decode_string : Text → Option Text) where
  unfoldable pub extract_query_entry_msg_attrs : Values → Text → Map MessageAttributeValue
  unfolding renamed_values extract_query_message_attributes
  extract_query_entry_msg_attrs params prefix =
      extract_query_message_attributes decode_string (renamed_values params prefix)

  unfoldable pub send_entry_at : Values → Text → SendEntry
  unfolding get_value parse_int32_default_q extract_query_entry_msg_attrs
  send_entry_at params at = record {
    id = get_value params (at ++ codes ".Id");
    message_body = get_value params (at ++ codes ".MessageBody");
    delay_seconds = parse_int32_default_q (get_value params (at ++ codes ".DelaySeconds"));
    message_group_id = get_value params (at ++ codes ".MessageGroupId");
    message_deduplication_id = get_value params (at ++ codes ".MessageDeduplicationId");
    message_attributes = extract_query_entry_msg_attrs params (at ++ codes ".MessageAttribute");
  }

  unfoldable pub extract_query_send_message_batch_entries : Values → List SendEntry
  unfolding collect_batch_indices send_entry_at
  extract_query_send_message_batch_entries params =
      map (λ idx. send_entry_at params (codes "SendMessageBatchRequestEntry." ++ idx))
        (collect_batch_indices params (codes "SendMessageBatchRequestEntry."))

unfoldable pub delete_entry_at : Values → Text → DeleteEntry
unfolding get_value parse_int32_default_q
delete_entry_at params at = record {
  id = get_value params (at ++ codes ".Id");
  receipt_handle = get_value params (at ++ codes ".ReceiptHandle");
  visibility_timeout = parse_int32_default_q (get_value params (at ++ codes ".VisibilityTimeout"));
}

unfoldable pub extract_query_delete_message_batch_entries : Values → List DeleteEntry
unfolding collect_batch_indices delete_entry_at
extract_query_delete_message_batch_entries params =
    map (λ idx. delete_entry_at params (codes "DeleteMessageBatchRequestEntry." ++ idx))
      (collect_batch_indices params (codes "DeleteMessageBatchRequestEntry."))
