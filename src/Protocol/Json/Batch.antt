-- ===== src/Protocol/Json/Batch.antt =====
-- The entries of a batch in JSON: ExtractJSONSendMessageBatchEntries and
-- ExtractJSONDeleteMessageBatchEntries of shim/internal/protocol/sqs_json.go.
use dropin_queue.Base.{Option, none, some, List, [], ◌∷◌, ℤ, pos, Text, codes, Map, lookup}
use dropin_queue.Protocol.Query.Batch.{SendEntry, DeleteEntry}
use dropin_queue.Protocol.Json.{
  Json, as_number, as_array, as_object, or_no_items, json_string, extract_json_msg_attrs_from_obj,
}

-- The objects of an array; other items are skipped.
unfoldable pub objects_of : List Json → List (Map Json)
objects_of [] = []
objects_of (item ∷ arr) = elim (as_object (some item)) [
  | none ↦ objects_of arr
  | some obj ↦ obj ∷ objects_of arr
]

abbrev pub entries_of : Map Json → List (Map Json)
unfolding lookup objects_of
entries_of params = objects_of (or_no_items (as_array (lookup (codes "Entries") params)))

module _ (int32 : ℤ → ℤ) where
  -- A number, or 0.
  unfoldable pub json_int32 : Map Json → Text → ℤ
  unfolding lookup
  json_int32 obj key = elim (as_number (lookup key obj)) [ none ↦ pos 0 | some n ↦ int32 n ]

  unfoldable pub json_delete_entry : Map Json → DeleteEntry
  unfolding json_string json_int32
  json_delete_entry obj = record {
    id = json_string obj (codes "Id");
    receipt_handle = json_string obj (codes "ReceiptHandle");
    visibility_timeout = json_int32 obj (codes "VisibilityTimeout");
  }

  unfoldable pub json_delete_entries : List (Map Json) → List DeleteEntry
  unfolding json_delete_entry
  json_delete_entries [] = []
  json_delete_entries (obj ∷ objs) = json_delete_entry obj ∷ json_delete_entries objs

  unfoldable pub extract_json_delete_message_batch_entries : Map Json → List DeleteEntry
  unfolding lookup objects_of json_delete_entries
  extract_json_delete_message_batch_entries params = json_delete_entries (entries_of params)

  module _ (decode_string : Text → Option Text) where
    unfoldable pub json_send_entry : Map Json → SendEntry
    unfolding json_string json_int32 extract_json_msg_attrs_from_obj
    json_send_entry obj = record {
      id = json_string obj (codes "Id");
      message_body = json_string obj (codes "MessageBody");
      delay_seconds = json_int32 obj (codes "DelaySeconds");
      message_group_id = json_string obj (codes "MessageGroupId");
      message_deduplication_id = json_string obj (codes "MessageDeduplicationId");
      message_attributes = extract_json_msg_attrs_from_obj decode_string obj;
    }

    unfoldable pub json_send_entries : List (Map Json) → List SendEntry
    unfolding json_send_entry
    json_send_entries [] = []
    json_send_entries (obj ∷ objs) = json_send_entry obj ∷ json_send_entries objs

    unfoldable pub extract_json_send_message_batch_entries : Map Json → List SendEntry
    unfolding lookup objects_of json_send_entries
    extract_json_send_message_batch_entries params = json_send_entries (entries_of params)
