-- ===== src/Sqs/FromQuery.antt =====
-- The parameters of the operations from form values: the ...ParamsFromQuery functions of
-- shim/internal/sqs/service.go.
pub mod Numbered
use dropin_queue.Base.{
  ℕ, zero, suc, ◌+◌, Option, none, some, List, [], ◌∷◌, ◌++◌, map, ℤ, pos, length, Text, codes,
  is_empty, Map, lookup, format, if◌then◌else◌,
}
use dropin_queue.Protocol.Arn.{queue_name_from_url}
use dropin_queue.Protocol.Query.{Values, first, get_value, extract_query_message_attributes}
use dropin_queue.Protocol.Query.Pairs.{extract_attributes}
use dropin_queue.Protocol.Query.Batch.{
  SendEntry, DeleteEntry, extract_query_send_message_batch_entries,
  extract_query_delete_message_batch_entries,
}
use dropin_queue.Sqs.Validation.{parse_int32_default}
use dropin_queue.Sqs.Service.{CreateQueueParams, name_or_url}
use dropin_queue.Sqs.Messages.{SendMessageParams, ReceiveMessageParams}
use dropin_queue.Sqs.Batch.{BatchSendEntry, BatchDeleteEntry}

unfoldable pub create_queue_params_from_query : Values → CreateQueueParams
unfolding get_value extract_attributes
create_queue_params_from_query params = record {
  queue_name = get_value params (codes "QueueName");
  attributes = extract_attributes params (codes "Attribute");
  tags = extract_attributes params (codes "Tag");
}

unfoldable pub get_queue_url_params_from_query : Values → Text
unfolding get_value
get_queue_url_params_from_query params = get_value params (codes "QueueName")

-- for i := 1; ; i++ over the keys `<name>.<i>`, until one is missing
unfoldable pub numbered : ℕ → Text → ℕ → Values → List Text
unfolding lookup format
numbered zero name i params = []
numbered (suc fuel) name i params = elim (first (lookup (name ++ b'.' ∷ format i) params)) [
  | none ↦ []
  | some v ↦ v ∷ numbered fuel name (suc i) params
]

-- Each round finds another key, so there are no more rounds than keys.
abbrev pub numbered_values : Text → Values → List Text
unfolding numbered
numbered_values name params = numbered (suc (length params)) name 1 params

unfoldable pub get_queue_attributes_params_from_query : Values → Text × List Text
unfolding get_value numbered
get_queue_attributes_params_from_query params =
    (get_value params (codes "QueueName"), numbered_values (codes "AttributeName") params)

-- The prefix, the maximum and the token.
unfoldable pub list_queues_params_from_query : Values → Text × ℤ × Text
unfolding get_value parse_int32_default
list_queues_params_from_query params = (
  get_value params (codes "QueueNamePrefix"),
  parse_int32_default (get_value params (codes "MaxResults")) (pos 0),
  get_value params (codes "NextToken"),
)

-- QueueName, or else what QueueUrl names.
abbrev pub queue_name_of : Values → Text
unfolding get_value name_or_url
queue_name_of params =
    name_or_url (get_value params (codes "QueueName")) (get_value params (codes "QueueUrl"))

abbrev pub queue_url_of : Values → Text
unfolding get_value
queue_url_of params = get_value params (codes "QueueUrl")

unfoldable pub delete_queue_params_from_query : Values → Text
unfolding get_value queue_name_from_url
delete_queue_params_from_query params =
    if is_empty (get_value params (codes "QueueName"))
    then queue_name_from_url (get_value params (codes "QueueUrl"))
    else get_value params (codes "QueueName")

unfoldable pub purge_queue_params_from_query : Values → Text × Text
unfolding get_value name_or_url
purge_queue_params_from_query params = (queue_name_of params, queue_url_of params)

unfoldable pub set_queue_attributes_params_from_query : Values → Text × Text × Map Text
unfolding get_value name_or_url extract_attributes
set_queue_attributes_params_from_query params =
    (queue_name_of params, queue_url_of params, extract_attributes params (codes "Attribute"))

unfoldable pub delete_message_params_from_query : Values → Text × Text × Text
unfolding get_value name_or_url
delete_message_params_from_query params =
    (queue_name_of params, queue_url_of params, get_value params (codes "ReceiptHandle"))

unfoldable pub change_message_visibility_params_from_query : Values → Text × Text × Text × ℤ
unfolding get_value name_or_url parse_int32_default
change_message_visibility_params_from_query params = (
  queue_name_of params,
  queue_url_of params,
  get_value params (codes "ReceiptHandle"),
  parse_int32_default (get_value params (codes "VisibilityTimeout")) (pos 0),
)

unfoldable pub receive_message_params_from_query : Values → ReceiveMessageParams
unfolding get_value name_or_url parse_int32_default numbered
receive_message_params_from_query params = record {
  queue_name = queue_name_of params;
  queue_url = queue_url_of params;
  max_number_of_messages =
      parse_int32_default (get_value params (codes "MaxNumberOfMessages")) (pos 1);
  visibility_timeout = parse_int32_default (get_value params (codes "VisibilityTimeout")) (pos 0);
  wait_time_seconds = parse_int32_default (get_value params (codes "WaitTimeSeconds")) (pos 0);
  receive_request_attempt_id = get_value params (codes "ReceiveRequestAttemptId");
  attribute_names = numbered_values (codes "AttributeName") params;
  message_attribute_names = numbered_values (codes "MessageAttributeName") params;
}

abbrev pub batch_send_entry : SendEntry → BatchSendEntry
batch_send_entry e = record {
  id = e.id;
  message_body = e.message_body;
  delay_seconds = e.delay_seconds;
  message_group_id = e.message_group_id;
  message_deduplication_id = e.message_deduplication_id;
  message_attributes = e.message_attributes;
}

abbrev pub batch_delete_entry : DeleteEntry → BatchDeleteEntry
batch_delete_entry e = record {
  id = e.id;
  receipt_handle = e.receipt_handle;
  visibility_timeout = e.visibility_timeout;
}

unfoldable pub delete_message_batch_params_from_query : Values → Text × Text × List BatchDeleteEntry
unfolding get_value name_or_url extract_query_delete_message_batch_entries
delete_message_batch_params_from_query params = (
  queue_name_of params,
  queue_url_of params,
  map batch_delete_entry (extract_query_delete_message_batch_entries params),
)

module _ (decode_string : Text → Option Text) where
  unfoldable pub send_message_params_from_query : Values → SendMessageParams
  unfolding get_value name_or_url parse_int32_default extract_query_message_attributes
  send_message_params_from_query params = record {
    queue_name = queue_name_of params;
    queue_url = queue_url_of params;
    body = get_value params (codes "MessageBody");
    delay_seconds = parse_int32_default (get_value params (codes "DelaySeconds")) (pos 0);
    message_attributes = extract_query_message_attributes decode_string params;
    message_group_id = get_value params (codes "MessageGroupId");
    message_deduplication_id = get_value params (codes "MessageDeduplicationId");
  }

  unfoldable pub send_message_batch_params_from_query : Values → Text × Text × List BatchSendEntry
  unfolding get_value name_or_url extract_query_send_message_batch_entries
  send_message_batch_params_from_query params = (
    queue_name_of params,
    queue_url_of params,
    map batch_send_entry (extract_query_send_message_batch_entries decode_string params),
  )
