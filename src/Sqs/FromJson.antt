-- ===== src/Sqs/FromJson.antt =====
-- The parameters of the operations from JSON: the ...ParamsFromJSON functions of
-- shim/internal/sqs/service.go.
use dropin_queue.Base.{
  Option, none, some, List, [], map, ℤ, pos, eq_ℤ, Text, codes, is_empty, Map, lookup,
  if◌then◌else◌,
}
use dropin_queue.Protocol.Arn.{queue_name_from_url}
use dropin_queue.Protocol.Json.{
  Json, as_string, as_array, or_no_items, json_string, strings_of, extract_json_attributes,
  extract_json_message_attributes,
}
use dropin_queue.Protocol.Json.Batch.{
  json_int32, extract_json_send_message_batch_entries, extract_json_delete_message_batch_entries,
}
use dropin_queue.Sqs.Service.{CreateQueueParams}
use dropin_queue.Sqs.Messages.{SendMessageParams, ReceiveMessageParams}
use dropin_queue.Sqs.Batch.{BatchSendEntry, BatchDeleteEntry}
use dropin_queue.Sqs.FromQuery.{batch_send_entry, batch_delete_entry}

unfoldable pub create_queue_params_from_json : Map Json → CreateQueueParams
unfolding json_string extract_json_attributes
create_queue_params_from_json params = record {
  queue_name = json_string params (codes "QueueName");
  attributes = extract_json_attributes params (codes "Attribute") (codes "Name");
  tags = extract_json_attributes params (codes "Tag") (codes "Key");
}

unfoldable pub get_queue_url_params_from_json : Map Json → Text
unfolding json_string
get_queue_url_params_from_json params = json_string params (codes "QueueName")

-- QueueName if it is a text that is not empty, or else what such a QueueUrl names.
abbrev pub name_of_name_or_url : Map Json → Text
unfolding json_string queue_name_from_url
name_of_name_or_url params =
    if is_empty (json_string params (codes "QueueName"))
    then if is_empty (json_string params (codes "QueueUrl"))
      then []
      else queue_name_from_url (json_string params (codes "QueueUrl"))
    else json_string params (codes "QueueName")

abbrev pub strings_at : Text → Map Json → List Text
unfolding lookup strings_of
strings_at key params = strings_of (or_no_items (as_array (lookup key params)))

unfoldable pub get_queue_attributes_params_from_json : Map Json → Text × List Text
unfolding json_string queue_name_from_url lookup strings_of
get_queue_attributes_params_from_json params =
    (name_of_name_or_url params, strings_at (codes "AttributeName") params)

unfoldable pub delete_queue_params_from_json : Map Json → Text
unfolding json_string queue_name_from_url
delete_queue_params_from_json params = name_of_name_or_url params

-- QueueName if it is a text, or else what QueueUrl names if it is one.
unfoldable pub queue_name_in : Option Text → Option Text → Text
unfolding queue_name_from_url
queue_name_in (some name) url = name
queue_name_in none (some url) = queue_name_from_url url
queue_name_in none none = []

abbrev pub queue_name_of : Map Json → Text
unfolding lookup queue_name_in
queue_name_of params =
    queue_name_in (as_string (lookup (codes "QueueName") params))
      (as_string (lookup (codes "QueueUrl") params))

abbrev pub queue_url_of : Map Json → Text
unfolding json_string
queue_url_of params = json_string params (codes "QueueUrl")

unfoldable pub purge_queue_params_from_json : Map Json → Text × Text
unfolding lookup queue_name_in json_string
purge_queue_params_from_json params = (queue_name_of params, queue_url_of params)

unfoldable pub set_queue_attributes_params_from_json : Map Json → Text × Text × Map Text
unfolding lookup queue_name_in json_string extract_json_attributes
set_queue_attributes_params_from_json params = (
  queue_name_of params,
  queue_url_of params,
  extract_json_attributes params (codes "Attribute") (codes "Name"),
)

unfoldable pub delete_message_params_from_json : Map Json → Text × Text × Text
unfolding lookup queue_name_in json_string
delete_message_params_from_json params =
    (queue_name_of params, queue_url_of params, json_string params (codes "ReceiptHandle"))

module _ (int32 : ℤ → ℤ) where
  -- The prefix, the maximum and the token.
  unfoldable pub list_queues_params_from_json : Map Json → Text × ℤ × Text
  unfolding json_string json_int32
  list_queues_params_from_json params = (
    json_string params (codes "QueueNamePrefix"),
    json_int32 int32 params (codes "MaxResults"),
    json_string params (codes "NextToken"),
  )

  unfoldable pub change_message_visibility_params_from_json : Map Json → Text × Text × Text × ℤ
  unfolding lookup queue_name_in json_string json_int32
  change_message_visibility_params_from_json params = (
    queue_name_of params,
    queue_url_of params,
    json_string params (codes "ReceiptHandle"),
    json_int32 int32 params (codes "VisibilityTimeout"),
  )

  abbrev one_for_zero : ℤ → ℤ
  one_for_zero n = if eq_ℤ n (pos 0) then pos 1 else n

  unfoldable pub receive_message_params_from_json : Map Json → ReceiveMessageParams
  unfolding lookup queue_name_in json_string json_int32 strings_of
  receive_message_params_from_json params = record {
    queue_name = queue_name_of params;
    queue_url = queue_url_of params;
    max_number_of_messages = one_for_zero (json_int32 int32 params (codes "MaxNumberOfMessages"));
    visibility_timeout = json_int32 int32 params (codes "VisibilityTimeout");
    wait_time_seconds = json_int32 int32 params (codes "WaitTimeSeconds");
    receive_request_attempt_id = json_string params (codes "ReceiveRequestAttemptId");
    attribute_names = strings_at (codes "AttributeName") params;
    message_attribute_names = strings_at (codes "MessageAttributeName") params;
  }

  unfoldable pub delete_message_batch_params_from_json :
      Map Json → Text × Text × List BatchDeleteEntry
  unfolding lookup queue_name_in json_string extract_json_delete_message_batch_entries
  delete_message_batch_params_from_json params = (
    queue_name_of params,
    queue_url_of params,
    map batch_delete_entry (extract_json_delete_message_batch_entries int32 params),
  )

  module _ (decode_string : Text → Option Text) where
    unfoldable pub send_message_params_from_json : Map Json → SendMessageParams
    unfolding lookup queue_name_in json_string json_int32 extract_json_message_attributes
    send_message_params_from_json params = record {
      queue_name = queue_name_of params;
      queue_url = queue_url_of params;
      body = json_string params (codes "MessageBody");
      delay_seconds = json_int32 int32 params (codes "DelaySeconds");
      message_attributes = extract_json_message_attributes decode_string params;
      message_group_id = json_string params (codes "MessageGroupId");
      message_deduplication_id = json_string params (codes "MessageDeduplicationId");
    }

    unfoldable pub send_message_batch_params_from_json :
        Map Json → Text × Text × List BatchSendEntry
    unfolding lookup queue_name_in json_string extract_json_send_message_batch_entries
    send_message_batch_params_from_json params = (
      queue_name_of params,
      queue_url_of params,
      map batch_send_entry (extract_json_send_message_batch_entries int32 decode_string params),
    )
