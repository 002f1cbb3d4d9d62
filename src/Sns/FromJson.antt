-- ===== src/Sns/FromJson.antt =====
-- The parameters of the operations from JSON: the ...ParamsFromJSON functions of
-- shim/internal/sns/service.go.
use dropin_queue.Base.{
  Bool, false, Option, none, some, List, [], ◌∷◌, Text, codes, is_empty, Map, lookup, insert,
  if◌then◌else◌,
}
use dropin_queue.Protocol.Json.{
  Json, as_string, as_bool, as_array, as_object, or_no_items, json_string,
  extract_json_message_attributes,
}
use dropin_queue.Sns.Service.{CreateTopicParams, SubscribeParams, PublishParams}

abbrev add_tag : Option (Map Json) → Map Text → Map Text
unfolding json_string insert
add_tag none tags = tags
add_tag (some m) tags =
    if is_empty (json_string m (codes "Key"))
    then tags
    else insert (json_string m (codes "Key")) (json_string m (codes "Value")) tags

unfoldable pub json_tags : List Json → Map Text → Map Text
unfolding json_string insert
json_tags [] tags = tags
json_tags (item ∷ arr) tags = json_tags arr (add_tag (as_object (some item)) tags)

unfoldable pub create_topic_params_from_json : Map Json → CreateTopicParams
unfolding json_string json_tags lookup
create_topic_params_from_json params = record {
  name = json_string params (codes "Name");
  tags = json_tags (or_no_items (as_array (lookup (codes "Tags") params))) [];
}

abbrev topic_arn_of : Map Json → Text
unfolding json_string
topic_arn_of params = json_string params (codes "TopicArn")

abbrev next_token_of : Map Json → Text
unfolding json_string
next_token_of params = json_string params (codes "NextToken")

unfoldable pub get_topic_attributes_params_from_json : Map Json → Text
unfolding json_string
get_topic_attributes_params_from_json params = topic_arn_of params

unfoldable pub list_topics_params_from_json : Map Json → Text
unfolding json_string
list_topics_params_from_json params = next_token_of params

unfoldable pub delete_topic_params_from_json : Map Json → Text
unfolding json_string
delete_topic_params_from_json params = topic_arn_of params

-- FilterPolicy if it is a text, or else the one of Attributes.
unfoldable pub policy_from : Option Text → Option (Map Json) → Text
unfolding json_string
policy_from (some policy) attrs = policy
policy_from none none = []
policy_from none (some attrs) = json_string attrs (codes "FilterPolicy")

abbrev is_true : Option Bool → Bool
is_true none = false
is_true (some b) = b

unfoldable pub subscribe_params_from_json : Map Json → SubscribeParams
unfolding json_string policy_from lookup
subscribe_params_from_json params = record {
  topic_arn = topic_arn_of params;
  protocol = json_string params (codes "Protocol");
  endpoint = json_string params (codes "Endpoint");
  filter_policy =
      policy_from (as_string (lookup (codes "FilterPolicy") params))
        (as_object (lookup (codes "Attributes") params));
  raw_delivery = false;
  return_subscription_arn = is_true (as_bool (lookup (codes "ReturnSubscriptionArn") params));
}

unfoldable pub unsubscribe_params_from_json : Map Json → Text
unfolding json_string
unsubscribe_params_from_json params = json_string params (codes "SubscriptionArn")

unfoldable pub list_subscriptions_params_from_json : Map Json → Text
unfolding json_string
list_subscriptions_params_from_json params = next_token_of params

-- The topic's ARN and the token.
unfoldable pub list_subscriptions_by_topic_params_from_json : Map Json → Text × Text
unfolding json_string
list_subscriptions_by_topic_params_from_json params = (topic_arn_of params, next_token_of params)

unfoldable pub publish_params_from_json : (Text → Option Text) → Map Json → PublishParams
unfolding json_string extract_json_message_attributes
publish_params_from_json decode_string params = record {
  topic_arn = topic_arn_of params;
  message = json_string params (codes "Message");
  subject = json_string params (codes "Subject");
  message_structure = json_string params (codes "MessageStructure");
  message_attributes = extract_json_message_attributes decode_string params;
}

unfoldable pub confirm_subscription_params_from_json : Map Json → Text × Text
unfolding json_string
confirm_subscription_params_from_json params =
    (topic_arn_of params, json_string params (codes "Token"))
