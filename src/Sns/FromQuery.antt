-- ===== src/Sns/FromQuery.antt =====
-- The parameters of the operations from form values: the ...ParamsFromQuery functions of
-- shim/internal/sns/service.go.
use dropin_queue.Base.{
  Option, none, some, [], ◌∷◌, ◌++◌, false, ◌&&◌, Text, codes, text_eq, is_empty, has_prefix,
  has_suffix, lookup, take, drop, length, ◌-◌, ◌+◌, ltb, if◌then◌else◌,
}
use dropin_queue.Protocol.Query.{Values, first, get_value, extract_query_message_attributes}
use dropin_queue.Protocol.Query.Pairs.{extract_tags_query}
use dropin_queue.Sns.Service.{CreateTopicParams, SubscribeParams, PublishParams}

unfoldable pub create_topic_params_from_query : Values → CreateTopicParams
unfolding get_value extract_tags_query
create_topic_params_from_query params = record {
  name = get_value params (codes "Name");
  tags = extract_tags_query params;
}

abbrev topic_arn_of : Values → Text
unfolding get_value
topic_arn_of params = get_value params (codes "TopicArn")

abbrev next_token_of : Values → Text
unfolding get_value
next_token_of params = get_value params (codes "NextToken")

unfoldable pub get_topic_attributes_params_from_query : Values → Text
unfolding get_value
get_topic_attributes_params_from_query params = topic_arn_of params

unfoldable pub list_topics_params_from_query : Values → Text
unfolding get_value
list_topics_params_from_query params = next_token_of params

unfoldable pub delete_topic_params_from_query : Values → Text
unfolding get_value
delete_topic_params_from_query params = topic_arn_of params

-- k[len(prefix) : len(k)-len(suffix)], which panics if the two affixes overlap.
unfoldable pub index_between : Text → Text → Text → Option Text
index_between prefix suffix k =
    if ltb (length k) (length prefix + length suffix)
    then none
    else some (take (length k - length prefix - length suffix) (drop (length prefix) k))

abbrev or_value : Text → Option Text → Text
or_value policy none = policy
or_value policy (some v) = v

module _ (prefix name_suffix value_suffix : Text) (all : Values) where
  -- A round of the loop for FilterPolicy; `none` is a panic.
  unfoldable pub policy_step : Text → Text → Text → Option Text
  unfolding has_prefix has_suffix text_eq index_between lookup
  policy_step k v policy =
      if has_prefix prefix k && (has_suffix name_suffix k && text_eq v (codes "FilterPolicy"))
      then elim (index_between prefix name_suffix k) [
        | none ↦ none
        | some idx ↦ some (or_value policy (first (lookup (prefix ++ (idx ++ value_suffix)) all)))
      ]
      else some policy

  unfoldable pub policy_in : Values → Text → Option Text
  unfolding policy_step
  policy_in [] policy = some policy
  policy_in ((k, []) ∷ params) policy = policy_in params policy
  policy_in ((k, v ∷ vs) ∷ params) policy = elim (policy_step k v policy) [
    | none ↦ none
    | some found ↦ policy_in params found
  ]

-- The parameter, or else an attribute in either form.
unfoldable pub filter_policy_of : Values → Option Text
unfolding get_value policy_in
filter_policy_of params =
    if is_empty (get_value params (codes "FilterPolicy"))
    then elim (policy_in (codes "Attributes.") (codes ".Name") (codes ".Value") params params []) [
      | none ↦ none
      | some policy ↦
          if is_empty policy
          then policy_in (codes "Attributes.entry.") (codes ".key") (codes ".value") params params
              []
          else some policy
    ]
    else some (get_value params (codes "FilterPolicy"))

abbrev subscribe_params : Values → Text → SubscribeParams
unfolding get_value text_eq
subscribe_params params policy = record {
  topic_arn = topic_arn_of params;
  protocol = get_value params (codes "Protocol");
  endpoint = get_value params (codes "Endpoint");
  filter_policy = policy;
  raw_delivery = false;
  return_subscription_arn =
      text_eq (get_value params (codes "ReturnSubscriptionArn")) (codes "true");
}

-- `none` is a panic.
unfoldable pub subscribe_params_from_query : Values → Option SubscribeParams
unfolding get_value text_eq filter_policy_of
subscribe_params_from_query params = elim (filter_policy_of params) [
  | none ↦ none
  | some policy ↦ some (subscribe_params params policy)
]

unfoldable pub unsubscribe_params_from_query : Values → Text
unfolding get_value
unsubscribe_params_from_query params = get_value params (codes "SubscriptionArn")

unfoldable pub list_subscriptions_params_from_query : Values → Text
unfolding get_value
list_subscriptions_params_from_query params = next_token_of params

-- The topic's ARN and the token.
unfoldable pub list_subscriptions_by_topic_params_from_query : Values → Text × Text
unfolding get_value
list_subscriptions_by_topic_params_from_query params = (topic_arn_of params, next_token_of params)

unfoldable pub publish_params_from_query : (Text → Option Text) → Values → PublishParams
unfolding get_value extract_query_message_attributes
publish_params_from_query decode_string params = record {
  topic_arn = topic_arn_of params;
  message = get_value params (codes "Message");
  subject = get_value params (codes "Subject");
  message_structure = [];
  message_attributes = extract_query_message_attributes decode_string params;
}

unfoldable pub confirm_subscription_params_from_query : Values → Text × Text
unfolding get_value
confirm_subscription_params_from_query params =
    (topic_arn_of params, get_value params (codes "Token"))
