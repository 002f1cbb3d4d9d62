-- ===== src/Server/SnsQuery.antt =====
-- The handlers of SNS in form values and XML: the handleSNS...Query methods of
-- shim/internal/server/sns_handlers.go. A panic is `none`.
use dropin_queue.Base.{Option, none, some, List, [], ◌∷◌, map, Text, codes}
use dropin_queue.Types.{Topic, Subscription}
use dropin_queue.Awserr.Code.{topic_does_not_exist}
use dropin_queue.Storage.{Op}
use dropin_queue.Protocol.Arn.{new_sns_arn}
use dropin_queue.Protocol.Query.{Values}
use dropin_queue.Sns.Service.{
  create_topic, get_topic_attributes, list_topics, delete_topic, subscribe, unsubscribe,
  list_subscriptions, list_subscriptions_by_topic, publish, confirm_subscription,
}
use dropin_queue.Sns.FromQuery.{
  create_topic_params_from_query, get_topic_attributes_params_from_query,
  delete_topic_params_from_query, subscribe_params_from_query, unsubscribe_params_from_query,
  list_subscriptions_by_topic_params_from_query, publish_params_from_query,
  confirm_subscription_params_from_query,
}
use dropin_queue.Server.{
  sns_query, Xml, leaf, element, nodes, Response, Context, respond_sns_query_xml, respond, by_key,
  Server,
}
use dropin_queue.Server.SqsQuery.{leaf_if_any, name_value}

abbrev arn_result : Text → Text → Text → Xml
arn_result tag name arn = element tag (nodes (leaf name arn ∷ []))

module _ {S : Type 0} (v : Server S) (c : Context) where
  abbrev answer : {A : Type 0} → Text → Op S A → (A → Option Xml) → S → Response × S
  unfolding respond
  answer action m f =
      respond sns_query topic_does_not_exist c m
        (λ a. respond_sns_query_xml action (f a) c.request_id)

  abbrev topic_member : Topic → Xml
  topic_member t =
      element (codes "member")
        (nodes (leaf (codes "TopicArn") (new_sns_arn v.sns.region v.sns.account_id t.name) ∷ []))

  abbrev sub_member : Subscription → Xml
  sub_member s = element (codes "member") (
      nodes (
        leaf (codes "TopicArn") s.topic_arn
        ∷ leaf (codes "Protocol") s.protocol
        ∷ leaf (codes "SubscriptionArn") s.arn
        ∷ leaf (codes "Endpoint") s.endpoint
        ∷ leaf (codes "Owner") v.sns.account_id
        ∷ []))

  -- The token is always empty, and so left out.
  unfoldable pub subscriptions_xml : Text → List Subscription → Xml
  subscriptions_xml result_tag subs =
      element result_tag
        (nodes (element (codes "Subscriptions") (nodes (map sub_member subs)) ∷ []))

  unfoldable pub handle_sns_create_topic_query : Values → S → Response × S
  unfolding respond create_topic create_topic_params_from_query
  handle_sns_create_topic_query params =
      answer (codes "CreateTopic")
        (create_topic v.topics v.sns (some (create_topic_params_from_query params)))
        (λ arn. some (arn_result (codes "CreateTopicResult") (codes "TopicArn") arn))

  unfoldable pub handle_sns_get_topic_attributes_query : Values → S → Response × S
  unfolding respond get_topic_attributes get_topic_attributes_params_from_query by_key
  handle_sns_get_topic_attributes_query params =
      answer (codes "GetTopicAttributes")
        (get_topic_attributes v.topics v.sns (some (get_topic_attributes_params_from_query params)))
        (λ attrs. some (
          element (codes "GetTopicAttributesResult")
            (nodes (map (name_value (codes "member")) (by_key attrs)))))

  unfoldable pub handle_sns_list_topics_query : Values → S → Response × S
  unfolding respond list_topics new_sns_arn
  handle_sns_list_topics_query params =
      answer (codes "ListTopics") (list_topics v.topics v.sns) (λ topics. some (
        element (codes "ListTopicsResult")
          (nodes (element (codes "Topics") (nodes (map topic_member topics)) ∷ []))))

  unfoldable pub handle_sns_delete_topic_query : Values → S → Response × S
  unfolding respond delete_topic delete_topic_params_from_query
  handle_sns_delete_topic_query params =
      answer (codes "DeleteTopic")
        (delete_topic v.topics v.sns (some (delete_topic_params_from_query params))) (λ _. none)

  unfoldable pub handle_sns_subscribe_query : Values → S → Option (Response × S)
  unfolding respond subscribe subscribe_params_from_query
  handle_sns_subscribe_query params s = elim (subscribe_params_from_query params) [
    | none ↦ none
    | some p ↦ some (
        answer (codes "Subscribe") (subscribe v.topics v.sns v.decodes_to_map (some p))
          (λ arn. some (arn_result (codes "SubscribeResult") (codes "SubscriptionArn") arn)) s)
  ]

  unfoldable pub handle_sns_unsubscribe_query : Values → S → Response × S
  unfolding respond unsubscribe unsubscribe_params_from_query
  handle_sns_unsubscribe_query params =
      answer (codes "Unsubscribe")
        (unsubscribe v.topics v.sns (some (unsubscribe_params_from_query params))) (λ _. none)

  unfoldable pub handle_sns_publish_query : Values → S → Response × S
  unfolding respond publish publish_params_from_query
  handle_sns_publish_query params =
      answer (codes "Publish")
        (publish v.topics v.sns (some (publish_params_from_query v.decode_string params)))
        (λ id. some (element (codes "PublishResult") (nodes (leaf_if_any (codes "MessageId") id))))

  unfoldable pub handle_sns_list_subscriptions_query : Values → S → Response × S
  unfolding respond list_subscriptions subscriptions_xml
  handle_sns_list_subscriptions_query params =
      answer (codes "ListSubscriptions") (list_subscriptions v.topics v.sns)
        (λ subs. some (subscriptions_xml (codes "ListSubscriptionsResult") subs))

  unfoldable pub handle_sns_list_subscriptions_by_topic_query : Values → S → Response × S
  unfolding respond list_subscriptions_by_topic subscriptions_xml
      list_subscriptions_by_topic_params_from_query
  handle_sns_list_subscriptions_by_topic_query params =
      answer (codes "ListSubscriptionsByTopic")
        (list_subscriptions_by_topic v.topics v.sns
          (some (list_subscriptions_by_topic_params_from_query params).0))
        (λ subs. some (subscriptions_xml (codes "ListSubscriptionsByTopicResult") subs))

  unfoldable pub handle_sns_confirm_subscription_query : Values → S → Response × S
  unfolding respond confirm_subscription confirm_subscription_params_from_query
  handle_sns_confirm_subscription_query params =
      answer (codes "ConfirmSubscription")
        (confirm_subscription v.topics v.sns (some (confirm_subscription_params_from_query params)))
        (λ arn. some (arn_result (codes "ConfirmSubscriptionResult") (codes "SubscriptionArn") arn))
