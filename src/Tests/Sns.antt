-- ===== src/Tests/Sns.antt =====
-- The SNS service over Postgres at concrete parameters.
use dropin_queue.Base.{false, some, [], ◌∷◌, codes, arith, pos}
use dropin_queue.Sns.Service.{Service, PublishParams, create_topic}
use dropin_queue.Sns.Names.{Names, create_topic-Names}
use dropin_queue.Postgres.Tables.{QueueRow, Replica}
use dropin_queue.Postgres.Backend.{topic_backend}
use dropin_queue.Tests.{test_lib}
use dropin_queue.Tests.Topics.{with_topics, all_run}

abbrev pub service : Service
service = record { account_id = codes "1"; region = codes "eu"; endpoint_url = [] }

create_topic-Names_example : Names (codes "weather") (
    create_topic
      (topic_backend test_lib 7000 all_run)
      service
      (some (record { name = codes "weather"; tags = [] }))
      with_topics)
create_topic-Names_example =
    create_topic-Names test_lib 7000 all_run service (record { name = codes "weather"; tags = [] })
      with_topics (λ e. absurd (omega (arith, e)), (λ e. absurd (omega (arith, e)), tt))
      (λ e. absurd (omega (arith, e)), tt)

-- A standard queue.
abbrev standard : QueueRow
standard = record {
  id = 1;
  name = codes "orders";
  fifo = false;
  attributes = record {
    visibility_timeout = pos 30;
    message_retention_period = pos 345600;
    maximum_message_size = pos 262144;
    delay_seconds = pos 0;
    receive_message_wait_time_seconds = pos 0;
    content_based_deduplication = false;
  };
  tags = [];
  created_at = 0;
}

abbrev with_standard : Replica
with_standard = record with_topics { tables = record with_topics.tables { queues = standard ∷ [] } }

abbrev news : PublishParams
news = record {
  topic_arn = codes "arn:aws:sns:us-east-1:1:news";
  message = codes "sunny";
  subject = codes "today";
  message_structure = [];
  message_attributes = [];
}
