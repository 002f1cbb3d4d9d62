-- ===== src/Tests/Http.antt =====
-- The HTTP server over Postgres at concrete requests.
use dropin_queue.Base.{
  arith, ℕ, ◌≡◌, refl, true, some, [], ◌∷◌, Text, codes, text_eq, Map, lookup, delete,
}
use dropin_queue.Storage.{Op, fail, queue_not_found}
use dropin_queue.Protocol.Action.{sqs, sns, is_valid_action}
use dropin_queue.Protocol.Query.{Values, get_value}
use dropin_queue.Protocol.Json.{Json, string}
use dropin_queue.Protocol.Wire.{Request, read_body}
use dropin_queue.Postgres.Tables.{Replica}
use dropin_queue.Postgres.Backend.{backend, topic_backend}
use dropin_queue.Server.{is_json_protocol, Context, Server}
use dropin_queue.Server.Http.{serve}
use dropin_queue.Server.Http.Operations.{outcome}
use dropin_queue.Server.Http.Operations.InJson.{json_operations}
use dropin_queue.Server.Http.Operations.InQuery.{query_operations}
use dropin_queue.Server.Http.Dispatch.{serve-json, serve-query}
use dropin_queue.Tests.{test_lib, start}
use dropin_queue.Tests.Topics.{all_run}
use dropin_queue.Tests.Sns as TestsSns

abbrev values : Values
values = (codes "Action", codes "PurgeQueue" ∷ []) ∷ (codes "QueueName", codes "orders" ∷ []) ∷ []

abbrev fields : Map Json
fields = (codes "QueueName", string (codes "orders")) ∷ []

abbrev server : Server Replica
server = record {
  storage = backend test_lib [];
  topics = topic_backend test_lib 7000 all_run;
  sqs = record { account_id = codes "1"; region = codes "us-east-1"; endpoint_url = [] };
  sns = TestsSns.service;
  max_body_bytes = 262144;
  parse_query = λ s. some values;
  unmarshal = λ s. some fields;
  decodes_to_map = λ s. true;
  decode_string = some;
  encode_string = λ s. s;
  int32 = λ n. n;
}

abbrev context : Context
context = record {
  request_id = codes "r1";
  now = 6000000;
  message = codes "missing";
  entry_message = λ id. codes "missing";
}

abbrev json_request : Request
json_request = record {
  method = codes "POST";
  content_type = codes "application/x-amz-json-1.0";
  target = codes "AmazonSQS.PurgeQueue";
  body = some (codes "{}");
}

abbrev form_request : Request
form_request = record {
  method = codes "POST";
  content_type = [];
  target = [];
  body = some (codes "Action=PurgeQueue&QueueName=orders");
}

serve-json_example :
    (operate : Map Json → Replica → ℕ × Replica) × (lookup
        (codes "PurgeQueue")
        (json_operations server context)
      ≡ some operate)
    × (outcome (serve server context json_request start) ≡ operate fields start)
unfolding is_json_protocol is_valid_action text_eq read_body
serve-json_example =
    serve-json server context json_request (codes "PurgeQueue") (codes "{}") fields start refl refl
      refl refl refl (omega arith) refl refl

serve-query_example :
    (operate : Values → Replica → ℕ × Replica) × (lookup
        (codes "PurgeQueue")
        (query_operations server context)
      ≡ some operate)
    × (outcome (serve server context form_request start)
        ≡ operate (delete (codes "Action") (delete (codes "Version") values)) start)
unfolding is_valid_action text_eq read_body get_value
serve-query_example =
    serve-query server context form_request (codes "PurgeQueue")
      (codes "Action=PurgeQueue&QueueName=orders") values start refl refl refl refl (omega arith)
      refl refl refl refl

abbrev missing : Op Replica Text
missing = fail queue_not_found
