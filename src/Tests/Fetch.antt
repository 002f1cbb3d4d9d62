-- ===== src/Tests/Fetch.antt =====
-- ReceiveMessage of shim/internal/storage/nats/messages.go with a small broker.
use dropin_queue.Base.{ℕ, suc, length, none, ◌≤◌, ◌≡◌, refl, true, false, List, [], ◌∷◌, pos, codes}
use dropin_queue.Types.{Message, default_queue_attributes}
use dropin_queue.Storage.{Result, ok, err}
use dropin_queue.Nats.Names.{queue_stream_name, queue_consumer_name}
use dropin_queue.Nats.Receipts.Acked.{reply_subject}
use dropin_queue.Nats.Messages.{Lib, Traffic, JetStreamMsg, acked, closed, receive_message}
use dropin_queue.Nats.Messages.Limited.{AtMost, limit, receive_message-AtMost}
use dropin_queue.Nats.Broker.{
  Broker, Node, StreamConfig, done, fault, name_in_use, key_not_found, no_keys_found,
}
use dropin_queue.Tests.Nats.{tokens, plain64, plain_url, client, orders}

abbrev config : StreamConfig
config = record {
  name = codes "queue-orders_fifo";
  subjects = [];
  discard_new = true;
  work_queue = true;
  replicas = 3;
  max_msgs = 10000000;
  max_age = pos 60;
  duplicates = pos 60;
}

-- A broker with every stream and no entry; its state counts the calls of fetch.
abbrev broker : Broker ℕ (Unit {0})
broker = record {
  create_stream = λ cfg s. (fault name_in_use, s);
  stream = λ name s. (done (record { created = 1; config = config }), s);
  update_stream = λ cfg s. (done tt, s);
  delete_stream = λ name s. (done tt, s);
  purge = λ name s. (done tt, s);
  state_msgs = λ name s. (done 3, s);
  stream_names = λ s. ((codes "queue-orders_fifo" ∷ [], true), s);
  create_or_update_consumer = λ stream cfg s. (done tt, s);
  create_or_update_key_value = λ bucket s. (done tt, s);
  kv_get = λ bucket key s. (fault key_not_found, s);
  kv_put = λ bucket key value s. (done tt, s);
  kv_delete = λ bucket key s. (fault key_not_found, s);
  kv_keys = λ bucket s. (fault no_keys_found, s);
}

abbrev arrived : JetStreamMsg
arrived = record {
  data_bytes = codes "hello";
  headers = [];
  reply = reply_subject tokens;
  meta = none;
}

-- Every fetch brings three messages.
abbrev traffic : Traffic ℕ (Unit {0})
traffic = record {
  publish_msg = λ subject body headers id s. (acked 7 false, s);
  fetch = λ h max wait s. (done (arrived ∷ arrived ∷ arrived ∷ [], closed false), suc s);
}

abbrev lib : Lib
lib = record {
  md5_hex = λ t. t;
  sha256_hex = λ t. t;
  base64 = plain64;
  raw_url = plain_url;
  codec = record { marshal = λ md. []; unmarshal = λ t. none };
}

abbrev node : Node ℕ (Unit {0})
node = record { broker = 0; consumers = []; kv_caches = [] }

receive_message-AtMost_example :
    AtMost
      (limit (pos 2))
      (receive_message lib broker traffic client 9 orders (pos 2) (pos 0) (pos 30) node).0
    × (limit (pos 2) ≤ 10)
receive_message-AtMost_example =
    receive_message-AtMost lib broker traffic client 9 orders (pos 2) (pos 0) (pos 30) node

abbrev count_of : Result (List Message) → ℕ
count_of (ok msgs) = length msgs
count_of (err e) = 99

-- Three messages arrive, and two are answered.
two_received :
    count_of (receive_message lib broker traffic client 9 orders (pos 2) (pos 0) (pos 30) node).0
    ≡ 2
unfolding receive_message default_queue_attributes queue_stream_name queue_consumer_name
two_received = refl
