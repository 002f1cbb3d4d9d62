-- ===== src/Tests/Sending.antt =====
-- Sends to the test queue.
use dropin_queue.Base.{◌≡◌, refl, List, [], ◌∷◌, pos, arith, Text, codes}
use dropin_queue.Types.{Message}
use dropin_queue.Storage.{Result}
use dropin_queue.Postgres.Tables.{Replica}
use dropin_queue.Postgres.Messages.Send.{send_tx, transaction, duplicate, Sent}
use dropin_queue.Postgres.Reaper.{reap_dedup}
use dropin_queue.Postgres.Dedup.Once.{send_once}
use dropin_queue.Postgres.Dedup.Expired.{reap-send}
use dropin_queue.Postgres.Steps.{Call, reaps, moves, resumes, run}
use dropin_queue.Tests.{test_lib, start, ident_orders, value}
use dropin_queue.Tests.Delivery.{start-IsWellFormed}

abbrev send : Text → Replica → Result Sent × Replica
send body = transaction (send_tx 1 (codes "default") body [] (codes "key"))

abbrev between : List Call
between = moves 299000000 start ∷ reaps ∷ resumes ident_orders (pos 10) (pos 30) ∷ []

abbrev again : Result Sent × Replica
again = send (codes "other") (run test_lib between (send (codes "hi") start).1)

send_once_example :
    (value (duplicate 0) again.0 ≡ duplicate 5)
    × (again.1.messages ≡ (run test_lib between (send (codes "hi") start).1).messages)
unfolding transaction run
send_once_example =
    send_once test_lib 1 (codes "default") (codes "hi") [] (codes "key") start
      (send (codes "hi") start).1 5 6000000 start-IsWellFormed refl refl between refl (omega arith)
      (codes "default") (codes "other") [] (value (duplicate 0) again.0) again.1 refl

abbrev hello : Message
hello = record {
  id = [];
  receipt_handle = [];
  body = codes "hello";
  md5_of_body = [];
  attributes = [];
  message_attributes = [];
  enqueued_at = 0;
  message_group_id = [];
  message_deduplication_id = codes "key";
}

reap-send_example :
    ((send (codes "hi") (reap_dedup start).1).0 ≡ (send (codes "hi") start).0)
    × ((send (codes "hi") (reap_dedup start).1).1.messages ≡ (send (codes "hi") start).1.messages)
reap-send_example =
    reap-send 1 (codes "default") (codes "hi") [] (codes "key") start start-IsWellFormed
