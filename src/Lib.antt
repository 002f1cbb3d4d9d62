-- ===== src/Lib.antt =====
-- dropin-queue is a server for the SQS and SNS protocols over NATS JetStream or Postgres. This
-- library models the server from the parsed request to the rows of its Postgres backend and to the
-- calls that its NATS backend makes of the broker, and proves what it promises.
--
-- Parts, and the code that each models:
--   Types, Storage: shim/pkg/types/queue.go and the errors and interfaces of
--     shim/internal/storage/storage.go. An operation takes the state that it works on and gives it
--     back with a result or an error (`Op`); what a failing call did before it failed stays done.
--     `Storage` and `TopicStorage` are the records of the operations that a backend implements and a
--     service uses.
--   Awserr: shim/internal/awserr/awserr.go, with the registrations in the init functions of
--     shim/internal/sqs/service.go and shim/internal/sns/service.go.
--   Protocol: shim/internal/protocol. Arn is arn.go, Attributes message_attribute.go, Action
--     types.go, Wire the two parsers of common.go, Query sqs_query.go and Json sqs_json.go.
--   Sqs: shim/internal/sqs/service.go. Validation has the checks, Service the queue operations,
--     Messages the message operations and Batch the two batches, all over any `Storage`; FromQuery
--     and FromJson read the parameters of the operations from a request.
--   Sns: shim/internal/sns/service.go, in the same way over any `TopicStorage`.
--   Postgres: shim/internal/storage/postgres. Tables has the rows of schema.go and the state of one
--     replica of client.go; Queues is queues.go; Messages (Send, Claim) and LongPoll are messages.go;
--     Topics (with Publish) and FilterPolicy are topics.go; Receipts the receipt handles; Reaper
--     reapOnce; Notify the notification hub and the coalescer of client.go; Backend the adapter as a
--     `Storage` and a `TopicStorage`. Keeps says what every call keeps, Steps what a run of queue
--     and message calls is, and WellFormed, Hidden, Exclusive, Dedup, Sending and Handles, and the
--     children of Queues, Topics and Notify, hold the theorems.
--   Nats: shim/internal/storage/nats. Names are the names of streams and subjects, Headers the message
--     attributes on the wire, Receipts the receipt handles with DeleteMessage and
--     ChangeMessageVisibility, Metadata what is stored of queues, Queues is queues.go, Messages
--     messages.go and Topics (with Calls and Fanout) topics.go. Broker has the calls of JetStream,
--     which are parameters, and the caches of a replica; Backend is the adapter.
--   Config: shim/internal/config/config.go.
--   Server: shim/internal/server. Its own file has the responses of response.go; SqsQuery, SqsJson,
--     SnsQuery and SnsJson are the handlers of sqs_handlers.go and sns_handlers.go; Http is the
--     dispatch of http.go and the recovery of middleware.go, and its Operations say what each action
--     of SQS is for. A handler takes a request's values to a response, and works on the
--     state of the storage.
--   Base: the shared names; Tests: the theorems at concrete states.
--
-- How the database is modelled: a statement is refused, for any reason (`refuses`), or it has the
-- effect that its SQL text says. A transaction runs its statements in order, and a failure or a
-- refused commit restores the tables but not the sequences. Rows stand in a table in no order; a
-- claim skips the rows that other transactions have locked (`locked`). Calls run one after another;
-- between two calls time may pass and another replica may take over, with other caches, locks and
-- refusals (`moves`), and a waiting ReceiveMessage claims again whenever it is woken (`resumes`).
-- Publish delivers one message after another, in an order that is an argument; what it publishes is
-- not stored but in the queues. Times are microseconds. LIKE's underscore stands for one byte, and
-- ORDER BY is by bytes. Sequences do not overflow. encoding/json, MD5, SHA-256 and the UUID
-- functions are parameters (`Lib`).
--
-- How the broker is modelled: a call of JetStream answers a value or an error, and takes the broker's
-- state to another one; a theorem holds for every broker. What the code's own caches hold is in the
-- state of a replica (`Node`). The fan-out of Publish is as in Postgres.
--
-- How requests are modelled: what url.ParseQuery and json.Unmarshal give for a body, base64, and the
-- conversion of a float64 to an int32 are parameters. A float64 is an integer, a body that is
-- written is the tree that encoding/xml or encoding/json is given, and a panic is a missing result.
--
-- Bounds and fuel: an int32 is an integer, and the parsing of one checks its range. Two functions
-- take fuel. The decimal print has its number as fuel and needs one step per digit. The loop over
-- keys that are numbered 1, 2, 3 (`numbered`) has one step more than there are values, and each step
-- but the last finds another one. The wait of ReceiveMessage recurses on the list of what wakes it.
--
-- Not modelled: the texts of errors, which handlers take as functions of the error, logging and
-- metrics; the bytes that the encoders write; the routing and listening of the server; flags and the
-- environment; connecting to the broker or the database. The notifications of Postgres, between the
-- coalescer of one replica and the hub of another, are not modelled: what wakes a waiting
-- ReceiveMessage is an argument of the wait.
pub mod Base
pub mod Types
pub mod Awserr
pub mod Config
pub mod Storage
pub mod Protocol
pub mod Sqs
pub mod Sns
pub mod Postgres
pub mod Nats
pub mod Server
pub mod Tests
