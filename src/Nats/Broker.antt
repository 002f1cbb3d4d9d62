-- ===== src/Nats/Broker.antt =====
-- What shim/internal/storage/nats calls of JetStream, as a record of operations on the broker's
-- state, and what a replica keeps: the caches of client.go and lazy_kv.go. The cache of streams is
-- written and never read, and left out. A stream or a bucket is its name.
use dropin_queue.Base.{
  ℕ, suc, ◌*◌, ◌-◌, ℤ, pos, negsuc, eq_ℤ, Bool, Option, none, some, List, Text, Map, ◌∷◌, any,
  text_eq, lookup, insert, delete, if◌then◌else◌,
}
use dropin_queue.Storage.{Op, Result, ok, err, Err, other}

-- The errors that the code tells apart.
pub data Fault : Type 0 where
  stream_not_found name_in_use key_not_found no_keys_found otherwise : Fault

pub data Answer (A : Type 0) : Type 0 where
  done : A → Answer A
  fault : Fault → Answer A

-- jetstream.StreamConfig. The storage is always a file.
pub record StreamConfig : Type 0 where
  pub name : Text
  pub subjects : List Text
  pub discard_new : Bool
  pub work_queue : Bool
  pub replicas : ℕ
  pub max_msgs : ℕ
  pub max_age : ℤ
  pub duplicates : ℤ

pub record StreamInfo : Type 0 where
  pub created : ℕ
  pub config : StreamConfig

-- jetstream.ConsumerConfig. The consumer is durable and acknowledges explicitly.
pub record ConsumerConfig : Type 0 where
  pub name : Text
  pub max_ack_pending : ℕ
  pub ack_wait : ℤ
  pub filter_subjects : List Text

-- `H` is the type of handles on consumers. `stream_names` gives the names that the lister yields,
-- and whether it ends without an error.
pub record Broker (S H : Type 0) : Type 0 where
  pub create_stream : StreamConfig → S → Answer StreamInfo × S
  pub stream : Text → S → Answer StreamInfo × S
  pub update_stream : StreamConfig → S → Answer (Unit {0}) × S
  pub delete_stream : Text → S → Answer (Unit {0}) × S
  pub purge : Text → S → Answer (Unit {0}) × S
  pub state_msgs : Text → S → Answer ℕ × S
  pub stream_names : S → (List Text × Bool) × S
  pub create_or_update_consumer : Text → ConsumerConfig → S → Answer H × S
  pub create_or_update_key_value : Text → S → Answer (Unit {0}) × S
  pub kv_get : Text → Text → S → Answer Text × S
  pub kv_put : Text → Text → Text → S → Answer (Unit {0}) × S
  pub kv_delete : Text → Text → S → Answer (Unit {0}) × S
  pub kv_keys : Text → S → Answer (List Text) × S

-- A replica, with the broker: its consumers, each with its AckWait, and the buckets it has opened.
pub record Node (S H : Type 0) : Type 0 where
  pub broker : S
  pub consumers : Map (H × ℤ)
  pub kv_caches : List Text

abbrev pub second : ℕ
second = 1000000000

-- time.Duration(n) * time.Second
abbrev pub seconds : ℤ → ℤ
seconds (pos n) = pos (n * second)
seconds (negsuc n) = negsuc (suc n * second - 1)

-- Any error of the broker, wrapped.
abbrev pub wrapped : Fault → Err
wrapped f = other

-- The error for a stream or a key that is not there; any other is wrapped.
abbrev pub missing : Err → Fault → Err
missing e stream_not_found = e
missing e key_not_found = e
missing e _ = other

abbrev matching : {H : Type 0} → ℤ → Option (H × ℤ) → Option H
matching ack_wait none = none
matching ack_wait (some (h, w)) = if eq_ℤ w ack_wait then some h else none

module _ {S H : Type 0} where
  abbrev pub call : {A : Type 0} → (Fault → Err) → (S → Answer A × S) → Op (Node S H) A
  call to_err f n =
      let (a, s) = f n.broker in
      (elim a [ done x ↦ ok x | fault e ↦ err (to_err e) ], record n { broker = s })

  -- What a call of the broker answers, its error included.
  abbrev pub ask : {A : Type 0} → (S → Answer A × S) → Op (Node S H) (Answer A)
  ask f n = let (a, s) = f n.broker in (ok a, record n { broker = s })

  -- What an operation answers, its error included.
  abbrev pub caught : {A : Type 0} → Op (Node S H) A → Op (Node S H) (Result A)
  caught m n = let (a, k) = m n in (ok a, k)

  unfoldable pub cached_queue_consumer : Text → ℤ → Node S H → Option H
  unfolding lookup
  cached_queue_consumer name ack_wait n = matching ack_wait (lookup name n.consumers)

  unfoldable pub cache_queue_consumer : Text → H → ℤ → Op (Node S H) (Unit {0})
  unfolding insert
  cache_queue_consumer name h ack_wait n =
      (ok tt, record n { consumers = insert name (h, ack_wait) n.consumers })

  unfoldable pub invalidate_consumer : Text → Op (Node S H) (Unit {0})
  unfolding delete
  invalidate_consumer name n = (ok tt, record n { consumers = delete name n.consumers })

  -- loadKV: a bucket is created once, and created again only if that failed.
  unfoldable pub load_kv : Text → (S → Answer (Unit {0}) × S) → Op (Node S H) (Unit {0})
  unfolding text_eq
  load_kv bucket create n =
      let made = call wrapped create n in
      if any (text_eq bucket) n.kv_caches then (ok tt, n) else elim made.0 [
        | ok _ ↦ (ok tt, record made.1 { kv_caches = bucket ∷ n.kv_caches })
        | err e ↦ (err e, made.1)
      ]
