-- ===== src/Storage.antt =====
-- shim/internal/storage/storage.go: the sentinel and typed errors, and the interfaces that a
-- backend implements. An operation takes the state that it works on and gives it back.
use dropin_queue.Base.{ℕ, ℤ, List, Text}
use dropin_queue.Types.{QueueAttributes, Queue, Message, Topic, Subscription}
use dropin_queue.Awserr.Code.{Code}

-- A Go `error` that is not nil. `aws` is an *awserr.Error; `other` is any error without a type of
-- its own, such as what fmt.Errorf wraps. The texts of errors are not modelled.
pub data Err : Type 0 where
  queue_not_found queue_already_exists topic_not_found message_not_found : Err
  broker_unavailable queue_full invalid_argument invalid_receipt_handle : Err
  message_too_large : (body_bytes : ℕ) (max_bytes : ℤ) → Err
  aws : Code → Err
  other : Err

pub data Result {ℓ} (A : Type ℓ) : Type ℓ where
  ok : A → Result A
  err : Err → Result A

-- What a failing call did to the state before it failed stays done.
abbrev pub Op : Type 0 → Type 0 → Type 0
Op S A = S → Result A × S

module _ {S : Type 0} {A B : Type 0} where
  abbrev pub continue : Result A → (A → Op S B) → Op S B
  continue (ok a) f s = f a s
  continue (err e) f s = (err e, s)

  infixl 5 ◌>>=◌ ◌>>◌
  abbrev pub ◌>>=◌ : Op S A → (A → Op S B) → Op S B
  ◌>>=◌ m f s = continue (m s).0 f (m s).1

  abbrev pub ◌>>◌ : Op S A → Op S B → Op S B
  ◌>>◌ m k s = continue (m s).0 (λ _. k) (m s).1

module _ {S : Type 0} {A : Type 0} where
  abbrev pub pure : A → Op S A
  pure a s = (ok a, s)

  abbrev pub fail : Err → Op S A
  fail e s = (err e, s)

module _ {S : Type 0} where
  abbrev pub get_state : Op S S
  get_state s = (ok s, s)

  abbrev pub put_state : S → Op S (Unit {0})
  put_state t s = (ok tt, t)

-- QueueStorage and MessageStorage over the state `S` of a backend. A nil *Message is never passed by
-- the services, and is left to the backends.
pub record Storage (S : Type 0) : Type 0 where
  pub create_queue : Queue → Op S Queue
  pub get_queue : Text → Op S Queue
  pub list_queues : Text → Op S (List Queue)
  pub delete_queue : Text → Op S (Unit {0})
  pub purge_queue : Text → Op S (Unit {0})
  pub set_queue_attributes : Text → QueueAttributes → Op S (Unit {0})
  pub send_message : Text → Message → Op S Message
  pub receive_message : Text → ℤ → ℤ → ℤ → Op S (List Message)
  pub delete_message : Text → Text → Op S (Unit {0})
  pub change_message_visibility : Text → Text → ℤ → Op S (Unit {0})
  pub queue_depth : Text → Op S ℕ

pub record TopicStorage (S : Type 0) : Type 0 where
  pub create_topic : Topic → Op S Topic
  pub get_topic : Text → Op S Topic
  pub list_topics : Text → Op S (List Topic)
  pub delete_topic : Text → Op S (Unit {0})
  pub subscribe : Subscription → Op S Subscription
  pub list_subscriptions : Text → Op S (List Subscription)
  pub unsubscribe : Text → Op S (Unit {0})
  pub publish : Text → Message → Op S Message
