-- ===== src/Sqs/Service.antt =====
-- The queue operations of the Service of shim/internal/sqs/service.go, over any storage. Errors carry
-- their codes; logging is not modelled. A nil params pointer is `none`.

pub mod Names
use dropin_queue.Base.{
  ℕ, suc, ◌/◌, ◌+◌, ◌==◌, Bool, true, false, ◌&&◌, ◌||◌, not, Option, none, some, List, [], ◌∷◌,
  ◌++◌, map, ℤ, pos, negsuc, any, length, Text, codes, text_eq, is_empty, has_suffix, Map, lookup,
  insert, format, if◌then◌else◌, select,
}
use dropin_queue.Types.{QueueAttributes, Queue, default_queue_attributes}
use dropin_queue.Awserr.Code.{
  Code, missing_parameter, invalid_parameter_value, internal_error, queue_does_not_exist,
}
use dropin_queue.Storage.{Storage, Op, Result, Err, ok, err, aws, pure, fail, ◌>>=◌, ◌>>◌, continue}
use dropin_queue.Protocol.Arn.{queue_name_from_url, new_queue_url, new_sqs_arn}
use dropin_queue.Sqs.Validation.{is_valid_queue_name, parse_int32_default, validate_attributes}

pub record Service : Type 0 where
  pub account_id : Text
  pub region : Text
  pub endpoint_url : Text

-- m[k] of a map of strings: "" where the key is missing.
abbrev pub get : Text → Map Text → Text
get k m = elim (lookup k m) [ none ↦ [] | some v ↦ v ]

-- A check that found nothing passes.
abbrev pub checked : {S A : Type 0} → Option Code → Op S A → Op S A
checked none m = m
checked (some c) m = fail (aws c)

-- if params.QueueName == "" && params.QueueURL != "" { ... }
unfoldable pub name_or_url : Text → Text → Text
unfolding queue_name_from_url
name_or_url name url = if is_empty name && not (is_empty url) then queue_name_from_url url else name

-- The operation on the queue that a name or a URL gives.
abbrev pub on_queue : {S A : Type 0} → Text → Text → (Text → Op S A) → Op S A
on_queue name url f =
    if is_empty (name_or_url name url)
    then fail (aws missing_parameter)
    else f (name_or_url name url)

abbrev pub is_true : Text → Bool
is_true s = text_eq s (codes "true")

-- The attributes that CreateQueue and SetQueueAttributes read, with the defaults that they give.
unfoldable pub read_attributes : QueueAttributes → Map Text → QueueAttributes
unfolding parse_int32_default lookup text_eq
read_attributes d m = record {
  visibility_timeout = parse_int32_default (get (codes "VisibilityTimeout") m) d.visibility_timeout;
  message_retention_period =
      parse_int32_default (get (codes "MessageRetentionPeriod") m) d.message_retention_period;
  maximum_message_size =
      parse_int32_default (get (codes "MaximumMessageSize") m) d.maximum_message_size;
  delay_seconds = parse_int32_default (get (codes "DelaySeconds") m) d.delay_seconds;
  receive_message_wait_time_seconds =
      parse_int32_default (get (codes "ReceiveMessageWaitTimeSeconds") m)
        d.receive_message_wait_time_seconds;
  content_based_deduplication = is_true (get (codes "ContentBasedDeduplication") m);
}

abbrev pub no_attributes : QueueAttributes
no_attributes = record {
  visibility_timeout = pos 0;
  message_retention_period = pos 0;
  maximum_message_size = pos 0;
  delay_seconds = pos 0;
  receive_message_wait_time_seconds = pos 0;
  content_based_deduplication = false;
}

pub record CreateQueueParams : Type 0 where
  pub queue_name : Text
  pub attributes : Map Text
  pub tags : Map Text

-- Every error of the storage becomes an InternalError.
abbrev internal : {S A B : Type 0} → (A → Op S B) → Result A → Op S B
internal f (ok a) = f a
internal f (err e) = fail (aws internal_error)

-- fmt.Sprintf("%d", n)
abbrev pub format_int : ℤ → Text
format_int (pos n) = format n
format_int (negsuc n) = b'-' ∷ format (suc n)

-- AttributeNames holds no name, or "All".
unfoldable pub wants_all : List Text → Bool
unfolding text_eq
wants_all [] = true
wants_all (n ∷ ns) = any (λ x. text_eq x (codes "All")) (n ∷ ns)

-- The entries of the names, added to a map.
unfoldable pub pick {ℓ} : {V : Type ℓ} → List Text → Map V → Map V → Map V
unfolding lookup insert
pick [] m out = out
pick (n ∷ ns) m out = pick ns m (elim (lookup n m) [ none ↦ out | some v ↦ insert n v out ])

module _ {S : Type 0} (storage : Storage S) (s : Service) where
  abbrev located : Queue → Queue
  located q = record q {
    url = new_queue_url s.endpoint_url s.account_id q.name;
    arn = new_sqs_arn s.region s.account_id q.name;
  }

  -- The queue of CreateQueue, at the time that it is given.
  unfoldable pub queue_of : ℕ → CreateQueueParams → Queue
  unfolding has_suffix read_attributes lookup default_queue_attributes
  queue_of now p = record {
    name = p.queue_name;
    url = [];
    arn = [];
    account_id = s.account_id;
    region = s.region;
    attributes = read_attributes default_queue_attributes p.attributes;
    tags = p.tags;
    fifo =
        has_suffix (codes ".fifo") p.queue_name || is_true (get (codes "FifoQueue") p.attributes);
    created_at = now;
  }

  unfoldable pub create_queue : ℕ → Option CreateQueueParams → Op S Queue
  unfolding is_valid_queue_name queue_of validate_attributes new_queue_url new_sqs_arn
  create_queue now none = fail (aws missing_parameter)
  create_queue now (some p) =
      if is_empty p.queue_name
      then fail (aws missing_parameter)
      else if not (is_valid_queue_name p.queue_name)
      then fail (aws invalid_parameter_value)
      else checked (validate_attributes (queue_of now p).attributes) (λ t.
        internal (λ q. pure (located q)) (storage.create_queue (queue_of now p) t).0
          (storage.create_queue (queue_of now p) t).1)

  unfoldable pub get_queue_url : Option Text → Op S Queue
  unfolding new_queue_url new_sqs_arn
  get_queue_url none = fail (aws missing_parameter)
  get_queue_url (some name) =
      if is_empty name
      then fail (aws missing_parameter)
      else do q ← storage.get_queue name; pure (located q)

  -- An error of QueueDepth counts as 0.
  abbrev depth_text : Result ℕ → Text
  depth_text (ok d) = format d
  depth_text (err e) = codes "0"

  abbrev all_attributes : Queue → Text → Map Text
  all_attributes q depth =
      (codes "VisibilityTimeout", format_int q.attributes.visibility_timeout)
      ∷ (codes "MessageRetentionPeriod", format_int q.attributes.message_retention_period)
      ∷ (codes "MaximumMessageSize", format_int q.attributes.maximum_message_size)
      ∷ (codes "DelaySeconds", format_int q.attributes.delay_seconds)
      ∷ (
        codes "ReceiveMessageWaitTimeSeconds",
        format_int q.attributes.receive_message_wait_time_seconds,
      )
      ∷ (codes "QueueArn", new_sqs_arn s.region s.account_id q.name)
      ∷ (codes "ApproximateNumberOfMessages", depth)
      ∷ (codes "ApproximateNumberOfMessagesNotVisible", codes "0")
      ∷ (codes "CreatedTimestamp", format (q.created_at / 1000))
      ∷ []

  unfoldable pub get_queue_attributes : Option (Text × List Text) → Op S (Map Text)
  unfolding wants_all pick new_sqs_arn format
  get_queue_attributes none = fail (aws missing_parameter)
  get_queue_attributes (some (name, names)) =
      if is_empty name then fail (aws missing_parameter) else do
        q ← storage.get_queue name
        depth ←
            (λ t. (ok (depth_text (storage.queue_depth name t).0), (storage.queue_depth name t).1))
        let attrs = all_attributes q depth
        pure (if wants_all names then attrs else pick names attrs [])

  -- none stands for nil params, which list every queue. MaxResults and NextToken are not read.
  unfoldable pub list_queues : Option Text → Op S (List Text)
  unfolding new_queue_url
  list_queues prefix = do
    queues ← storage.list_queues (elim prefix [ none ↦ [] | some p ↦ p ])
    pure (map (λ (q : Queue). new_queue_url s.endpoint_url s.account_id q.name) queues)

  unfoldable pub delete_queue : Option Text → Op S (Unit {0})
  delete_queue none = fail (aws missing_parameter)
  delete_queue (some name) =
      if is_empty name then fail (aws missing_parameter) else storage.delete_queue name

  unfoldable pub purge_queue : Option (Text × Text) → Op S (Unit {0})
  unfolding name_or_url
  purge_queue none = fail (aws missing_parameter)
  purge_queue (some (name, url)) = on_queue name url storage.purge_queue

  unfoldable pub set_queue_attributes : Option (Text × Text × Map Text) → Op S (Unit {0})
  unfolding name_or_url read_attributes validate_attributes
  set_queue_attributes none = fail (aws missing_parameter)
  set_queue_attributes (some (name, url, [])) = fail (aws missing_parameter)
  set_queue_attributes (some (name, url, a ∷ attrs)) = on_queue name url (λ queue.
      checked (validate_attributes (read_attributes no_attributes (a ∷ attrs)))
        (storage.set_queue_attributes queue (read_attributes no_attributes (a ∷ attrs))))
