-- ===== src/Sqs/Batch/Answered.antt =====
-- A batch answers each of its entries once: SendMessageBatch and DeleteMessageBatch of
-- shim/internal/sqs/service.go.
pub mod Deleted
use dropin_queue.Base.{
  ℕ, suc, ◌+◌, ◌≤◌, ltb, ◌≡◌, refl, true, false, Option, none, some, List, [], ◌∷◌, ◌++◌, map,
  arith, any, length, Text, text_eq, text_eq_iff, is_empty, if◌then◌else◌, Bool-cases, inl, inr,
}
use dropin_queue.Types.{Queue, Message}
use dropin_queue.Awserr.Code.{Code}
use dropin_queue.Storage.{Storage, Result, ok, err, aws, continue, Op, fail, ◌>>=◌}
use dropin_queue.Protocol.Attributes.{message_attributes_size}
use dropin_queue.Sqs.Validation.{validate_message_attributes}
use dropin_queue.Sqs.Service.{name_or_url, on_queue}
use dropin_queue.Sqs.Messages.{max_batch_total_bytes}
use dropin_queue.Sqs.Batch.{
  BatchSendEntry, BatchResultEntry, BatchFailureEntry, BatchResult, Outcome, success, failure, add,
  counted, max_batch_entries, check_entries, send_entry, send_accepted, sent, entry_error,
  send_entries, send_message_batch, send_to, storage_failure,
}

-- How often an id stands in a list of ids.
abbrev pub count : Text → List Text → ℕ
count x [] = 0
count x (y ∷ ys) = if text_eq x y then suc (count x ys) else count x ys

abbrev successful_ids : BatchResult → List Text
successful_ids res = map (λ (x : BatchResultEntry). x.id) res.successful

abbrev failed_ids : BatchResult → List Text
failed_ids res = map (λ (x : BatchFailureEntry). x.id) res.failed

-- How often a batch's answer mentions an id.
abbrev pub answers : Text → BatchResult → ℕ
answers x res = count x (successful_ids res) + count x (failed_ids res)

abbrev pub outcome_id : Outcome → Text
outcome_id (success x) = x.id
outcome_id (failure x) = x.id

abbrev once : Text → Text → ℕ
once x y = if text_eq x y then 1 else 0

count-last :
    {A : Type 0} (id : A → Text) (x : Text) (ls : List A) (a : A)
    → count x (map id (ls ++ a ∷ [])) ≡ count x (map id ls) + once x (id a)
count-last id x [] a = ground arith
count-last id x (b ∷ bs) a = ground (arith, count-last id x bs a)

pub answers-add :
    (x : Text) (o : Outcome) (res : BatchResult)
    → answers x (add o res) ≡ answers x res + once x (outcome_id o)
answers-add x (success a) res =
    omega (arith, count-last (λ (a : BatchResultEntry). a.id) x res.successful a)
answers-add x (failure a) res =
    omega (arith, count-last (λ (a : BatchFailureEntry). a.id) x res.failed a)

abbrev pub nothing : BatchResult
nothing = record { successful = []; failed = [] }

-- Entry ids that passed the check are distinct, and none has been seen.
abbrev pub Fresh : List Text → List Text → Type 0
Fresh seen ids = (x : Text) → (count x ids ≤ 1) × (any (text_eq x) seen ≡ true → count x ids ≡ 0)

pub Fresh-cons :
    (seen : List Text) (y : Text) (ids : List Text)
    → any (text_eq y) seen ≡ false
    → Fresh (y ∷ seen) ids
    → Fresh seen (y ∷ ids)
Fresh-cons seen y ids n h x = elim (Bool-cases (text_eq x y)) [
  | inl same ↦
      let none_left : count x ids ≡ 0 = (h x).1 (ground (arith, same)) in
      let unseen : any (text_eq x) seen ≡ false = rw ((text_eq_iff x y).0 same) n in
      ground (arith, none_left, unseen)
  | inr other ↦ ground (arith, other, h x)
]

check-Fresh :
    (es : List BatchSendEntry) (seen : List Text) (total size : ℕ)
    → check_entries es seen total ≡ ok size
    → Fresh seen (map (λ (e : BatchSendEntry). e.id) es)
unfolding check_entries validate_message_attributes
check-Fresh [] seen total size h = λ x. ground arith
check-Fresh (e ∷ es) seen total size h =
    let unseen : any (text_eq e.id) seen ≡ false = ground (arith, h) in
    Fresh-cons seen e.id (map (λ (e : BatchSendEntry). e.id) es) unseen (
      check-Fresh es (e.id ∷ seen)
        (total + (length e.message_body + message_attributes_size e.message_attributes)) size
        (ground (arith, h)))

module _ {S A : Type 0} where
  pub counted-ok :
      {E : Type 0} (es : List E) (m : Op S A) (s : S) (out : A)
      → (counted es m s).0 ≡ ok out
      → (m s).0 ≡ ok out
  counted-ok [] m s out h = absurd (cc h)
  counted-ok (e ∷ es) m s out h = elim (Bool-cases (ltb max_batch_entries (length (e ∷ es)))) [
    | inl many ↦ absurd (ground (arith, many, h))
    | inr few ↦ ground (arith, few, h)
  ]

  pub on_queue-ok :
      (name url : Text) (f : Text → Op S A) (s : S) (out : A)
      → (on_queue name url f s).0 ≡ ok out
      → (f (name_or_url name url) s).0 ≡ ok out
  on_queue-ok name url f s out h = elim (Bool-cases (is_empty (name_or_url name url))) [
    | inl empty ↦ absurd (ground (arith, empty, h))
    | inr given ↦ ground (arith, given, h)
  ]

module _ {S : Type 0} (storage : Storage S) where
  sent-id : (q : Queue) (id : Text) (x : Result Message) → outcome_id (sent storage q id x) ≡ id
  unfolding sent storage_failure
  sent-id q id (ok m) = refl
  sent-id q id (err e) = refl

  accepted-id :
      (q : Queue) (name : Text) (e : BatchSendEntry) (c : Option Code) (s : S)
      → outcome_id (send_accepted storage q name e c s).0 ≡ e.id
  unfolding send_accepted sent storage_failure
  accepted-id q name e (some c) s = refl
  accepted-id q name e none s = sent-id q e.id _

  send_entry-id :
      (q : Queue) (name : Text) (e : BatchSendEntry) (s : S)
      → outcome_id (send_entry storage q name e s).0 ≡ e.id
  unfolding send_entry
  send_entry-id q name e s = accepted-id q name e (entry_error q e) s

  answers-send_entries :
      (x : Text) (q : Queue) (name : Text) (es : List BatchSendEntry) (res out : BatchResult)
      (s : S)
      → (send_entries storage q name es res s).0 ≡ ok out
      → answers x out ≡ answers x res + count x (map (λ (e : BatchSendEntry). e.id) es)
  unfolding send_entries
  answers-send_entries x q name [] res out s h = ground (arith, h)
  answers-send_entries x q name (e ∷ es) res out s h = ground (
    arith,
    answers-send_entries x q name es (add (send_entry storage q name e s).0 res) out
        (send_entry storage q name e s).1 h,
    answers-add x (send_entry storage q name e s).0 res,
    send_entry-id q name e s,
  )

  module _ (entries : List BatchSendEntry) (out : BatchResult) where
    -- The entries were checked and the loop gave the answer.
    abbrev Ran : Result ℕ → Type 0
    Ran c =
        ((size : ℕ) × (c ≡ ok size))
        × (q : Queue) × (name : Text) × (s : S) × ((send_entries storage q name entries nothing s).0
            ≡ ok out)

    got-Ran :
        (size : ℕ) (name : Text) (g : Result Queue) (s : S)
        → (continue g (λ q. send_entries storage q name entries nothing) s).0 ≡ ok out
        → Ran (ok size)
    got-Ran size name (ok q) s h = ((size, refl), q, name, s, h)
    got-Ran size name (err e) s h = absurd (cc h)

    checked-Ran :
        (name : Text) (c : Result ℕ) (s : S)
        → (continue c
            (λ total.
              if ltb max_batch_total_bytes total
              then fail (aws Code.message_too_large)
              else do q ← storage.get_queue name; send_entries storage q name entries nothing)
            s).0
          ≡ ok out
        → Ran c
    checked-Ran name (err e) s h = absurd (cc h)
    checked-Ran name (ok total) s h = elim (Bool-cases (ltb max_batch_total_bytes total)) [
      | inl large ↦ absurd (ground (arith, large, h))
      | inr fits ↦
          got-Ran total name (storage.get_queue name s).0 (storage.get_queue name s).1
            (ground (arith, fits, h))
    ]

    batch-Ran :
        (name url : Text) (s : S)
        → (send_message_batch storage (some (name, url, entries)) s).0 ≡ ok out
        → Ran (check_entries entries [] 0)
    unfolding send_message_batch send_to
    batch-Ran name url s h = checked-Ran (name_or_url name url) _ s (
        on_queue-ok name url (send_to storage entries) s out
          (counted-ok entries (on_queue name url (send_to storage entries)) s out h))

  -- A SendMessageBatch that is answered mentions each entry's id once, as successful or as failed, and
  -- no other id.
  pub send_message_batch-answers :
      (name url : Text) (entries : List BatchSendEntry) (s : S) (out : BatchResult)
      → (send_message_batch storage (some (name, url, entries)) s).0 ≡ ok out
      → (x : Text)
      → (answers x out ≡ count x (map (λ (e : BatchSendEntry). e.id) entries))
        × (count x (map (λ (e : BatchSendEntry). e.id) entries) ≤ 1)
  send_message_batch-answers name url entries s out h x =
      let ((size, c), q, queue, t, g) = batch-Ran entries out name url s h in
      (
        omega (arith, answers-send_entries x q queue entries nothing out t g),
        (check-Fresh entries [] 0 size c x).0,
      )
