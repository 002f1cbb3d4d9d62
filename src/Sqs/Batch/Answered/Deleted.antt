-- ===== src/Sqs/Batch/Answered/Deleted.antt =====
-- DeleteMessageBatch of shim/internal/sqs/service.go answers each of its entries once.
use dropin_queue.Base.{
  ◌+◌, ◌≤◌, ◌≡◌, refl, false, some, List, [], ◌∷◌, map, arith, any, Text, text_eq,
}
use dropin_queue.Storage.{Storage, Result, ok, err, continue, ◌>>◌}
use dropin_queue.Sqs.Service.{name_or_url, on_queue}
use dropin_queue.Types.{Queue}
use dropin_queue.Sqs.Batch.{
  BatchDeleteEntry, BatchResult, add, check_ids, delete_entry, deleted, delete_entries, delete_from,
  delete_message_batch, storage_failure,
}
use dropin_queue.Sqs.Batch.Answered.{
  count, answers, outcome_id, answers-add, nothing, Fresh, Fresh-cons, counted-ok, on_queue-ok,
}

check_ids-Fresh :
    (es : List BatchDeleteEntry) (seen : List Text)
    → check_ids es seen ≡ ok tt
    → Fresh seen (map (λ (e : BatchDeleteEntry). e.id) es)
unfolding check_ids
check_ids-Fresh [] seen h = λ x. ground arith
check_ids-Fresh (e ∷ es) seen h =
    let unseen : any (text_eq e.id) seen ≡ false = ground (arith, h) in
    Fresh-cons seen e.id (map (λ (e : BatchDeleteEntry). e.id) es) unseen
      (check_ids-Fresh es (e.id ∷ seen) (ground (arith, h)))

module _ {S : Type 0} (storage : Storage S) where
  deleted-id : (id : Text) (x : Result (Unit {0})) → outcome_id (deleted storage id x) ≡ id
  unfolding deleted storage_failure
  deleted-id id (ok u) = refl
  deleted-id id (err e) = refl

  delete_entry-id :
      (name : Text) (e : BatchDeleteEntry) (s : S)
      → outcome_id (delete_entry storage name e s).0 ≡ e.id
  unfolding delete_entry
  delete_entry-id name e s =
      ground (arith, deleted-id e.id (storage.delete_message name e.receipt_handle s).0)

  answers-delete_entries :
      (x : Text) (name : Text) (es : List BatchDeleteEntry) (res out : BatchResult) (s : S)
      → (delete_entries storage name es res s).0 ≡ ok out
      → answers x out ≡ answers x res + count x (map (λ (e : BatchDeleteEntry). e.id) es)
  unfolding delete_entries
  answers-delete_entries x name [] res out s h = ground (arith, h)
  answers-delete_entries x name (e ∷ es) res out s h = ground (
    arith,
    answers-delete_entries x name es (add (delete_entry storage name e s).0 res) out
        (delete_entry storage name e s).1 h,
    answers-add x (delete_entry storage name e s).0 res,
    delete_entry-id name e s,
  )

  module _ (entries : List BatchDeleteEntry) (out : BatchResult) where
    -- The ids were checked and the loop gave the answer.
    abbrev Ran : Result (Unit {0}) → Type 0
    Ran c =
        (c ≡ ok tt)
        × (name : Text) × (s : S) × ((delete_entries storage name entries nothing s).0 ≡ ok out)

    got-Ran :
        (name : Text) (g : Result Queue) (s : S)
        → (continue g (λ q. delete_entries storage name entries nothing) s).0 ≡ ok out
        → Ran (ok tt)
    got-Ran name (ok q) s h = (refl, name, s, h)
    got-Ran name (err e) s h = absurd (cc h)

    checked-Ran :
        (name : Text) (c : Result (Unit {0})) (s : S)
        → (continue c
            (λ u. do storage.get_queue name; delete_entries storage name entries nothing)
            s).0
          ≡ ok out
        → Ran c
    checked-Ran name (err e) s h = absurd (cc h)
    checked-Ran name (ok u) s h =
        got-Ran name (storage.get_queue name s).0 (storage.get_queue name s).1 h

    batch-Ran :
        (name url : Text) (s : S)
        → (delete_message_batch storage (some (name, url, entries)) s).0 ≡ ok out
        → Ran (check_ids entries [])
    unfolding delete_message_batch delete_from
    batch-Ran name url s h = checked-Ran (name_or_url name url) _ s (
        on_queue-ok name url (delete_from storage entries) s out
          (counted-ok entries (on_queue name url (delete_from storage entries)) s out h))

  -- A DeleteMessageBatch that is answered mentions each entry's id once, as successful or as failed,
  -- and no other id.
  pub delete_message_batch-answers :
      (name url : Text) (entries : List BatchDeleteEntry) (s : S) (out : BatchResult)
      → (delete_message_batch storage (some (name, url, entries)) s).0 ≡ ok out
      → (x : Text)
      → (answers x out ≡ count x (map (λ (e : BatchDeleteEntry). e.id) entries))
        × (count x (map (λ (e : BatchDeleteEntry). e.id) entries) ≤ 1)
  delete_message_batch-answers name url entries s out h x =
      let (c, queue, t, g) = batch-Ran entries out name url s h in
      (
        omega (arith, answers-delete_entries x queue entries nothing out t g),
        (check_ids-Fresh entries [] c x).0,
      )
