-- ===== src/Postgres/Exclusive.antt =====
-- ReceiveMessage of the Postgres adapter delivers a message to one consumer at a time.
use dropin_queue.Base.{
  ℕ, suc, ◌<◌, ◌==◌, ==_iff, ◌≡◌, refl, sym, ap, ◌∙◌, Bool, true, false, ◌&&◌, List, [], ◌∷◌, map,
  arith, ℤ, any, All, Bool-cases, inl, inr, to_ℕ, all, format, text_eq, text_eq-format,
}
use dropin_queue.Types.{Message}
use dropin_queue.Storage.{ok}
use dropin_queue.Postgres.Tables.{MessageRow, Replica, Lib, QueueIdent, after_secs}
use dropin_queue.Postgres.Messages.Claim.{claimable, candidates, claim_rows, claim}
use dropin_queue.Postgres.Messages.Claim.Order.{elem, ids_of, elem-All}
use dropin_queue.Postgres.Messages.Claim.Oldest.{is_claimable, candidates-is_claimable, elem-ids}
use dropin_queue.Postgres.Messages.Claim.Returned.{claim-ids}
use dropin_queue.Postgres.Steps.{Call, resumes, run}
use dropin_queue.Postgres.WellFormed.{IsWellFormed}
use dropin_queue.Postgres.WellFormed.Runs.{run-IsWellFormed}
use dropin_queue.Postgres.Hidden.{IsLate, IsHidden, leaves, run-hidden, hidden_elem}

-- The message `k` is among those returned.
abbrev pub has_message : ℕ → List Message → Bool
has_message k msgs = any (λ (m : Message). text_eq m.id (format k)) msgs

has_message-elem :
    (k : ℕ) (msgs : List Message) (ids : List ℕ)
    → map (λ (m : Message). m.id) msgs ≡ map format ids
    → has_message k msgs ≡ elem k ids
has_message-elem k [] [] h = refl
has_message-elem k [] (i ∷ ids) h = cc
has_message-elem k (m ∷ msgs) [] h = cc
has_message-elem k (m ∷ msgs) (i ∷ ids) h =
    ground (arith, h, text_eq-format i k, has_message-elem k msgs ids)

any_found :
    (k queue : ℕ) (r : Replica) (ms : List MessageRow)
    → any (λ m. claimable queue r m && (m.id == k)) ms ≡ true
    → any (λ m. m.id == k) ms ≡ true
any_found k queue r [] h = h
any_found k queue r (m ∷ ms) h = ground (arith, h, any_found k queue r ms)

claimed-IsLate :
    (lib : Lib) (k : ℕ) (ids : List ℕ) (t drawn : ℕ) (ms : List MessageRow)
    → elem k ids ≡ true
    → All (IsLate k t) (claim_rows lib ids t drawn ms)
unfolding claim_rows
claimed-IsLate lib k ids t drawn [] e = tt
claimed-IsLate lib k ids t drawn (m ∷ ms) e = elim (Bool-cases (m.id == k)) [
  | inl same ↦ ground (
    arith,
    ap (λ i. elem i ids) ((==_iff m.id k).0 same),
    claimed-IsLate lib k ids t (suc drawn) ms e,
  )
  | inr other ↦
      ground
        (arith, claimed-IsLate lib k ids t drawn ms e, claimed-IsLate lib k ids t (suc drawn) ms e)
]

module _ (lib : Lib) (q : QueueIdent) (max timeout : ℤ) (r : Replica) (w : IsWellFormed r.tables)
    (k : ℕ) where
  claim-hidden :
      (msgs : List Message)
      → (claim lib q max timeout r).0 ≡ ok msgs
      → has_message k msgs ≡ true
      → IsHidden k (after_secs r.now timeout) (claim lib q max timeout r).1
  unfolding claim
  claim-hidden msgs h e =
      let ids = candidates q.id (to_ℕ max) r in
      let found : elem k ids ≡ true =
        sym (has_message-elem k msgs ids (claim-ids lib q max timeout r msgs w.messages h)) ∙ e in
      let here : elem k (ids_of r.messages) ≡ true =
        elem-ids k r.messages
        ∙ any_found k q.id r r.messages (
            elem-All (λ k. is_claimable q.id r k ≡ true) k ids
              (candidates-is_claimable q.id (to_ℕ max) r) found) in
      let below : k < r.next_message =
        elem-All (λ i. i < r.next_message) k (ids_of r.messages) w.message_ids here in
      record {
        given = ground (arith, h, below);
        late = λ now. ground (
          arith,
          h,
          claimed-IsLate lib k ids (after_secs r.now timeout) r.drawn r.messages found,
        );
      }

-- A message that a claim has returned is returned by no other claim, of whichever replica, before
-- its visibility timeout has passed, whatever calls come between, unless one of them changes its
-- visibility.
pub claim-exclusive :
    (lib : Lib) (q : QueueIdent) (max timeout : ℤ) (r : Replica) (msgs : List Message) (k : ℕ)
    → IsWellFormed r.tables
    → (claim lib q max timeout r).0 ≡ ok msgs
    → has_message k msgs ≡ true
    → (xs : List Call) → all (leaves k) xs ≡ true
    → (run lib xs (claim lib q max timeout r).1).now < after_secs r.now timeout
    → (p : QueueIdent) (limit seconds : ℤ) (again : List Message)
    → (claim lib p limit seconds (run lib xs (claim lib q max timeout r).1)).0 ≡ ok again
    → has_message k again ≡ false
unfolding claim run
claim-exclusive lib q max timeout r msgs k w h e xs l before p limit seconds again g =
    let after = run lib xs (claim lib q max timeout r).1 in
    has_message-elem k again (candidates p.id (to_ℕ limit) after) (
      claim-ids lib p limit seconds after again
        (run-IsWellFormed lib (resumes q max timeout ∷ xs) r w).messages g)
    ∙ hidden_elem lib k (after_secs r.now timeout) p.id (to_ℕ limit) after
        (run-hidden lib k (after_secs r.now timeout) xs (claim lib q max timeout r).1 l
          (claim-hidden lib q max timeout r w k msgs h e))
        before
