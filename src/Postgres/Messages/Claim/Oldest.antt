-- ===== src/Postgres/Messages/Claim/Oldest.antt =====
-- What claim finds and returns: the oldest messages of the queue that are visible and not locked.
use dropin_queue.Base.{
  ℕ, zero, suc, ◌<◌, ◌≤◌, ◌==◌, ◌≡◌, refl, sym, ap, ◌∙◌, ◌≢◌, Bool, true, false, ◌&&◌, ◌||◌, List,
  [], ◌∷◌, arith, select, any, take, length, length-take-le, All, All-take,
}
use dropin_queue.Postgres.Tables.{MessageRow, Replica}
use dropin_queue.Postgres.Messages.Claim.{order_by_id, claimable, candidates}
use dropin_queue.Postgres.Messages.Claim.Order.{
  elem, ids_of, IsAscending, IsDistinct, elem-All, any-order, order-IsAscending,
}

-- The row with id `k` can be claimed from the queue.
abbrev pub is_claimable : ℕ → Replica → ℕ → Bool
is_claimable queue r k = any (λ m. claimable queue r m && (m.id == k)) r.messages

-- The ids of the oldest messages of a queue that can be claimed, `limit` at most.
pub record IsOldest (queue limit : ℕ) (r : Replica) (ids : List ℕ) : Type 0 where
  pub ascending : IsAscending ids
  pub few : length ids ≤ limit
  pub open_ids : All (λ k. is_claimable queue r k ≡ true) ids
  pub rest :
      (k : ℕ)
      → is_claimable queue r k ≡ true
      → elem k ids ≡ false
      → (length ids ≡ limit) × All (λ i. i < k) ids

take-ids : (n : ℕ) (ms : List MessageRow) → ids_of (take n ms) ≡ take n (ids_of ms)
take-ids zero ms = refl
take-ids (suc n) [] = refl
take-ids (suc n) (m ∷ ms) = ap (λ xs. m.id ∷ xs) (take-ids n ms)

take-IsAscending : (n : ℕ) (xs : List ℕ) → IsAscending xs → IsAscending (take n xs)
take-IsAscending zero xs a = tt
take-IsAscending (suc n) [] a = tt
take-IsAscending (suc n) (x ∷ xs) a = (All-take (λ y. x < y) n xs a.0, take-IsAscending n xs a.1)

-- What is left out by `take` stands behind all that is taken.
take_rest :
    (n k : ℕ) (xs : List ℕ)
    → IsAscending xs
    → elem k xs ≡ true
    → elem k (take n xs) ≡ false
    → (length (take n xs) ≡ n) × All (λ i. i < k) (take n xs)
take_rest zero k xs a e f = (refl, tt)
take_rest (suc n) k [] a e f = absurd (cc e)
take_rest (suc n) k (x ∷ xs) a e f =
    let e' : elem k xs ≡ true = ground arith in
    let (l, b) = take_rest n k xs a.1 e' (ground arith) in
    (ap suc l, (elem-All (λ y. x < y) k xs a.0 e', b))

pub All-ids_select {ℓ} :
    (P : ℕ → Type ℓ) (p : MessageRow → Bool) (ms : List MessageRow)
    → All P (ids_of ms)
    → All P (ids_of (select p ms))
All-ids_select P p [] h = tt
All-ids_select P p (m ∷ ms) h = ground (arith, All-ids_select P p ms h.1)

pub select-IsDistinct :
    (p : MessageRow → Bool) (ms : List MessageRow)
    → IsDistinct (ids_of ms)
    → IsDistinct (ids_of (select p ms))
select-IsDistinct p [] d = tt
select-IsDistinct p (m ∷ ms) d =
    ground (arith, select-IsDistinct p ms d.1, All-ids_select (λ y. m.id ≢ y) p ms d.0)

pub any-select :
    (p q : MessageRow → Bool) (ms : List MessageRow)
    → any q (select p ms) ≡ any (λ m. p m && q m) ms
any-select p q [] = refl
any-select p q (m ∷ ms) = ground (arith, any-select p q ms)

pub elem-ids : (k : ℕ) (ms : List MessageRow) → elem k (ids_of ms) ≡ any (λ m. m.id == k) ms
elem-ids k [] = refl
elem-ids k (m ∷ ms) = ap (λ b. (m.id == k) || b) (elem-ids k ms)

All-intro {ℓ} : (P : ℕ → Type ℓ) (xs : List ℕ) → ((k : ℕ) → elem k xs ≡ true → P k) → All P xs
All-intro P [] h = tt
All-intro P (x ∷ xs) h = (h x (ground arith), All-intro P xs (λ k e. h k (ground arith)))

module _ (queue limit : ℕ) (r : Replica) where
  abbrev found : List MessageRow
  found = order_by_id (select (claimable queue r) r.messages)

  elem-found : (k : ℕ) → elem k (ids_of found) ≡ is_claimable queue r k
  elem-found k =
      elem-ids k found ∙ any-order _ _ ∙ any-select (claimable queue r) (λ m. m.id == k) r.messages

  pub candidates-is_claimable : All (λ k. is_claimable queue r k ≡ true) (candidates queue limit r)
  unfolding candidates
  candidates-is_claimable =
      rw (take-ids limit found)
        (All-take _ limit _ (All-intro _ (ids_of found) (λ k e. sym (elem-found k) ∙ e)))

  found-IsAscending : IsDistinct (ids_of r.messages) → IsAscending (ids_of found)
  found-IsAscending d = order-IsAscending _ (select-IsDistinct (claimable queue r) r.messages d)

  -- Whatever the order of the rows in the table, the statement finds the oldest messages of the
  -- queue that are visible and not locked, in ascending order, up to its limit.
  pub candidates-IsOldest :
      IsDistinct (ids_of r.messages) → IsOldest queue limit r (candidates queue limit r)
  unfolding candidates
  candidates-IsOldest d = rw (take-ids limit found) (record {
    ascending = take-IsAscending limit _ (found-IsAscending d);
    few = length-take-le limit (ids_of found);
    open_ids = rw (← take-ids limit found) (candidates-is_claimable);
    rest = λ k e f. take_rest limit k (ids_of found) (found-IsAscending d) (elem-found k ∙ e) f;
  })
