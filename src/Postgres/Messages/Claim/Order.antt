-- ===== src/Postgres/Messages/Claim/Order.antt =====
-- The order of the ids that a claim finds and returns.
use dropin_queue.Base.{
  ℕ, ◌<◌, ◌≤◌, ◌==◌, ==_iff, ◌≡◌, refl, sym, ap, ◌∙◌, ◌≢◌, Bool, true, false, ◌||◌, List, [], ◌∷◌,
  map, arith, any, All, All-weaken, Bool-cases, Pairwise, inl, inr,
}
use native.Mathlib.Decide.{dec_lt}
use dropin_queue.Postgres.Tables.{MessageRow}
use dropin_queue.Postgres.Messages.Claim.{insert_by_id, order_by_id}

abbrev pub elem : ℕ → List ℕ → Bool
elem k xs = any (λ i. i == k) xs

abbrev pub ids_of : List MessageRow → List ℕ
ids_of ms = map (λ m. m.id) ms

-- Strictly ascending.
abbrev pub IsAscending : List ℕ → Type 0
IsAscending [] = Unit {0}
IsAscending (x ∷ xs) = All (λ y. x < y) xs × IsAscending xs

-- No id twice.
abbrev pub IsDistinct : List ℕ → Type 0
IsDistinct xs = Pairwise (λ x y. x ≢ y) xs

pub elem-All {ℓ} : (P : ℕ → Type ℓ) (k : ℕ) (xs : List ℕ) → All P xs → elem k xs ≡ true → P k
elem-All P k [] h e = absurd (cc e)
elem-All P k (x ∷ xs) h e = elim (Bool-cases (x == k)) [
  | inl here ↦ rw (sym ((==_iff x k).0 here)) h.0
  | inr there ↦ elem-All P k xs h.1 (ground arith)
]

pub not_elem : (k : ℕ) (xs : List ℕ) → All (λ y. k ≢ y) xs → elem k xs ≡ false
not_elem k [] h = refl
not_elem k (x ∷ xs) h = ground (arith, not_elem k xs h.1)

head-le :
    (x y : ℕ) (xs ys : List ℕ) → IsAscending (y ∷ ys) → elem x (x ∷ xs) ≡ elem x (y ∷ ys) → y ≤ x
head-le x y xs ys b h =
    elem-All (λ z. y ≤ z) x (y ∷ ys)
      (omega arith, All-weaken (λ z. y < z) (λ z. y ≤ z) (λ z lt. omega arith) ys b.0)
      (ground (arith, h))

above_not_elem : (x : ℕ) (xs : List ℕ) → All (λ y. x < y) xs → elem x xs ≡ false
above_not_elem x xs h =
    not_elem x xs (All-weaken (λ y. x < y) (λ y. x ≢ y) (λ y lt. omega arith) xs h)

tails-elem :
    (x k : ℕ) (xs ys : List ℕ)
    → IsAscending (x ∷ xs)
    → IsAscending (x ∷ ys)
    → elem k (x ∷ xs) ≡ elem k (x ∷ ys)
    → elem k xs ≡ elem k ys
tails-elem x k xs ys a b h = elim (Bool-cases (x == k)) [
  | inl same ↦
      rw (sym ((==_iff x k).0 same)) (above_not_elem x xs a.0 ∙ sym (above_not_elem x ys b.0))
  | inr other ↦ ground (arith, h)
]

-- Ascending lists with the same members are equal.
pub IsAscending-ext :
    (xs ys : List ℕ) → IsAscending xs → IsAscending ys → ((k : ℕ) → elem k xs ≡ elem k ys) → xs ≡ ys
IsAscending-ext [] [] a b h = refl
IsAscending-ext [] (y ∷ ys) a b h = absurd (ground (arith, h y))
IsAscending-ext (x ∷ xs) [] a b h = absurd (ground (arith, h x))
IsAscending-ext (x ∷ xs) (y ∷ ys) a b h =
    let e : y ≡ x = omega (arith, head-le x y xs ys b (h x), head-le y x ys xs a (sym (h y))) in
    ground (
      arith,
      e,
      IsAscending-ext xs ys a.1 b.1 (λ k. tails-elem x k xs ys a (rw e at b) (rw e at (h k))),
    )

elem-insert :
    (p : MessageRow → Bool) (m : MessageRow) (ms : List MessageRow)
    → any p (insert_by_id m ms) ≡ (p m || any p ms)
unfolding insert_by_id
elem-insert p m [] = refl
elem-insert p m (n ∷ ns) = ground (arith, elem-insert p m ns)

pub any-order : (p : MessageRow → Bool) (ms : List MessageRow) → any p (order_by_id ms) ≡ any p ms
unfolding order_by_id
any-order p [] = refl
any-order p (m ∷ ms) = elem-insert p m (order_by_id ms) ∙ ap (λ b. p m || b) (any-order p ms)

All-insert {ℓ} :
    (P : ℕ → Type ℓ) (m : MessageRow) (ms : List MessageRow)
    → P m.id
    → All P (ids_of ms)
    → All P (ids_of (insert_by_id m ms))
unfolding insert_by_id
All-insert P m [] h hs = (h, tt)
All-insert P m (n ∷ ns) h hs = ground (arith, All-insert P m ns h hs.1)

pub All-order {ℓ} :
    (P : ℕ → Type ℓ) (ms : List MessageRow) → All P (ids_of ms) → All P (ids_of (order_by_id ms))
unfolding order_by_id
All-order P [] h = tt
All-order P (m ∷ ms) h = All-insert P m (order_by_id ms) h.0 (All-order P ms h.1)

insert-IsAscending :
    (m : MessageRow) (ms : List MessageRow)
    → IsAscending (ids_of ms)
    → All (λ y. m.id ≢ y) (ids_of ms)
    → IsAscending (ids_of (insert_by_id m ms))
unfolding insert_by_id
insert-IsAscending m [] a d = (tt, tt)
insert-IsAscending m (n ∷ ns) a d = elim (dec_lt n.id m.id) [
  | yes below ↦
      ground (arith, All-insert (λ y. n.id < y) m ns below a.0, insert-IsAscending m ns a.1 d.1)
  | no above ↦ ground (
    arith,
    All-weaken (λ y. n.id < y) (λ y. m.id < y) (λ y lt. omega (arith, d.0)) (ids_of ns) a.0,
  )
]

-- Rows with distinct ids are put in ascending order.
pub order-IsAscending :
    (ms : List MessageRow) → IsDistinct (ids_of ms) → IsAscending (ids_of (order_by_id ms))
unfolding order_by_id
order-IsAscending [] d = tt
order-IsAscending (m ∷ ms) d =
    insert-IsAscending m (order_by_id ms) (order-IsAscending ms d.1)
      (All-order (λ y. m.id ≢ y) ms d.0)
