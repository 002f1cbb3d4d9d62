-- ===== src/Base/Pairs.antt =====
-- Lists whose elements are related to all that follow them.
use mathlib.Core.Bool.{Bool}
use mathlib.Core.List.{List, [], ◌∷◌, ◌++◌, map}
use native.Mathlib.Omega.{arith}
use dropin_queue.Base.Lists.{All, select, All-append, All-select}

module _ {ℓ κ} {A : Type ℓ} (R : A → A → Type κ) where
  abbrev pub Pairwise : List A → Type κ
  Pairwise [] = Unit
  Pairwise (x ∷ xs) = All (R x) xs × Pairwise xs

  pub select-Pairwise : (p : A → Bool) (xs : List A) → Pairwise xs → Pairwise (select p xs)
  select-Pairwise p [] h = tt
  select-Pairwise p (x ∷ xs) h = ground (arith, select-Pairwise p xs h.1, All-select (R x) p xs h.0)

  pub append-Pairwise :
      (xs : List A) (y : A) → Pairwise xs → All (λ x. R x y) xs → Pairwise (xs ++ y ∷ [])
  append-Pairwise [] y h hy = (tt, tt)
  append-Pairwise (x ∷ xs) y h hy =
      (All-append (R x) xs (y ∷ []) h.0 (hy.0, tt), append-Pairwise xs y h.1 hy.1)

  All-related :
      (f : A → A) (x : A) (xs : List A)
      → ((a b : A) → R a b → R (f a) (f b))
      → All (R x) xs
      → All (R (f x)) (map f xs)
  All-related f x [] k h = tt
  All-related f x (y ∷ ys) k h = (k x y h.0, All-related f x ys k h.1)

  pub map-Pairwise :
      (f : A → A) (xs : List A)
      → ((a b : A) → R a b → R (f a) (f b))
      → Pairwise xs
      → Pairwise (map f xs)
  map-Pairwise f [] k h = tt
  map-Pairwise f (x ∷ xs) k h = (All-related f x xs k h.0, map-Pairwise f xs k h.1)
