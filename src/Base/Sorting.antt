-- ===== src/Base/Sorting.antt =====
-- Texts in the order of their bytes, and sorting by a text.
use mathlib.Core.Path.{◌≡◌, refl, ap, ◌∙◌}
use mathlib.Core.Bool.{Bool, true, false, ◌&&◌, ◌||◌}
use mathlib.Core.List.{List, [], ◌∷◌}
use native.Mathlib.Omega.{arith}
use dropin_queue.Base.Tests.{ltb, ◌==◌, if◌then◌else◌}
use dropin_queue.Base.Lists.{any}
use dropin_queue.Base.Bytes.{Text}

-- s < t, by bytes
unfoldable pub text_ltb : Text → Text → Bool
text_ltb s [] = false
text_ltb [] (d ∷ t) = true
text_ltb (c ∷ s) (d ∷ t) = if ltb c d then true else (c == d) && text_ltb s t

-- ORDER BY a text column
module _ {A : Type 0} (key : A → Text) where
  unfoldable pub insert_by : A → List A → List A
  unfolding text_ltb
  insert_by a [] = a ∷ []
  insert_by a (b ∷ bs) = if text_ltb (key b) (key a) then b ∷ insert_by a bs else a ∷ b ∷ bs

  unfoldable pub sort_by : List A → List A
  unfolding insert_by
  sort_by [] = []
  sort_by (a ∷ xs) = insert_by a (sort_by xs)

module _ {A : Type 0} (key : A → Text) (p : A → Bool) where
  pub any-insert : (a : A) (bs : List A) → any p (insert_by key a bs) ≡ (p a || any p bs)
  unfolding insert_by
  any-insert a [] = refl
  any-insert a (b ∷ bs) = ground (arith, any-insert a bs)

  pub any-sort : (xs : List A) → any p (sort_by key xs) ≡ any p xs
  unfolding sort_by
  any-sort [] = refl
  any-sort (a ∷ xs) = any-insert a (sort_by key xs) ∙ ap (λ b. p a || b) (any-sort xs)
