-- ===== src/Common/Sort.antt =====
-- ORDER BY: insertion sort, which keeps the order of rows that compare as equal.
use Prim.Native.Nat.{◌+◌}
use mathlib.Core.Path.{◌≡◌, refl}
use mathlib.Core.Bool.{Bool, ◌&&◌}
use mathlib.Core.List.{List, [], ◌∷◌}
use native.Mathlib.Omega.{arith}
use my_eink_library.Common.Tests.{if◌then◌else◌, indicator}
use my_eink_library.Common.Table.{count, select}

module _ {ℓ} {A : Type ℓ} where
  -- `before x y` says that x may stand before y.
  unfoldable pub insert_by : (A → A → Bool) → A → List A → List A
  insert_by before x [] = x ∷ []
  insert_by before x (y ∷ ys) =
      let later = insert_by before x ys in if before x y then x ∷ y ∷ ys else y ∷ later

  unfoldable pub sort_by : (A → A → Bool) → List A → List A
  unfolding insert_by
  sort_by before [] = []
  sort_by before (x ∷ xs) = insert_by before x (sort_by before xs)

  count-insert_by :
      (before : A → A → Bool) (p : A → Bool) (x : A) (xs : List A)
      → count p (insert_by before x xs) ≡ indicator (p x) + count p xs
  unfolding count insert_by
  count-insert_by before p x [] = refl
  count-insert_by before p x (y ∷ ys) = ground (arith, count-insert_by before p x ys)

  pub count-sort_by :
      (before : A → A → Bool) (p : A → Bool) (xs : List A)
      → count p (sort_by before xs) ≡ count p xs
  unfolding count sort_by
  count-sort_by before p [] = refl
  count-sort_by before p (x ∷ xs) =
      ground (arith, count-insert_by before p x (sort_by before xs), count-sort_by before p xs)

  pub count-select :
      (p q : A → Bool) (xs : List A) → count p (select q xs) ≡ count (λ x. p x && q x) xs
  unfolding count select
  count-select p q [] = refl
  count-select p q (x ∷ xs) = ground (arith, count-select p q xs)
