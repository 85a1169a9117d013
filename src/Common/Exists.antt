-- ===== src/Common/Exists.antt =====
-- EXISTS over tables: how one test bounds another.
use Prim.Native.Nat.{◌≤◌}
use mathlib.Core.Path.{◌≡◌, refl, sym, ap, ◌∙◌}
use mathlib.Core.Logic.{inl, inr}
use mathlib.Core.Bool.{Bool, true, false, not, ◌||◌, ◌&&◌}
use mathlib.Core.Option.{some}
use mathlib.Core.List.{List, [], ◌∷◌}
use native.Mathlib.Omega.{arith}
use my_eink_library.Common.Tests.{Bool-cases, indicator}
use my_eink_library.Common.Table.{find?, count, exists, update, delete}
use my_eink_library.Common.Counts.{count_exists, exists_count, count_of_not_exists}

module _ {ℓ} {A : Type ℓ} where
  pub exists_either :
      (p q r : A → Bool) (xs : List A)
      → ((x : A) → r x ≡ true → (p x || q x) ≡ true)
      → exists p xs ≡ false
      → exists q xs ≡ false
      → exists r xs ≡ false
  unfolding exists
  exists_either p q r [] h np nq = refl
  exists_either p q r (x ∷ xs) h np nq = ground (arith, h x, np, nq, exists_either p q r xs h)

  pub exists_of_found :
      (p q : A → Bool) (xs : List A) (x : A) → find? p xs ≡ some x → q x ≡ true → exists q xs ≡ true
  unfolding exists find?
  exists_of_found p q [] x h k = cc
  exists_of_found p q (y ∷ ys) x h k = ground (arith, h, k, exists_of_found p q ys x)

  -- What no row satisfies, no row of the table that a DELETE leaves does.
  pub exists-delete_none :
      (p q : A → Bool) (xs : List A) → exists p xs ≡ false → exists p (delete q xs) ≡ false
  unfolding exists delete
  exists-delete_none p q [] h = refl
  exists-delete_none p q (x ∷ xs) h = ground (arith, h, exists-delete_none p q xs)

  -- The rows that an UPDATE changes do not satisfy a test, and of the others none does.
  pub exists-update_safe :
      (p q r : A → Bool) (f : A → A) (xs : List A)
      → ((x : A) → q x ≡ true → p (f x) ≡ false)
      → ((x : A) → q x ≡ false → p x ≡ true → r x ≡ true)
      → exists r xs ≡ false
      → exists p (update q f xs) ≡ false
  unfolding exists update
  exists-update_safe p q r f [] changed kept h = refl
  exists-update_safe p q r f (x ∷ xs) changed kept h =
      ground (arith, changed x, kept x, h, exists-update_safe p q r f xs changed kept)

  pub exists-delete_apart :
      (p q : A → Bool) (xs : List A)
      → exists (λ x. p x && q x) xs ≡ false
      → exists p (delete q xs) ≡ exists p xs
  unfolding exists delete
  exists-delete_apart p q [] h = refl
  exists-delete_apart p q (x ∷ xs) h = ground (arith, h, exists-delete_apart p q xs)

  exists-and_none :
      (p q : A → Bool) (xs : List A) → count p xs ≡ 0 → exists (λ x. p x && q x) xs ≡ false
  unfolding exists count
  exists-and_none p q [] h = refl
  exists-and_none p q (x ∷ xs) h = ground (arith, h, exists-and_none p q xs)

  -- A test that holds of the only row that another one selects.
  pub exists_one :
      (p q : A → Bool) (xs : List A) (r : A)
      → find? p xs ≡ some r
      → count p xs ≤ 1
      → exists (λ x. p x && q x) xs ≡ q r
  unfolding exists find? count
  exists_one p q [] r h one = cc
  exists_one p q (x ∷ xs) r h one = elim (Bool-cases (p x)) [
    | inl here ↦
        ground (arith, here, h, exists-and_none p q xs (omega (arith, one, ap indicator here)))
    | inr later ↦ ground (arith, later, h, one, exists_one p q xs r)
  ]

  pub exists_counted :
      (p q : A → Bool) (xs ys : List A) → count p xs ≡ count q ys → exists p xs ≡ exists q ys
  exists_counted p q xs ys h = elim (Bool-cases (exists p xs)) [
    | inl some_x ↦ some_x ∙ sym (count_exists q ys (omega (arith, h, exists_count p xs some_x)))
    | inr none_x ↦ elim (Bool-cases (exists q ys)) [
      | inr none_y ↦ none_x ∙ sym none_y
      | inl some_y ↦
          absurd (omega (arith, h, count_of_not_exists p xs none_x, exists_count q ys some_y))
    ]
  ]

  pub exists-update_apart :
      (p q : A → Bool) (f : A → A) (xs : List A)
      → ((x : A) → p x ≡ true → q (f x) ≡ q x)
      → exists q (update p f xs) ≡ exists q xs
  unfolding exists update
  exists-update_apart p q f [] h = refl
  exists-update_apart p q f (x ∷ xs) h = ground (arith, h x, exists-update_apart p q f xs h)

  pub counted_one :
      (p q : A → Bool) (xs : List A) (r : A)
      → find? p xs ≡ some r
      → count p xs ≤ 1
      → count (λ x. p x && q x) xs ≡ indicator (q r)
  unfolding count find?
  counted_one p q [] r h one = cc
  counted_one p q (x ∷ xs) r h one = elim (Bool-cases (p x)) [
    | inl here ↦ ground (
      arith,
      here,
      h,
      one,
      count_of_not_exists (λ y. p y && q y) xs
          (exists-and_none p q xs (omega (arith, one, ap indicator here))),
    )
    | inr later ↦ ground (arith, later, h, one, counted_one p q xs r)
  ]

  -- A test that no row fails may be left out.
  pub exists_all :
      (p q : A → Bool) (xs : List A)
      → exists (λ x. not (q x)) xs ≡ false
      → exists p xs ≡ exists (λ x. p x && q x) xs
  unfolding exists
  exists_all p q [] h = refl
  exists_all p q (x ∷ xs) h = ground (arith, h, exists_all p q xs)

  pub count_cong : (p q : A → Bool) (xs : List A) → ((x : A) → p x ≡ q x) → count p xs ≡ count q xs
  unfolding count
  count_cong p q [] h = refl
  count_cong p q (x ∷ xs) h = ground (arith, h x, count_cong p q xs h)
