-- ===== src/Common/Table.antt =====
-- SQL tables as lists of rows in rowid order: SELECT of one row, COUNT, UPDATE, DELETE and the
-- EXISTS test, over a Boolean WHERE clause.
use Prim.Native.Nat.{ℕ, ◌+◌, ◌≤◌}
use mathlib.Core.Path.{◌≡◌, refl}
use mathlib.Core.Bool.{Bool, true, false, ◌||◌}
use mathlib.Core.Option.{Option, none, some}
use mathlib.Core.List.{List, [], ◌∷◌, ◌++◌}
use native.Mathlib.Omega.{arith}
use my_eink_library.Common.Tests.{if◌then◌else◌, indicator}

module _ {ℓ} {A : Type ℓ} where
  -- SELECT … WHERE p LIMIT 1
  unfoldable pub find? : (A → Bool) → List A → Option A
  find? p [] = none
  find? p (x ∷ xs) = if p x then some x else find? p xs

  -- SELECT COUNT(*) … WHERE p
  unfoldable pub count : (A → Bool) → List A → ℕ
  count p [] = 0
  count p (x ∷ xs) = indicator (p x) + count p xs

  -- SELECT EXISTS(SELECT 1 … WHERE p)
  unfoldable pub exists : (A → Bool) → List A → Bool
  exists p [] = false
  exists p (x ∷ xs) = p x || exists p xs

  -- SELECT … WHERE p
  unfoldable pub select : (A → Bool) → List A → List A
  select p [] = []
  select p (x ∷ xs) = let rest = select p xs in if p x then x ∷ rest else rest

  -- UPDATE … SET f WHERE p
  unfoldable pub update : (A → Bool) → (A → A) → List A → List A
  update p f [] = []
  update p f (x ∷ xs) = (if p x then f x else x) ∷ update p f xs

  -- DELETE … WHERE p
  unfoldable pub delete : (A → Bool) → List A → List A
  delete p [] = []
  delete p (x ∷ xs) = let rest = delete p xs in if p x then rest else x ∷ rest

  pub count-append : (p : A → Bool) (xs ys : List A) → count p (xs ++ ys) ≡ count p xs + count p ys
  unfolding count
  count-append p [] ys = omega arith
  count-append p (x ∷ xs) ys = omega (arith, count-append p xs ys)

  pub exists-append :
      (p : A → Bool) (xs ys : List A) → exists p (xs ++ ys) ≡ (exists p xs || exists p ys)
  unfolding exists
  exists-append p [] ys = refl
  exists-append p (x ∷ xs) ys = ground (arith, exists-append p xs ys)

  pub exists-delete : (p : A → Bool) (xs : List A) → exists p (delete p xs) ≡ false
  unfolding exists delete
  exists-delete p [] = refl
  exists-delete p (x ∷ xs) = ground (arith, exists-delete p xs)

  pub find?_holds : (p : A → Bool) (xs : List A) (r : A) → find? p xs ≡ some r → p r ≡ true
  unfolding find?
  find?_holds p [] r h = cc
  find?_holds p (x ∷ xs) r h = ground (arith, find?_holds p xs r)

  pub find?-append :
      (p : A → Bool) (xs ys : List A) (r : A) → find? p xs ≡ some r → find? p (xs ++ ys) ≡ some r
  unfolding find?
  find?-append p [] ys r h = cc
  find?-append p (x ∷ xs) ys r h = ground (arith, find?-append p xs ys r)

  pub find?-append_none :
      (p : A → Bool) (xs ys : List A) → find? p xs ≡ none → find? p (xs ++ ys) ≡ find? p ys
  unfolding find?
  find?-append_none p [] ys h = refl
  find?-append_none p (x ∷ xs) ys h = ground (arith, find?-append_none p xs ys)

  pub find?-exists : (p : A → Bool) (xs : List A) → find? p xs ≡ none → exists p xs ≡ false
  unfolding find? exists
  find?-exists p [] h = refl
  find?-exists p (x ∷ xs) h = ground (arith, find?-exists p xs)

  pub exists-find? : (p : A → Bool) (xs : List A) → exists p xs ≡ false → find? p xs ≡ none
  unfolding find? exists
  exists-find? p [] h = refl
  exists-find? p (x ∷ xs) h = ground (arith, exists-find? p xs)

  pub update_absent :
      (p : A → Bool) (f : A → A) (xs : List A) → find? p xs ≡ none → update p f xs ≡ xs
  unfolding find? update
  update_absent p f [] h = refl
  update_absent p f (x ∷ xs) h = ground (arith, update_absent p f xs)

  pub delete_absent : (p : A → Bool) (xs : List A) → find? p xs ≡ none → delete p xs ≡ xs
  unfolding find? delete
  delete_absent p [] h = refl
  delete_absent p (x ∷ xs) h = ground (arith, delete_absent p xs)

  pub count-update_keeps :
      (p q : A → Bool) (f : A → A) (xs : List A)
      → ((x : A) → q (f x) ≡ q x)
      → count q (update p f xs) ≡ count q xs
  unfolding count update
  count-update_keeps p q f [] h = refl
  count-update_keeps p q f (x ∷ xs) h = ground (arith, h x, count-update_keeps p q f xs h)

  pub count-delete-le : (p q : A → Bool) (xs : List A) → count q (delete p xs) ≤ count q xs
  unfolding count delete
  count-delete-le p q [] = omega arith
  count-delete-le p q (x ∷ xs) = ground (arith, count-delete-le p q xs)
