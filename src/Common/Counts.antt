-- ===== src/Common/Counts.antt =====
-- How UPDATE and DELETE of the one row that a WHERE clause selects change the counts of a table.
use Prim.Native.Nat.{◌+◌, ◌≤◌}
use mathlib.Core.Path.{◌≡◌, refl}
use mathlib.Core.Bool.{Bool, true, false, ◌&&◌, not}
use mathlib.Core.Option.{none, some}
use mathlib.Core.List.{List, [], ◌∷◌}
use native.Mathlib.Omega.{arith}
use my_eink_library.Common.Tests.{indicator}
use my_eink_library.Common.Lists.{length}
use my_eink_library.Common.Table.{find?, count, exists, update, delete}

module _ {ℓ} {A : Type ℓ} where
  pub find?_absent : (p : A → Bool) (xs : List A) → count p xs ≡ 0 → find? p xs ≡ none
  unfolding find? count
  find?_absent p [] h = refl
  find?_absent p (x ∷ xs) h = ground (arith, find?_absent p xs)

  pub count_of_none : (p : A → Bool) (xs : List A) → find? p xs ≡ none → count p xs ≡ 0
  unfolding find? count
  count_of_none p [] h = refl
  count_of_none p (x ∷ xs) h = ground (arith, count_of_none p xs)

  pub count_of_some : (p : A → Bool) (xs : List A) (r : A) → find? p xs ≡ some r → 1 ≤ count p xs
  unfolding find? count
  count_of_some p [] r h = cc
  count_of_some p (x ∷ xs) r h = ground (arith, count_of_some p xs r)

  pub count_of_not_exists : (p : A → Bool) (xs : List A) → exists p xs ≡ false → count p xs ≡ 0
  unfolding exists count
  count_of_not_exists p [] h = refl
  count_of_not_exists p (x ∷ xs) h = ground (arith, count_of_not_exists p xs)

  pub count_implied :
      (p q : A → Bool) (xs : List A) → ((x : A) → q x ≡ true → p x ≡ true) → count q xs ≤ count p xs
  unfolding count
  count_implied p q [] h = omega arith
  count_implied p q (x ∷ xs) h = ground (arith, h x, count_implied p q xs h)

  pub count-update_none :
      (p q : A → Bool) (f : A → A) (xs : List A)
      → count p xs ≡ 0
      → count q (update p f xs) ≡ count q xs
  unfolding count update
  count-update_none p q f [] h = refl
  count-update_none p q f (x ∷ xs) h = ground (arith, count-update_none p q f xs)

  pub count-delete_none :
      (p q : A → Bool) (xs : List A) → count p xs ≡ 0 → count q (delete p xs) ≡ count q xs
  unfolding count delete
  count-delete_none p q [] h = refl
  count-delete_none p q (x ∷ xs) h = ground (arith, count-delete_none p q xs)

  -- The one row that `p` selects leaves the count, and its new version joins it.
  pub count-update_one :
      (p q : A → Bool) (f : A → A) (xs : List A) (r : A)
      → find? p xs ≡ some r
      → count p xs ≤ 1
      → count q (update p f xs) + indicator (q r) ≡ count q xs + indicator (q (f r))
  unfolding find? count update
  count-update_one p q f [] r h one = cc
  count-update_one p q f (x ∷ xs) r h one =
      ground (arith, count-update_none p q f xs, count-update_one p q f xs r)

  pub count-delete_one :
      (p q : A → Bool) (xs : List A) (r : A)
      → find? p xs ≡ some r
      → count p xs ≤ 1
      → count q (delete p xs) + indicator (q r) ≡ count q xs
  unfolding find? count delete
  count-delete_one p q [] r h one = cc
  count-delete_one p q (x ∷ xs) r h one =
      ground (arith, count-delete_none p q xs, count-delete_one p q xs r)

  -- The count of what satisfies both tests or only the first.
  pub count_split :
      (p q : A → Bool) (xs : List A)
      → count p xs ≡ count (λ x. p x && q x) xs + count (λ x. p x && not (q x)) xs
  unfolding count
  count_split p q [] = refl
  count_split p q (x ∷ xs) = ground (arith, count_split p q xs)

  pub count-find? :
      (p q : A → Bool) (xs : List A) (r : A) → find? q xs ≡ some r → p r ≡ true → 1 ≤ count p xs
  unfolding find? count
  count-find? p q [] r h pr = cc
  count-find? p q (x ∷ xs) r h pr = ground (arith, count-find? p q xs r)

  -- Where one row at most passes a test, a row found by another test is the one found by this one.
  pub find?_unique :
      (p q : A → Bool) (xs : List A) (r : A)
      → find? q xs ≡ some r
      → p r ≡ true
      → count p xs ≤ 1
      → find? p xs ≡ some r
  unfolding find? count
  find?_unique p q [] r h pr one = cc
  find?_unique p q (x ∷ xs) r h pr one = ground (arith, find?_unique p q xs r, count-find? p q xs r)

  pub count-and_one :
      (p q : A → Bool) (xs : List A) (r : A)
      → find? p xs ≡ some r
      → count p xs ≤ 1
      → count (λ x. q x && p x) xs ≤ indicator (q r)
  unfolding find? count
  count-and_one p q [] r h one = cc
  count-and_one p q (x ∷ xs) r h one =
      ground
        (arith, count-and_one p q xs r, count_implied p (λ x. q x && p x) xs (λ y e. ground arith))

  pub count-update_lowers :
      (p q : A → Bool) (f : A → A) (xs : List A)
      → ((x : A) → q (f x) ≡ false)
      → count q (update p f xs) ≤ count q xs
  unfolding count update
  count-update_lowers p q f [] h = omega arith
  count-update_lowers p q f (x ∷ xs) h = ground (arith, h x, count-update_lowers p q f xs h)

  pub count-update_raises :
      (p q : A → Bool) (f : A → A) (xs : List A)
      → ((x : A) → q x ≡ true → q (f x) ≡ true)
      → count q xs ≤ count q (update p f xs)
  unfolding count update
  count-update_raises p q f [] h = omega arith
  count-update_raises p q f (x ∷ xs) h = ground (arith, h x, count-update_raises p q f xs h)

  pub exists_implied :
      (p q : A → Bool) (xs : List A)
      → ((x : A) → q x ≡ true → p x ≡ true)
      → exists p xs ≡ false
      → exists q xs ≡ false
  unfolding exists
  exists_implied p q [] h none_p = refl
  exists_implied p q (x ∷ xs) h none_p = ground (arith, h x, exists_implied p q xs h)

  pub find?-update_found :
      (p q : A → Bool) (f : A → A) (xs : List A) (r : A)
      → find? q xs ≡ some r
      → p r ≡ true
      → ((x : A) → q (f x) ≡ q x)
      → find? q (update p f xs) ≡ some (f r)
  unfolding find? update
  find?-update_found p q f [] r h pr keeps = cc
  find?-update_found p q f (x ∷ xs) r h pr keeps =
      ground (arith, keeps x, find?-update_found p q f xs r)

module _ {ℓ} {A : Type ℓ} where
  pub exists_count : (p : A → Bool) (xs : List A) → exists p xs ≡ true → 1 ≤ count p xs
  unfolding exists count
  exists_count p [] h = cc
  exists_count p (x ∷ xs) h = ground (arith, exists_count p xs)

  pub count_exists : (p : A → Bool) (xs : List A) → 1 ≤ count p xs → exists p xs ≡ true
  unfolding exists count
  count_exists p [] h = absurd (omega arith)
  count_exists p (x ∷ xs) h = ground (arith, count_exists p xs)

  pub length-delete : (p : A → Bool) (xs : List A) → count p xs + length (delete p xs) ≡ length xs
  unfolding count delete
  length-delete p [] = refl
  length-delete p (x ∷ xs) = ground (arith, length-delete p xs)

  pub exists-delete_other :
      (p q : A → Bool) (xs : List A)
      → ((x : A) → q x ≡ true → p x ≡ false)
      → exists q (delete p xs) ≡ exists q xs
  unfolding exists delete
  exists-delete_other p q [] h = refl
  exists-delete_other p q (x ∷ xs) h = ground (arith, h x, exists-delete_other p q xs h)

  pub exists-update_keeps :
      (p q : A → Bool) (f : A → A) (xs : List A)
      → ((x : A) → q (f x) ≡ q x)
      → exists q (update p f xs) ≡ exists q xs
  unfolding exists update
  exists-update_keeps p q f [] h = refl
  exists-update_keeps p q f (x ∷ xs) h = ground (arith, h x, exists-update_keeps p q f xs h)

  pub exists_cong :
      (p q : A → Bool) (xs : List A) → ((x : A) → p x ≡ q x) → exists p xs ≡ exists q xs
  unfolding exists
  exists_cong p q [] h = refl
  exists_cong p q (x ∷ xs) h = ground (arith, h x, exists_cong p q xs h)

  pub exists_thinned :
      (p q : A → Bool) (xs : List A)
      → exists (λ x. p x && not (q x)) xs ≡ false
      → exists p (delete q xs) ≡ false
  unfolding exists delete
  exists_thinned p q [] h = refl
  exists_thinned p q (x ∷ xs) h = ground (arith, h, exists_thinned p q xs)

  pub exists-delete_kept :
      (p q : A → Bool) (xs : List A)
      → exists p xs ≡ true
      → exists (λ x. p x && q x) xs ≡ false
      → exists p (delete q xs) ≡ true
  unfolding exists delete
  exists-delete_kept p q [] h k = h
  exists-delete_kept p q (x ∷ xs) h k = ground (arith, h, k, exists-delete_kept p q xs)

  pub exists_none : (p : A → Bool) (xs : List A) → ((x : A) → p x ≡ false) → exists p xs ≡ false
  unfolding exists
  exists_none p [] h = refl
  exists_none p (x ∷ xs) h = ground (arith, h x, exists_none p xs h)
