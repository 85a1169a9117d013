-- ===== src/Shelves/FreeSlug.antt =====
-- The loop of shelfSlug ends: there are more candidates than shelves.
use my_eink_library.Common.{
  leb, ◌==◌, leb→le, ==_iff, Bool-cases, Option-cases, exists, delete, length, length-append,
  exists_count, length-delete, exists-delete_other, Text, text_eq_iff, ℕ, zero, suc, ◌+◌, ◌≤◌, ◌<◌,
  ◌≡◌, ap, ◌∙◌, ◌≢◌, inl, inr, true, false, none, some, List, [], ◌∷◌, ◌++◌, arith,
}
use my_eink_library.Shelves.Slug.{free_slug, shelf_slug, numbered, dash, slug_base}
use my_eink_library.Shelves.{ShelfRow, has_slug, Db}
use my_eink_library.Encoding.Decimal.{max_int64, format_int, parse_int-format_int, parse_int}

append_cancel : (p s t : Text) → p ++ s ≡ p ++ t → s ≡ t
append_cancel [] s t h = h
append_cancel (c ∷ p) s t h = append_cancel p s t (cc h)

append_longer : (p s : Text) (c : ℕ) → p ≢ p ++ c ∷ s
append_longer p s c h = omega (arith, ap length h, length-append p (c ∷ s))

format_int_distinct : (n k : ℕ) → n < k → k ≤ max_int64 → format_int n ≢ format_int k
format_int_distinct n k less small h =
    ground
      (arith, parse_int-format_int n (omega arith), parse_int-format_int k small, ap parse_int h)

numbered_distinct :
    (base : Text) (n k : ℕ) → 1 ≤ n → n < k → k ≤ max_int64 → numbered base n ≢ numbered base k
unfolding numbered
numbered_distinct base n k pos less small h = elim (Bool-cases (leb n 1)) [
  | inl first_one ↦
      append_longer base (format_int k) dash (ground (arith, h, first_one, leb→le n 1))
  | inr later ↦ format_int_distinct n k less small (
      cc
        (append_cancel base (dash ∷ format_int n) (dash ∷ format_int k) (ground (arith, h, later))))
]

-- A slug of the user that is not the one of the deleted rows.
other_slug :
    (username s t : Text) (sh : ShelfRow)
    → s ≢ t
    → has_slug username t sh ≡ true
    → has_slug username s sh ≡ false
other_slug username s t sh differ h = ground (arith, text_eq_iff sh.slug s, text_eq_iff sh.slug t)

-- As many shelves as there are candidates that are taken.
taken_bound :
    (fuel n : ℕ) (base username : Text) (shelves : List ShelfRow)
    → 1 ≤ n
    → n + fuel ≤ suc max_int64
    → ((k : ℕ) → n ≤ k → k < n + fuel → exists (has_slug username (numbered base k)) shelves ≡ true)
    → fuel ≤ length shelves
taken_bound zero n base username shelves pos small taken = omega arith
taken_bound (suc fuel) n base username shelves pos small taken = omega (
  arith,
  length-delete (has_slug username (numbered base n)) shelves,
  exists_count (has_slug username (numbered base n)) shelves (taken n (omega arith) (omega arith)),
  taken_bound fuel (n + 1) base username (delete (has_slug username (numbered base n)) shelves)
      (omega arith) (omega arith)
      (λ k low high.
        exists-delete_other (has_slug username (numbered base n))
          (has_slug username (numbered base k)) shelves
          (λ sh.
            other_slug username (numbered base n) (numbered base k) sh
              (numbered_distinct base n k pos (omega arith) (omega arith)))
        ∙ taken k (omega arith) (omega arith)),
)

free_slug-none :
    (fuel n : ℕ) (base username : Text) (shelves : List ShelfRow)
    → free_slug fuel n base username shelves ≡ none
    → (k : ℕ) → n ≤ k
    → k < n + fuel
    → exists (has_slug username (numbered base k)) shelves ≡ true
unfolding free_slug
free_slug-none zero n base username shelves h k low high = absurd (omega arith)
free_slug-none (suc fuel) n base username shelves h k low high = elim (Bool-cases (k == n)) [
  | inl same ↦
      ap (λ i. exists (has_slug username (numbered base i)) shelves) ((==_iff k n).0 same)
      ∙ ground (arith, h)
  | inr later ↦
      free_slug-none fuel (n + 1) base username shelves (ground (arith, h)) k
        (ground (arith, later, low, ==_iff k n)) (omega arith)
]

free_slug-some :
    (fuel n : ℕ) (base username slug : Text) (shelves : List ShelfRow)
    → free_slug fuel n base username shelves ≡ some slug
    → exists (has_slug username slug) shelves ≡ false
unfolding free_slug
free_slug-some zero n base username slug shelves h = cc
free_slug-some (suc fuel) n base username slug shelves h =
    ground (arith, free_slug-some fuel (n + 1) base username slug shelves)

-- While there are fewer than 2^63 - 1 shelves, shelfSlug finds a slug, and one that no shelf of the
-- user has.
pub shelf_slug-found :
    (beyond : ℕ → ℕ) (username name : Text) (d : Db)
    → length d.shelves < max_int64
    → (slug : Text) × (shelf_slug beyond username name d ≡ some slug)
      × (exists (has_slug username slug) d.shelves ≡ false)
unfolding shelf_slug
shelf_slug-found beyond username name d few =
    elim (Option-cases (shelf_slug beyond username name d)) [
      | inl missing ↦ absurd (
          omega (
            arith,
            taken_bound (suc (length d.shelves)) 1 (slug_base beyond name) username d.shelves
                (omega arith) (omega arith)
                (free_slug-none (suc (length d.shelves)) 1 (slug_base beyond name) username
                  d.shelves missing),
          ))
      | inr (slug, found) ↦ (
        slug,
        found,
        free_slug-some (suc (length d.shelves)) 1 (slug_base beyond name) username slug d.shelves
            found,
      )
    ]
