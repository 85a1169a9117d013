-- ===== src/Provider/Closest.antt =====
-- MatchByPath takes the book with the longest common end of a path.
use my_eink_library.Common.{
  ltb, leb, ◌==◌, ltb→lt, ==_refl, Bool-cases, exists, Text, is_empty, ℕ, ◌≤◌, ◌<◌, ◌≡◌, refl, sym,
  ap, ◌∙◌, ◌⊎◌, inl, inr, Bool, true, false, Option, none, some, List, [], ◌∷◌, ◌++◌, arith,
}
use my_eink_library.Provider.Paths.{
  CatalogBook, Best, score, best_book, best_path, better, confirmed, match_by_path, normalize_path,
}
use mathlib.Core.Path.{subst}

module _ (beyond : ℕ → ℕ) (local : Text) where
  abbrev top : Best → ℕ
  top none = 0
  top (some (b, s)) = s

  abbrev pub longer : ℕ → Text → Bool
  longer k p = ltb k (score beyond local p)

  -- A path of the book that shares exactly that many segments.
  abbrev pub as_long : ℕ → Text → Bool
  as_long k p = score beyond local p == k

  better-top :
      (b : CatalogBook) (s : ℕ) (best : Best)
      → (s ≤ top (better b s best)) × (top best ≤ top (better b s best))
  better-top b s none = (omega arith, omega arith)
  better-top b s (some (x, t)) = elim (Bool-cases (ltb t s)) [
    | inl more ↦ rw more (omega arith, omega (arith, ltb→lt t s more))
    | inr less ↦ rw less (ground (arith, less), omega arith)
  ]

  best_path-top :
      (b : CatalogBook) (ps : List Text) (best : Best)
      → (top best ≤ top (best_path beyond local b ps best))
        × ((k : ℕ) → top (best_path beyond local b ps best) ≤ k → exists (longer k) ps ≡ false)
  unfolding best_path exists
  best_path-top b [] best = (omega arith, λ k h. refl)
  best_path-top b (p ∷ ps) best =
      let s = score beyond local p in
      let (own, before) = better-top b s best in
      let (grown, covers) = best_path-top b ps (better b s best) in
      (omega (arith, before, grown), λ k h. ground (arith, covers k h, own, grown, h))

  best_book-top :
      (bs : List CatalogBook) (best : Best)
      → (top best ≤ top (best_book beyond local bs best))
        × (exists (λ x. exists (longer (top (best_book beyond local bs best))) x.paths) bs ≡ false)
  unfolding best_book exists
  best_book-top [] best = (omega arith, refl)
  best_book-top (b ∷ bs) best =
      let best' = best_path beyond local b b.paths best in
      let (grown, covers) = best_path-top b b.paths best in
      let (more, rest) = best_book-top bs best' in
      (omega (arith, grown, more), rw (covers (top (best_book beyond local bs best')) more) rest)

  better-origin :
      (b : CatalogBook) (s : ℕ) (best : Best)
      → (better b s best ≡ best) ⊎ (better b s best ≡ some (b, s))
  better-origin b s none = inr refl
  better-origin b s (some (x, t)) = elim (Bool-cases (ltb t s)) [
    | inl more ↦ inr (rw more refl)
    | inr less ↦ inl (rw less refl)
  ]

  -- A path of the book gave the score, or the book was not better.
  record FromPath (b : CatalogBook) (ps : List Text) (best : Best) : Type 0 where
    k : ℕ
    is_best : best_path beyond local b ps best ≡ some (b, k)
    by_path : exists (as_long k) ps ≡ true

  best_path-origin :
      (b : CatalogBook) (ps : List Text) (best : Best)
      → (best_path beyond local b ps best ≡ best) ⊎ FromPath b ps best
  unfolding best_path exists
  best_path-origin b [] best = inl refl
  best_path-origin b (p ∷ ps) best =
      elim (best_path-origin b ps (better b (score beyond local p) best)) [
        | inr from ↦
            inr (record {
              k = from.k;
              is_best = from.is_best;
              by_path = ground (arith, from.by_path);
            })
        | inl same ↦ elim (better-origin b (score beyond local p) best) [
          | inl kept ↦ inl (same ∙ kept)
          | inr taken ↦ inr (record {
            k = score beyond local p;
            is_best = same ∙ taken;
            by_path = rw (==_refl (score beyond local p)) refl;
          })
        ]
      ]

  record FromBook (bs : List CatalogBook) (best : Best) : Type 0 where
    book : CatalogBook
    k : ℕ
    before : List CatalogBook
    behind : List CatalogBook
    stands : bs ≡ before ++ (book ∷ behind)
    is_best : best_book beyond local bs best ≡ some (book, k)
    by_path : exists (as_long k) book.paths ≡ true

  best_book-origin :
      (bs : List CatalogBook) (best : Best)
      → (best_book beyond local bs best ≡ best) ⊎ FromBook bs best
  unfolding best_book
  best_book-origin [] best = inl refl
  best_book-origin (b ∷ bs) best =
      elim (best_book-origin bs (best_path beyond local b b.paths best)) [
        | inr from ↦ inr (record {
          book = from.book;
          k = from.k;
          before = b ∷ from.before;
          behind = from.behind;
          stands = ap (λ x. b ∷ x) from.stands;
          is_best = from.is_best;
          by_path = from.by_path;
        })
        | inl same ↦ elim (best_path-origin b b.paths best) [
          | inl kept ↦ inl (same ∙ kept)
          | inr from ↦ inr (record {
            book = b;
            k = from.k;
            before = [];
            behind = bs;
            stands = refl;
            is_best = same ∙ from.is_best;
            by_path = from.by_path;
          })
        ]
      ]

-- A book of the catalog that has a path which ends like the local one in some segments, and no path in
-- the catalog in more; or no path ends like the local one.
abbrev pub Nearest : (ℕ → ℕ) → Text → List CatalogBook → Option CatalogBook → Type 0
Nearest beyond local books none = exists (λ x. exists (longer beyond local 0) x.paths) books ≡ false
Nearest beyond local books (some b) =
    (k : ℕ) × (before : List CatalogBook) × (behind : List CatalogBook) × (books
      ≡ before ++ (b ∷ behind))
    × (0 < k)
    × (exists (as_long beyond local k) b.paths ≡ true)
    × (exists (λ x. exists (longer beyond local k) x.paths) books ≡ false)

nothing_below : (k : ℕ) → leb k 0 ≡ true → 0 ≡ k
nothing_below k h = ground (arith, h)

confirm :
    (beyond : ℕ → ℕ) (local : Text) (books : List CatalogBook)
    (from : FromBook beyond local books none)
    → Nearest beyond local books (confirmed beyond (some (from.book, from.k)))
confirm beyond local books from =
    let covers =
      ap (λ x. exists (λ y. exists (longer beyond local (top beyond local x)) y.paths) books)
        (sym from.is_best)
      ∙ (best_book-top beyond local books none).1 in
    elim (Bool-cases (leb from.k 0)) [
      | inl weak ↦ rw weak (
          ap (λ j. exists (λ y. exists (longer beyond local j) y.paths) books)
            (nothing_below from.k weak)
          ∙ covers)
      | inr strong ↦ rw strong (
        from.k,
        from.before,
        from.behind,
        from.stands,
        ground (arith, strong),
        from.by_path,
        covers,
      )
    ]

found-Nearest :
    (beyond : ℕ → ℕ) (local : Text) (books : List CatalogBook)
    → Nearest beyond local books (confirmed beyond (best_book beyond local books none))
found-Nearest beyond local books = elim (best_book-origin beyond local books none) [
  | inl nothing ↦
      subst (λ x. Nearest beyond local books (confirmed beyond x)) (sym nothing)
        (ap (λ x. exists (λ y. exists (longer beyond local (top beyond local x)) y.paths) books)
            (sym nothing)
          ∙ (best_book-top beyond local books none).1)
  | inr from ↦
      subst (λ x. Nearest beyond local books (confirmed beyond x)) (sym from.is_best)
        (confirm beyond local books from)
]

-- MatchByPath gives, for a path that is not blank, a book of the catalog with a path that ends like it in
-- as many segments as any path of the catalog does, and at least in one; it gives none only if no path
-- of the catalog ends like it.
pub match_by_path-Nearest :
    (beyond : ℕ → ℕ) (books : List CatalogBook) (local_rel_path : Text)
    → is_empty (normalize_path beyond local_rel_path) ≡ false
    → Nearest beyond
        (normalize_path beyond local_rel_path)
        books
        (match_by_path beyond books local_rel_path)
unfolding match_by_path
match_by_path-Nearest beyond books local_rel_path given =
    rw (match_by_path, given) (found-Nearest beyond (normalize_path beyond local_rel_path) books)
