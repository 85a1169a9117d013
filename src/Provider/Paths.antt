-- ===== src/Provider/Paths.antt =====
-- internal/chaptarr/match.go: the book of a catalog that a file of the library belongs to.
use my_eink_library.Common.{
  ltb, leb, ◌==◌, if◌then◌else◌, Text, text_eq, is_empty, to_lower, ℕ, suc, Option, none, some,
  reverse, List, [], ◌∷◌, map,
}
use my_eink_library.Encoding.Split.{split}

-- chaptarr.Book, whose numbers that are floats are given by their bits
pub record CatalogBook : Type 0 where
  pub id : ℕ
  pub title : Text
  pub authors : List Text
  pub series : Text
  pub series_index : ℕ
  pub genres : List Text
  pub rating : ℕ
  pub hardcover_id : Text
  pub paths : List Text

unfoldable pub trim_slashes_left : Text → Text
trim_slashes_left [] = []
trim_slashes_left (c ∷ s) = if c == b'/' then trim_slashes_left s else c ∷ s

-- strings.Trim(s, "/")
unfoldable pub trim_slashes : Text → Text
unfolding trim_slashes_left
trim_slashes s = reverse (trim_slashes_left (reverse (trim_slashes_left s)))

-- The segments that two paths share, from their ends on.
unfoldable pub common : List Text → List Text → ℕ
common [] ys = 0
common (x ∷ xs) [] = 0
common (x ∷ xs) (y ∷ ys) = if text_eq x y then suc (common xs ys) else 0

unfoldable pub suffix_overlap_score : Text → Text → ℕ
unfolding common
suffix_overlap_score a b = common (reverse (split b'/' a)) (reverse (split b'/' b))

-- The best book so far with its score; none stands for the score -1.
abbrev pub Best : Type 0
Best = Option (CatalogBook × ℕ)

abbrev pub better : CatalogBook → ℕ → Best → Best
better b score none = some (b, score)
better b score (some (x, best_score)) =
    if ltb best_score score then some (b, score) else some (x, best_score)

module _ (beyond : ℕ → ℕ) where
  unfoldable pub normalize_path : Text → Text
  unfolding trim_slashes
  normalize_path p = trim_slashes (to_lower beyond (map (λ c. if c == b'\\' then b'/' else c) p))

  abbrev pub score : Text → Text → ℕ
  score local p = suffix_overlap_score local (normalize_path p)

  unfoldable pub best_path : Text → CatalogBook → List Text → Best → Best
  unfolding normalize_path suffix_overlap_score
  best_path local b [] best = best
  best_path local b (p ∷ ps) best = best_path local b ps (better b (score local p) best)

  unfoldable pub best_book : Text → List CatalogBook → Best → Best
  unfolding best_path
  best_book local [] best = best
  best_book local (b ∷ bs) best = best_book local bs (best_path local b b.paths best)

  abbrev pub confirmed : Best → Option CatalogBook
  confirmed none = none
  confirmed (some (b, s)) = if leb s 0 then none else some b

  unfoldable pub match_by_path : List CatalogBook → Text → Option CatalogBook
  unfolding best_book
  match_by_path books local_rel_path =
      let local = normalize_path local_rel_path in
      if is_empty local then none else confirmed (best_book local books none)
