-- ===== src/Library/Patch.antt =====
-- internal/index/enrichment.go: a patch of metadata, and what the tables show of a book. Floats are
-- given by their bits.
use my_eink_library.Common.{
  ◌==◌, if◌then◌else◌, Result, ok, err, find?, Text, codes, ℕ, zero, suc, ◌^◌, Bool, ◌||◌, Option,
  none, some, List, [], ◌∷◌, ◌++◌,
}
use my_eink_library.Users.Listing.{or_empty}
use my_eink_library.Encoding.Split.{split}
use my_eink_library.Library.{
  EnrichmentRow, Index, BookRow, enrichment_of, IndexError, book_has_id, no_such_row,
}

-- f == 0 of a float64: both zeros.
abbrev pub is_zero_float : ℕ → Bool
is_zero_float f = f == 0 || f == 2 ^ 63

pub record MetadataPatch : Type 0 where
  pub title : Text
  pub series : Text
  pub series_index : ℕ
  pub published_date : Text
  pub description : Text
  pub genres : List Text
  pub publisher : Text
  pub pages : ℕ
  pub isbn : Text
  pub rating : ℕ

abbrev pub source_hardcover : Text
source_hardcover = codes "hardcover"

abbrev pub source_chaptarr : Text
source_chaptarr = codes "chaptarr"

abbrev pub source_manual : Text
source_manual = codes "manual"

abbrev pub done : Text
done = codes "done"

unfoldable pub join_csv : List Text → Text
join_csv [] = []
join_csv (s ∷ []) = s
join_csv (s ∷ t ∷ items) = s ++ b',' ∷ join_csv (t ∷ items)

unfoldable pub split_csv : Text → List Text
split_csv [] = []
split_csv (c ∷ s) = split b',' (c ∷ s)

abbrev pub null_if_zero_int : ℕ → Option ℕ
null_if_zero_int zero = none
null_if_zero_int (suc n) = some (suc n)

abbrev pub null_if_zero_float : ℕ → Option ℕ
null_if_zero_float f = if is_zero_float f then none else some f

-- COALESCE(a, b)
abbrev pub coalesce {ℓ} : {A : Type ℓ} → Option A → Option A → Option A
coalesce none b = b
coalesce (some a) b = some a

abbrev pub or_none : Option ℕ → ℕ
or_none none = 0
or_none (some n) = n

-- A column of the row of book_enrichment that LEFT JOIN finds.
abbrev pub joined {ℓ} : {A : Type ℓ} → (EnrichmentRow → Option A) → Option EnrichmentRow → Option A
joined column none = none
joined column (some e) = column e

abbrev pub enrichment_row : ℕ → Index → Option EnrichmentRow
enrichment_row id d = find? (enrichment_of id) d.book_enrichment

abbrev pub effective_title : Option EnrichmentRow → BookRow → Text
effective_title e b = or_empty (coalesce (joined (λ r. r.title) e) (some b.title))

abbrev pub effective_series : Option EnrichmentRow → BookRow → Option Text
effective_series e b = coalesce (joined (λ r. r.series) e) b.series

abbrev pub effective_series_index : Option EnrichmentRow → BookRow → Option ℕ
effective_series_index e b = coalesce (joined (λ r. r.series_index) e) b.series_index

abbrev pub effective_published_date : Option EnrichmentRow → BookRow → Option Text
effective_published_date e b = coalesce (joined (λ r. r.published_date) e) b.published_date

abbrev pub effective_description : Option EnrichmentRow → BookRow → Option Text
effective_description e b = coalesce (joined (λ r. r.description) e) b.description

abbrev pub effective_publisher : Option EnrichmentRow → BookRow → Option Text
effective_publisher e b = coalesce (joined (λ r. r.publisher) e) b.publisher

unfoldable pub merged : Option EnrichmentRow → BookRow → MetadataPatch
unfolding split_csv
merged e b = record {
  title = effective_title e b;
  series = or_empty (effective_series e b);
  series_index = or_none (effective_series_index e b);
  published_date = or_empty (effective_published_date e b);
  description = or_empty (effective_description e b);
  genres = split_csv (or_empty (joined (λ r. r.genres) e));
  publisher = or_empty (effective_publisher e b);
  pages = or_none (joined (λ r. r.pages) e);
  isbn = or_empty (joined (λ r. r.isbn) e);
  rating = or_none (joined (λ r. r.rating) e);
}

unfoldable pub current_enrichment_merged : ℕ → Index → Result IndexError MetadataPatch
unfolding merged
current_enrichment_merged id d = elim (find? (book_has_id id) d.books) [
  | none ↦ err no_such_row
  | some b ↦ ok (merged (enrichment_row id d) b)
]
