-- ===== src/Library/Status.antt =====
-- internal/index/enrichment.go: the queue of books to enrich, and the rows of enrichment.
use my_eink_library.Common.{
  leb, ◌==◌, if◌then◌else◌, count, exists, select, update, take, sort_by, Text, codes, text_eq,
  is_empty, ℕ, Bool, false, not, ◌&&◌, ◌||◌, Option, none, some, List, [], ◌∷◌, ◌++◌, map,
}
use my_eink_library.Users.Listing.{or_empty}
use my_eink_library.Library.{EnrichmentRow, Index, BookRow, enrichment_of}
use my_eink_library.Users.{null_if_empty}
use my_eink_library.Library.Patch.{
  MetadataPatch, done, effective_description, effective_published_date, effective_publisher,
  effective_series, enrichment_row, is_zero_float, join_csv, joined, null_if_zero_float,
  null_if_zero_int, or_none,
}

abbrev pub needs_text : Option Text → Bool
needs_text t = is_empty (or_empty t)

-- COALESCE(be.status, '')
abbrev pub status_of : Option EnrichmentRow → Text
status_of none = []
status_of (some e) = e.status

-- needsEnrichmentWhere
unfoldable pub needs_enrichment : Index → BookRow → Bool
needs_enrichment d b =
    let e = enrichment_row b.id d in
    is_empty (status_of e)
    && (needs_text (effective_series e b)
        || (needs_text (effective_published_date e b)
            || (needs_text (effective_description e b)
                || (needs_text (joined (λ r. r.genres) e)
                    || (needs_text (effective_publisher e b)
                        || (or_none (joined (λ r. r.pages) e) == 0
                            || (needs_text (joined (λ r. r.isbn) e)
                                || (is_zero_float (or_none (joined (λ r. r.rating) e))
                                    || not b.has_cover))))))))

pub record EnrichmentCandidate : Type 0 where
  pub id : ℕ
  pub title : Text
  pub author : Text
  pub identifier : Text
  pub file_path : Text
  pub added_at : ℕ

abbrev pub candidate : BookRow → EnrichmentCandidate
candidate b = record {
  id = b.id;
  title = b.title;
  author = b.author;
  identifier = or_empty b.identifier;
  file_path = b.file_path;
  added_at = b.added_at;
}

unfoldable pub books_needing_enrichment : ℕ → Index → List EnrichmentCandidate
unfolding needs_enrichment
books_needing_enrichment limit d =
    map candidate
      (take limit (sort_by (λ a b. leb a.id b.id) (select (needs_enrichment d) d.books)))

abbrev pub blank_enrichment : ℕ → ℕ → EnrichmentRow
blank_enrichment id now = record {
  book_id = id;
  title = none;
  series = none;
  series_index = none;
  published_date = none;
  description = none;
  genres = none;
  publisher = none;
  pages = none;
  isbn = none;
  rating = none;
  status = [];
  source = [];
  chaptarr_status = [];
  hardcover_status = [];
  updated_at = now;
}

-- INSERT … ON CONFLICT(book_id) DO UPDATE
unfoldable pub put_enrichment :
    ℕ → ℕ → (EnrichmentRow → EnrichmentRow) → List EnrichmentRow → List EnrichmentRow
put_enrichment id now f rows =
    if exists (enrichment_of id) rows
    then update (enrichment_of id) f rows
    else rows ++ f (blank_enrichment id now) ∷ []

pub data StatusColumn : Type 0 where
  column_status column_chaptarr column_hardcover : StatusColumn

abbrev pub with_status : StatusColumn → ℕ → Text → EnrichmentRow → EnrichmentRow
with_status column_status now status e = record e { status = status; updated_at = now }
with_status column_chaptarr now status e = record e { chaptarr_status = status; updated_at = now }
with_status column_hardcover now status e = record e { hardcover_status = status; updated_at = now }

unfoldable pub set_provider_status : StatusColumn → ℕ → ℕ → Text → Index → Index
unfolding put_enrichment
set_provider_status column now id status d = record d {
  book_enrichment = put_enrichment id now (with_status column now status) d.book_enrichment;
}

unfoldable pub set_enrichment_status : ℕ → ℕ → Text → Index → Index
unfolding set_provider_status
set_enrichment_status = set_provider_status column_status

unfoldable pub set_chaptarr_status : ℕ → ℕ → Text → Index → Index
unfolding set_provider_status
set_chaptarr_status = set_provider_status column_chaptarr

unfoldable pub set_hardcover_status : ℕ → ℕ → Text → Index → Index
unfolding set_provider_status
set_hardcover_status = set_provider_status column_hardcover

pub record EnrichmentStats : Type 0 where
  pub pending : ℕ
  pub done_count : ℕ
  pub no_match : ℕ
  pub errored : ℕ

abbrev pub has_status : Text → Index → BookRow → Bool
has_status status d b = elim (enrichment_row b.id d) [
  | none ↦ false
  | some e ↦ text_eq e.status status
]

unfoldable pub get_enrichment_stats : Index → EnrichmentStats
unfolding needs_enrichment
get_enrichment_stats d = record {
  pending = count (needs_enrichment d) d.books;
  done_count = count (has_status done d) d.books;
  no_match = count (has_status (codes "no_match") d) d.books;
  errored = count (has_status (codes "error") d) d.books;
}

unfoldable pub get_enrichment_source : ℕ → Index → Text
get_enrichment_source id d = elim (enrichment_row id d) [ none ↦ [] | some e ↦ e.source ]

abbrev pub with_patch : ℕ → MetadataPatch → Text → Text → EnrichmentRow → EnrichmentRow
with_patch now f status source e = record e {
  title = null_if_empty f.title;
  series = null_if_empty f.series;
  series_index = some f.series_index;
  published_date = null_if_empty f.published_date;
  description = null_if_empty f.description;
  genres = null_if_empty (join_csv f.genres);
  publisher = null_if_empty f.publisher;
  pages = null_if_zero_int f.pages;
  isbn = null_if_empty f.isbn;
  rating = null_if_zero_float f.rating;
  status = status;
  source = source;
  updated_at = now;
}

unfoldable pub upsert_enrichment : ℕ → ℕ → MetadataPatch → Text → Text → Index → Index
unfolding put_enrichment
upsert_enrichment now id f status source d = record d {
  book_enrichment = put_enrichment id now (with_patch now f status source) d.book_enrichment;
}
