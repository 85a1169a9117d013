-- ===== src/Library/Enrich.antt =====
-- internal/index/enrichment.go: what integrations and administrators write. `fold_eq` is
-- strings.EqualFold.
use my_eink_library.Common.{
  ltb, ◌==◌, if◌then◌else◌, Result, ok, err, Text, text_eq, is_empty, trim_space, byte_len, ℕ, Bool,
  true, not, ◌&&◌, ◌||◌, some, List, [], ◌∷◌,
}
use my_eink_library.Library.{Index, IndexError, set_book}
use my_eink_library.Library.Patch.{
  MetadataPatch, current_enrichment_merged, done, is_zero_float, source_chaptarr, source_hardcover,
  source_manual,
}
use my_eink_library.Library.Status.{
  column_chaptarr, column_hardcover, set_provider_status, upsert_enrichment,
}

-- Text that a patch gives, over text that is there.
abbrev pub given_text : Text → Text → Text
given_text new old = if is_empty new then old else new

abbrev pub given_genres : List Text → List Text → List Text
given_genres [] old = old
given_genres (g ∷ gs) old = g ∷ gs

abbrev pub given_pages : ℕ → ℕ → ℕ
given_pages new old = if new == 0 then old else new

abbrev pub given_rating : ℕ → ℕ → ℕ
given_rating new old = if is_zero_float new then old else new

-- The status of the provider itself, for the two that have one.
unfoldable pub set_source_status : ℕ → ℕ → Text → Index → Index
unfolding set_provider_status
set_source_status now id source d =
    if text_eq source source_chaptarr
    then set_provider_status column_chaptarr now id done d
    else if text_eq source source_hardcover
    then set_provider_status column_hardcover now id done d
    else d

module _ (fold_eq : Text → Text → Bool) where
  -- placeholderDescriptionMaxLen is 40, in bytes.
  unfoldable pub description_is_placeholder : Text → Text → Bool
  description_is_placeholder cur title =
      is_empty (trim_space cur)
      || (ltb (byte_len (trim_space cur)) 40 || fold_eq (trim_space cur) (trim_space title))

  -- The series of the patch is another than the current one.
  abbrev pub new_series : MetadataPatch → MetadataPatch → Bool
  new_series cur patch =
      not (is_empty patch.series) && (is_empty cur.series || not (fold_eq cur.series patch.series))

  unfoldable pub merge_provider_metadata : MetadataPatch → MetadataPatch → MetadataPatch
  unfolding description_is_placeholder
  merge_provider_metadata cur patch = record {
    title = given_text patch.title cur.title;
    series = if new_series cur patch then patch.series else cur.series;
    series_index = if new_series cur patch then patch.series_index else cur.series_index;
    published_date =
        if is_empty cur.published_date then patch.published_date else cur.published_date;
    description =
        if not (is_empty patch.description)
          && description_is_placeholder cur.description (given_text patch.title cur.title)
        then patch.description
        else cur.description;
    genres = given_genres patch.genres cur.genres;
    publisher = given_text patch.publisher cur.publisher;
    pages = given_pages patch.pages cur.pages;
    isbn = given_text patch.isbn cur.isbn;
    rating = given_rating patch.rating cur.rating;
  }

  unfoldable pub apply_enrichment :
      ℕ → ℕ → MetadataPatch → Text → Index → Result IndexError (Unit {0}) × Index
  unfolding current_enrichment_merged merge_provider_metadata upsert_enrichment set_source_status
  apply_enrichment now id patch source d = elim (current_enrichment_merged id d) [
    | err e ↦ (err e, d)
    | ok cur ↦ (
      ok tt,
      set_source_status now id source
          (upsert_enrichment now id (merge_provider_metadata cur patch) done source d),
    )
  ]

unfoldable pub merge_manual_metadata : MetadataPatch → MetadataPatch → MetadataPatch
merge_manual_metadata cur patch = record {
  title = given_text patch.title cur.title;
  series = given_text patch.series cur.series;
  series_index = if is_empty patch.series then cur.series_index else patch.series_index;
  published_date = given_text patch.published_date cur.published_date;
  description = given_text patch.description cur.description;
  genres = given_genres patch.genres cur.genres;
  publisher = given_text patch.publisher cur.publisher;
  pages = given_pages patch.pages cur.pages;
  isbn = given_text patch.isbn cur.isbn;
  rating = given_rating patch.rating cur.rating;
}

unfoldable pub save_metadata : ℕ → ℕ → MetadataPatch → Index → Result IndexError (Unit {0}) × Index
unfolding current_enrichment_merged merge_manual_metadata upsert_enrichment
save_metadata now id patch d = elim (current_enrichment_merged id d) [
  | err e ↦ (err e, d)
  | ok cur ↦
      (ok tt, upsert_enrichment now id (merge_manual_metadata cur patch) done source_manual d)
]

unfoldable pub set_cover : ℕ → Text → Index → Index
set_cover id cover_path d =
    set_book id (λ b. record b { cover_path = some cover_path; has_cover = true }) d

unfoldable pub reset_enrichment : Index → Index
reset_enrichment d = record d { book_enrichment = [] }
