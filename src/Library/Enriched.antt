-- ===== src/Library/Enriched.antt =====
-- What SaveMetadata and ApplyEnrichment write is what currentEnrichmentMerged reads.
use my_eink_library.Common.{
  ==_refl, Bool-cases, Option-cases, exists_of_found, find?, update, find?_holds, find?-append_none,
  find?-exists, find?-update_found, Text, text_eq, ℕ, zero, suc, ◌^◌, ◌≡◌, refl, ◌∙◌, ◌≢◌, inl, inr,
  Option, none, some, List, [], ◌∷◌, arith,
}
use my_eink_library.Library.Enrich.{set_source_status}
use my_eink_library.Library.Status.{
  column_status, column_chaptarr, column_hardcover, with_patch, blank_enrichment, put_enrichment,
  set_provider_status, StatusColumn, with_status, column_chaptarr, column_hardcover,
}
use my_eink_library.Library.Patch.{
  merged, MetadataPatch, or_none, coalesce, null_if_zero_int, null_if_zero_float, joined,
  enrichment_row, source_chaptarr, done, source_hardcover,
}
use my_eink_library.Library.{EnrichmentRow, BookRow, enrichment_of, Index}
use my_eink_library.Users.Listing.{or_empty}
use my_eink_library.Library.Genres.{null_if_empty-or_empty, IsReadable}
use my_eink_library.Users.{null_if_empty}

-- The columns as upsertEnrichment writes them: no text is empty, and no rating is the negative zero.
pub record IsStored (e : EnrichmentRow) : Type 0 where
  pub title_filled : e.title ≢ some []
  pub series_filled : e.series ≢ some []
  pub published_date_filled : e.published_date ≢ some []
  pub description_filled : e.description ≢ some []
  pub publisher_filled : e.publisher ≢ some []
  pub rating_positive : e.rating ≢ some (2 ^ 63)

abbrev pub AllStored : Option EnrichmentRow → Type 0
AllStored none = Unit {0}
AllStored (some e) = IsStored e

-- What a text column holds is read back, if an empty text stands only for one that was empty.
abbrev pub Replaces : Text → Text → Type 0
Replaces new old = new ≡ [] → old ≡ []

read_text :
    (f : Text) (old b : Option Text)
    → old ≢ some []
    → Replaces f (or_empty (coalesce old b))
    → or_empty (coalesce (null_if_empty f) b) ≡ f
read_text (c ∷ f) old b filled replaces = refl
read_text [] none b filled replaces = replaces refl
read_text [] (some []) b filled replaces = absurd (filled refl)
read_text [] (some (c ∷ s)) b filled replaces = absurd (cc (replaces refl))

read_own_text : (f : Text) → or_empty (coalesce (null_if_empty f) none) ≡ f
read_own_text [] = refl
read_own_text (c ∷ f) = refl

read_pages : (n : ℕ) → or_none (null_if_zero_int n) ≡ n
read_pages zero = refl
read_pages (suc n) = refl

read_rating : (r : ℕ) → r ≢ 2 ^ 63 → or_none (null_if_zero_float r) ≡ r
read_rating r h = ground (arith, h)

-- A patch that the row of a book can take up without loss.
pub record Fits (cur f : MetadataPatch) : Type 0 where
  pub title : Replaces f.title cur.title
  pub series : Replaces f.series cur.series
  pub published_date : Replaces f.published_date cur.published_date
  pub description : Replaces f.description cur.description
  pub publisher : Replaces f.publisher cur.publisher
  pub genres : IsReadable f.genres
  pub rating : f.rating ≢ 2 ^ 63

column_filled :
    (column : EnrichmentRow → Option Text) (e : Option EnrichmentRow)
    → ((r : EnrichmentRow) → IsStored r → column r ≢ some [])
    → AllStored e
    → joined column e ≢ some []
column_filled column none filled v h = cc h
column_filled column (some r) filled v h = filled r v h

pub merged-with_patch :
    (now : ℕ) (f : MetadataPatch) (status source : Text) (r : EnrichmentRow)
    (e : Option EnrichmentRow) (b : BookRow)
    → AllStored e
    → Fits (merged e b) f
    → merged (some (with_patch now f status source r)) b ≡ f
unfolding merged
merged-with_patch now f status source r e b v fits =
    rw
      (
        read_text f.title (joined (λ x. x.title) e) (some b.title)
            (column_filled (λ x. x.title) e (λ x s. s.title_filled) v) fits.title,
        read_text f.series (joined (λ x. x.series) e) b.series
            (column_filled (λ x. x.series) e (λ x s. s.series_filled) v) fits.series,
        read_text f.published_date (joined (λ x. x.published_date) e) b.published_date
            (column_filled (λ x. x.published_date) e (λ x s. s.published_date_filled) v)
            fits.published_date,
        read_text f.description (joined (λ x. x.description) e) b.description
            (column_filled (λ x. x.description) e (λ x s. s.description_filled) v) fits.description,
        read_text f.publisher (joined (λ x. x.publisher) e) b.publisher
            (column_filled (λ x. x.publisher) e (λ x s. s.publisher_filled) v) fits.publisher,
        fits.genres,
        read_pages f.pages,
        null_if_empty-or_empty f.isbn,
        read_rating f.rating fits.rating,
      )
      refl

put_last :
    (id now : ℕ) (f : EnrichmentRow → EnrichmentRow)
    → (f (blank_enrichment id now)).book_id ≡ id
    → find? (enrichment_of id) (f (blank_enrichment id now) ∷ [])
      ≡ some (f (blank_enrichment id now))
unfolding find?
put_last id now f kept = rw (kept, ==_refl id) refl

abbrev pub KeepsBook : (EnrichmentRow → EnrichmentRow) → Type 0
KeepsBook f = (r : EnrichmentRow) → (f r).book_id ≡ r.book_id

put_found :
    (id : ℕ) (f : EnrichmentRow → EnrichmentRow) (rows : List EnrichmentRow) (r : EnrichmentRow)
    → KeepsBook f
    → find? (enrichment_of id) rows ≡ some r
    → find? (enrichment_of id) (update (enrichment_of id) f rows) ≡ some (f r)
put_found id f rows r keeps found =
    find?-update_found (enrichment_of id) (enrichment_of id) f rows r found
      (find?_holds (enrichment_of id) rows r found) (λ x. rw (keeps x) refl)

-- The row of a book that is written is a row, old or new, on which the write was made.
pub find_put :
    (id now : ℕ) (f : EnrichmentRow → EnrichmentRow) (rows : List EnrichmentRow)
    → KeepsBook f
    → (r : EnrichmentRow) × (find? (enrichment_of id) (put_enrichment id now f rows) ≡ some (f r))
unfolding put_enrichment
find_put id now f rows keeps = elim (Option-cases (find? (enrichment_of id) rows)) [
  | inl missing ↦ (
    blank_enrichment id now,
    rw (put_enrichment, find?-exists (enrichment_of id) rows missing)
        (find?-append_none (enrichment_of id) rows (f (blank_enrichment id now) ∷ []) missing
          ∙ put_last id now f (keeps (blank_enrichment id now))),
  )
  | inr (r, found) ↦ (
    r,
    rw
        (
          put_enrichment,
          exists_of_found (enrichment_of id) (enrichment_of id) rows r found
              (find?_holds (enrichment_of id) rows r found),
        )
        (put_found id f rows r keeps found),
  )
]

pub find_put_again :
    (id now : ℕ) (f : EnrichmentRow → EnrichmentRow) (rows : List EnrichmentRow) (r : EnrichmentRow)
    → KeepsBook f
    → find? (enrichment_of id) rows ≡ some r
    → find? (enrichment_of id) (put_enrichment id now f rows) ≡ some (f r)
unfolding put_enrichment
find_put_again id now f rows r keeps found =
    rw
      (
        put_enrichment,
        exists_of_found (enrichment_of id) (enrichment_of id) rows r found
            (find?_holds (enrichment_of id) rows r found),
      )
      (put_found id f rows r keeps found)

-- A row of a book that reads like another one.
pub record ReadsLike (id : ℕ) (w : EnrichmentRow) (d : Index) : Type 0 where
  pub row : EnrichmentRow
  pub found : enrichment_row id d ≡ some row
  pub reads : (b : BookRow) → merged (some row) b ≡ merged (some w) b
  pub source : row.source ≡ w.source
  pub status : row.status ≡ w.status

set_provider_status-ReadsLike :
    (column : StatusColumn) (own_column : column ≢ column_status) (now id : ℕ) (status : Text)
    (w : EnrichmentRow) (d : Index)
    → enrichment_row id d ≡ some w
    → ReadsLike id w (set_provider_status column now id status d)
unfolding set_provider_status merged
set_provider_status-ReadsLike column_status own_column now id status w d found =
    absurd (own_column refl)
set_provider_status-ReadsLike column_chaptarr own_column now id status w d found = record {
  row = with_status column_chaptarr now status w;
  found =
      find_put_again id now (with_status column_chaptarr now status) d.book_enrichment w (λ r. refl)
        found;
  reads = λ b. refl;
  source = refl;
  status = refl;
}
set_provider_status-ReadsLike column_hardcover own_column now id status w d found = record {
  row = with_status column_hardcover now status w;
  found =
      find_put_again id now (with_status column_hardcover now status) d.book_enrichment w
        (λ r. refl) found;
  reads = λ b. refl;
  source = refl;
  status = refl;
}

pub set_source_status-ReadsLike :
    (now id : ℕ) (source : Text) (w : EnrichmentRow) (d : Index)
    → enrichment_row id d ≡ some w
    → ReadsLike id w (set_source_status now id source d)
unfolding set_source_status
set_source_status-ReadsLike now id source w d found =
    elim (Bool-cases (text_eq source source_chaptarr)) [
      | inl its ↦
          rw (set_source_status, its)
            (set_provider_status-ReadsLike column_chaptarr (λ e. cc e) now id done w d found)
      | inr other ↦ elim (Bool-cases (text_eq source source_hardcover)) [
        | inl its ↦
            rw (set_source_status, other, its)
              (set_provider_status-ReadsLike column_hardcover (λ e. cc e) now id done w d found)
        | inr neither ↦
            rw (set_source_status, other, neither)
              (record { row = w; found = found; reads = λ b. refl; source = refl; status = refl })
      ]
    ]
