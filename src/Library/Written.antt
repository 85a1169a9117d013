-- ===== src/Library/Written.antt =====
-- What SaveMetadata and ApplyEnrichment merge is what the book shows from then on.
use my_eink_library.Common.{
  if◌then◌else◌, Bool-cases, Option-cases, and_left, ok, find?, Text, text_eq, is_empty, ℕ, ◌^◌,
  ◌≡◌, refl, sym, ap, ◌∙◌, ◌≢◌, inl, inr, Bool, true, false, not, Option, none, some, List, [], ◌∷◌,
  arith,
}
use my_eink_library.Library.{EnrichmentRow, BookRow, Index, book_has_id}
use my_eink_library.Library.Enrich.{
  given_rating, given_text, merge_manual_metadata, merge_provider_metadata, given_genres,
  new_series, save_metadata, set_source_status, apply_enrichment,
}
use my_eink_library.Library.Status.{
  upsert_enrichment, get_enrichment_source, with_patch, set_provider_status,
}
use my_eink_library.Library.Patch.{
  merged, or_none, joined, MetadataPatch, effective_title, effective_series,
  effective_published_date, effective_description, effective_publisher, split_csv,
  current_enrichment_merged, enrichment_row, done, source_manual, source_chaptarr, source_hardcover,
}
use my_eink_library.Library.Genres.{IsPlain, IsReadable, IsPlain-IsReadable, split_csv-IsReadable}
use my_eink_library.Library.Enriched.{
  Replaces, AllStored, Fits, find_put, merged-with_patch, set_source_status-ReadsLike,
}
use my_eink_library.Users.Listing.{or_empty}

given_text-Replaces : (new old : Text) → Replaces (given_text new old) old
given_text-Replaces [] old e = e
given_text-Replaces (c ∷ new) old e = absurd (cc e)

if-Replaces :
    (t : Bool) (new old : Text) → (t ≡ true → new ≢ []) → Replaces (if t then new else old) old
if-Replaces false new old h e = e
if-Replaces true new old h e = absurd (h refl e)

filled : (s : Text) → not (is_empty s) ≡ true → s ≢ []
filled [] h e = cc h
filled (c ∷ s) h e = cc e

date-Replaces : (new old : Text) → Replaces (if is_empty old then new else old) old
date-Replaces new [] e = refl
date-Replaces new (c ∷ old) e = e

given_genres-IsReadable :
    (new old : List Text) → IsPlain new → IsReadable old → IsReadable (given_genres new old)
given_genres-IsReadable [] old _ readable = readable
given_genres-IsReadable (g ∷ gs) old plain _ = IsPlain-IsReadable (g ∷ gs) plain

given_rating-positive : (new old : ℕ) → old ≢ 2 ^ 63 → given_rating new old ≢ 2 ^ 63
given_rating-positive new old h = ground (arith, h)

merged-positive :
    (e : Option EnrichmentRow) → AllStored e → or_none (joined (λ r. r.rating) e) ≢ 2 ^ 63
merged-positive none v h = omega (arith, h)
merged-positive (some r) v h = elim (Option-cases r.rating) [
  | inl blank ↦ absurd (omega (arith, sym (ap or_none blank) ∙ h))
  | inr (f, is) ↦ v.rating_positive (is ∙ ap some (sym (ap or_none is) ∙ h))
]

manual-Fits :
    (e : Option EnrichmentRow) (b : BookRow) (patch : MetadataPatch)
    → AllStored e
    → IsPlain patch.genres
    → Fits (merged e b) (merge_manual_metadata (merged e b) patch)
unfolding merged merge_manual_metadata
manual-Fits e b patch v plain = record {
  title = given_text-Replaces patch.title (effective_title e b);
  series = given_text-Replaces patch.series (or_empty (effective_series e b));
  published_date =
      given_text-Replaces patch.published_date (or_empty (effective_published_date e b));
  description = given_text-Replaces patch.description (or_empty (effective_description e b));
  publisher = given_text-Replaces patch.publisher (or_empty (effective_publisher e b));
  genres =
      given_genres-IsReadable patch.genres (split_csv (or_empty (joined (λ r. r.genres) e))) plain
        (split_csv-IsReadable (or_empty (joined (λ r. r.genres) e)));
  rating =
      given_rating-positive patch.rating (or_none (joined (λ r. r.rating) e)) (merged-positive e v);
}

provider-Fits :
    (fold_eq : Text → Text → Bool) (e : Option EnrichmentRow) (b : BookRow) (patch : MetadataPatch)
    → AllStored e
    → IsPlain patch.genres
    → Fits (merged e b) (merge_provider_metadata fold_eq (merged e b) patch)
unfolding merged merge_provider_metadata
provider-Fits fold_eq e b patch v plain = record {
  title = given_text-Replaces patch.title (effective_title e b);
  series =
      if-Replaces (new_series fold_eq (merged e b) patch) patch.series
        (or_empty (effective_series e b)) (λ t. filled patch.series (and_left _ _ t));
  published_date = date-Replaces patch.published_date (or_empty (effective_published_date e b));
  description =
      if-Replaces _ patch.description (or_empty (effective_description e b))
        (λ t. filled patch.description (and_left _ _ t));
  publisher = given_text-Replaces patch.publisher (or_empty (effective_publisher e b));
  genres =
      given_genres-IsReadable patch.genres (split_csv (or_empty (joined (λ r. r.genres) e))) plain
        (split_csv-IsReadable (or_empty (joined (λ r. r.genres) e)));
  rating =
      given_rating-positive patch.rating (or_none (joined (λ r. r.rating) e)) (merged-positive e v);
}

-- What a write of a patch that fits gives.
written :
    (now id : ℕ) (f : MetadataPatch) (source : Text) (b : BookRow) (d : Index)
    → AllStored (enrichment_row id d)
    → Fits (merged (enrichment_row id d) b) f
    → (w : EnrichmentRow) × (enrichment_row id (upsert_enrichment now id f done source d) ≡ some w)
      × (merged (some w) b ≡ f)
      × (w.source ≡ source)
unfolding upsert_enrichment
written now id f source b d v fits =
    let (r, found) = find_put id now (with_patch now f done source) d.book_enrichment (λ x. refl) in
    (
      with_patch now f done source r,
      found,
      merged-with_patch now f done source r (enrichment_row id d) b v fits,
      refl,
    )

pub current_of :
    (id : ℕ) (b : BookRow) (d : Index)
    → find? (book_has_id id) d.books ≡ some b
    → current_enrichment_merged id d ≡ ok (merged (enrichment_row id d) b)
unfolding current_enrichment_merged
current_of id b d found = rw (current_enrichment_merged, found) refl

-- After SaveMetadata of a patch with plain genres for a book, whose enrichment row, if it has one, is as
-- the program writes it, the book shows the patch merged by hand into what it showed before, and the
-- source is "manual".
pub save_metadata-merged :
    (now id : ℕ) (patch : MetadataPatch) (b : BookRow) (d : Index)
    → find? (book_has_id id) d.books ≡ some b
    → AllStored (enrichment_row id d)
    → IsPlain patch.genres
    → let d' = (save_metadata now id patch d).1 in
      (current_enrichment_merged id d'
        ≡ ok (merge_manual_metadata (merged (enrichment_row id d) b) patch))
      × (get_enrichment_source id d' ≡ source_manual)
unfolding save_metadata get_enrichment_source upsert_enrichment
save_metadata-merged now id patch b d found v plain =
    let final = merge_manual_metadata (merged (enrichment_row id d) b) patch in
    let (w, row, shows, source) =
      written now id final source_manual b d v
        (manual-Fits (enrichment_row id d) b patch v plain) in
    rw (save_metadata, current_of id b d found)
      (
        current_of id b (upsert_enrichment now id final done source_manual d) found
            ∙ ap ok (ap (λ e. merged e b) row ∙ shows),
        rw (get_enrichment_source, row) source,
      )

pub set_source_status-books :
    (now id : ℕ) (source : Text) (d : Index) → (set_source_status now id source d).books ≡ d.books
unfolding set_source_status set_provider_status
set_source_status-books now id source d = elim (Bool-cases (text_eq source source_chaptarr)) [
  | inl its ↦ rw (set_source_status, its) refl
  | inr other ↦ elim (Bool-cases (text_eq source source_hardcover)) [
    | inl its ↦ rw (set_source_status, other, its) refl
    | inr neither ↦ rw (set_source_status, other, neither) refl
  ]
]

-- After ApplyEnrichment of a patch with plain genres for a book, whose enrichment row, if it has one, is
-- as the program writes it, the book shows the patch merged by the rules for providers into what it showed
-- before, and the source is the provider.
pub apply_enrichment-merged :
    (fold_eq : Text → Text → Bool) (now id : ℕ) (patch : MetadataPatch) (provider : Text)
    (b : BookRow) (d : Index)
    → find? (book_has_id id) d.books ≡ some b
    → AllStored (enrichment_row id d)
    → IsPlain patch.genres
    → let d' = (apply_enrichment fold_eq now id patch provider d).1 in
      (current_enrichment_merged id d'
        ≡ ok (merge_provider_metadata fold_eq (merged (enrichment_row id d) b) patch))
      × (get_enrichment_source id d' ≡ provider)
unfolding apply_enrichment get_enrichment_source upsert_enrichment
apply_enrichment-merged fold_eq now id patch provider b d found v plain =
    let final = merge_provider_metadata fold_eq (merged (enrichment_row id d) b) patch in
    let d1 = upsert_enrichment now id final done provider d in
    let (w, row, shows, source) =
      written now id final provider b d v
        (provider-Fits fold_eq (enrichment_row id d) b patch v plain) in
    let like = set_source_status-ReadsLike now id provider w d1 row in
    rw (apply_enrichment, current_of id b d found)
      (
        current_of id b (set_source_status now id provider d1)
              (ap (find? (book_has_id id)) (set_source_status-books now id provider d1) ∙ found)
            ∙ ap ok (ap (λ e. merged e b) like.found ∙ like.reads b ∙ shows),
        rw (get_enrichment_source, like.found) (like.source ∙ source),
      )
