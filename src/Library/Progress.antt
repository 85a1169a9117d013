-- ===== src/Library/Progress.antt =====
-- The calls that take a book out of the queue for enrichment.
use my_eink_library.Common.{
  ◌==◌, Bool-cases, indicator, find?, Text, text_eq, is_empty, ℕ, ◌+◌, ◌≡◌, refl, ap, ◌∙◌, inl, inr,
  Bool, false, some,
}
use my_eink_library.Library.Enrich.{
  set_source_status, save_metadata, apply_enrichment, merge_manual_metadata,
  merge_provider_metadata,
}
use my_eink_library.Library.Status.{
  column_status, column_chaptarr, column_hardcover, set_provider_status, upsert_enrichment,
  get_enrichment_stats, StatusColumn, set_enrichment_status, with_status, with_patch,
  needs_enrichment, status_of,
}
use my_eink_library.Library.Patch.{
  MetadataPatch, enrichment_row, source_chaptarr, done, source_hardcover, merged, source_manual,
}
use my_eink_library.Library.{Index, BookRow, book_has_id}
use my_eink_library.Library.Sound.{IsSound}
use my_eink_library.Library.Pending.{
  put_enrichment-other, Marks, put_enrichment-Marks, Marks-pending,
}
use my_eink_library.Library.Enriched.{find_put, set_source_status-ReadsLike}
use my_eink_library.Library.Written.{current_of, set_source_status-books}

set_provider_status-other :
    (column : StatusColumn) (now id j : ℕ) (status : Text) (d : Index)
    → (id == j) ≡ false
    → enrichment_row j (set_provider_status column now id status d) ≡ enrichment_row j d
unfolding set_provider_status
set_provider_status-other column_status now id j status d other =
    put_enrichment-other id now j (with_status column_status now status) d.book_enrichment
      (λ r. refl) other
set_provider_status-other column_chaptarr now id j status d other =
    put_enrichment-other id now j (with_status column_chaptarr now status) d.book_enrichment
      (λ r. refl) other
set_provider_status-other column_hardcover now id j status d other =
    put_enrichment-other id now j (with_status column_hardcover now status) d.book_enrichment
      (λ r. refl) other

set_source_status-other :
    (now id j : ℕ) (source : Text) (d : Index)
    → (id == j) ≡ false
    → enrichment_row j (set_source_status now id source d) ≡ enrichment_row j d
unfolding set_source_status
set_source_status-other now id j source d other =
    elim (Bool-cases (text_eq source source_chaptarr)) [
      | inl its ↦
          rw (set_source_status, its)
            (set_provider_status-other column_chaptarr now id j done d other)
      | inr unlike ↦ elim (Bool-cases (text_eq source source_hardcover)) [
        | inl its ↦
            rw (set_source_status, unlike, its)
              (set_provider_status-other column_hardcover now id j done d other)
        | inr neither ↦ rw (set_source_status, unlike, neither) refl
      ]
    ]

upsert_enrichment-Marks :
    (now id : ℕ) (f : MetadataPatch) (source : Text) (d : Index)
    → Marks id d.book_enrichment (upsert_enrichment now id f done source d).book_enrichment
unfolding upsert_enrichment
upsert_enrichment-Marks now id f source d =
    put_enrichment-Marks id now (with_patch now f done source) d.book_enrichment (λ r. refl)
      (λ r. refl)

-- Writing a provider's own status leaves the status alone.
enriched-Marks :
    (now id : ℕ) (f : MetadataPatch) (source : Text) (d : Index)
    → Marks id d.book_enrichment
        (set_source_status now id source (upsert_enrichment now id f done source d)).book_enrichment
unfolding upsert_enrichment
enriched-Marks now id f source d =
    let d1 = upsert_enrichment now id f done source d in
    let (r, found) = find_put id now (with_patch now f done source) d.book_enrichment (λ x. refl) in
    let like =
      set_source_status-ReadsLike now id source (with_patch now f done source r) d1 found in
    record {
      marked = ap (λ e. is_empty (status_of e)) like.found ∙ ap is_empty like.status;
      others = λ j other.
          set_source_status-other now id j source d1 other
          ∙ (upsert_enrichment-Marks now id f source d).others j other;
    }

-- The number of books of a sound index that wait for enrichment falls by one, if the book was waiting,
-- and stays otherwise, when SetEnrichmentStatus gives the book a status that is not empty, when SaveMetadata
-- saves it, and when ApplyEnrichment enriches it.
pub get_enrichment_stats-pending :
    (fold_eq : Text → Text → Bool) (now id : ℕ) (status : Text) (patch : MetadataPatch)
    (provider : Text) (b : BookRow) (d : Index)
    → IsSound d
    → find? (book_has_id id) d.books ≡ some b
    → is_empty status ≡ false
    → let waiting = indicator (needs_enrichment d b) in
      ((get_enrichment_stats (set_enrichment_status now id status d)).pending + waiting
        ≡ (get_enrichment_stats d).pending)
      × ((get_enrichment_stats (save_metadata now id patch d).1).pending + waiting
          ≡ (get_enrichment_stats d).pending)
      × ((get_enrichment_stats (apply_enrichment fold_eq now id patch provider d).1).pending
            + waiting
          ≡ (get_enrichment_stats d).pending)
unfolding get_enrichment_stats set_enrichment_status set_provider_status save_metadata
    apply_enrichment upsert_enrichment
get_enrichment_stats-pending fold_eq now id status patch provider b d v found filled =
    let cur = merged (enrichment_row id d) b in
    let by_hand = merge_manual_metadata cur patch in
    let final = merge_provider_metadata fold_eq cur patch in
    let d1 = upsert_enrichment now id final done provider d in
    (
      Marks-pending id d (set_enrichment_status now id status d) b v found (
          put_enrichment-Marks id now (with_status column_status now status) d.book_enrichment
            (λ r. refl) (λ r. filled)),
      rw (save_metadata, current_of id b d found)
          (Marks-pending id d (upsert_enrichment now id by_hand done source_manual d) b v found
            (upsert_enrichment-Marks now id by_hand source_manual d)),
      rw (apply_enrichment, current_of id b d found, set_source_status-books now id provider d1)
          (Marks-pending id d (set_source_status now id provider d1) b v found
            (enriched-Marks now id final provider d)),
    )
