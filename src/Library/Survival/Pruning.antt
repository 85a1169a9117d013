-- ===== src/Library/Survival/Pruning.antt =====
-- A whole prune: every stale book once, then the stale locations.
use my_eink_library.Common.{
  ◌==◌, ==_iff, Bool-cases, indicator, exists_of_found, exists_one, counted_one, find?, count,
  exists, select, find?_holds, ℕ, ◌≡◌, refl, ap, ◌∙◌, inl, inr, Bool, true, ◌&&◌, ◌||◌, some, List,
  [], ◌∷◌, map, arith,
}
use my_eink_library.Library.Prune.{
  Seen, remove_all, stale_books, prune_missing, delete_stale_locations, book_unseen,
  remove_canonical_file,
}
use my_eink_library.Library.{BookRow, Index, book_has_id, location_of}
use my_eink_library.Library.Sound.{IsSound}
use my_eink_library.Library.Survival.{
  Settled, Same, book_seen, remove_other, location_seen, remove_self,
}
use my_eink_library.Library.Sound.Pruned.{remove_canonical_file-IsSound}

module _ (foreign_keys : Bool) (now : ℕ) (seen : Seen) (id : ℕ) where
  skip :
      (ids : List ℕ) (d : Index)
      → IsSound d
      → count (λ j. j == id) ids ≡ 0
      → Same foreign_keys now seen id d (remove_all foreign_keys now seen ids d)
  unfolding remove_all count
  skip [] d v none_left = record {
    book = refl;
    book_seen_kept = refl;
    location = refl;
    location_seen_kept = refl;
  }
  skip (j ∷ ids) d v none_left =
      let one = remove_other foreign_keys now seen id j d v (ground (arith, none_left)) in
      let rest =
        skip ids (remove_canonical_file foreign_keys now seen j d)
          (remove_canonical_file-IsSound foreign_keys now seen j d v) (ground (arith, none_left)) in
      record {
        book = rest.book ∙ one.book;
        book_seen_kept = rest.book_seen_kept ∙ one.book_seen_kept;
        location = rest.location ∙ one.location;
        location_seen_kept = rest.location_seen_kept ∙ one.location_seen_kept;
      }

  settle :
      (ids : List ℕ) (d : Index)
      → IsSound d
      → count (λ j. j == id) ids ≡ 1
      → exists (book_has_id id) d.books ≡ true
      → Settled foreign_keys now seen id d (remove_all foreign_keys now seen ids d)
  unfolding remove_all count
  settle [] d v once there = absurd (omega arith)
  settle (j ∷ ids) d v once there =
      let v' = remove_canonical_file-IsSound foreign_keys now seen j d v in
      elim (Bool-cases (j == id)) [
        | inl its ↦
            let e : remove_canonical_file foreign_keys now seen j d
                ≡ remove_canonical_file foreign_keys now seen id d =
              ap (λ i. remove_canonical_file foreign_keys now seen i d) ((==_iff j id).0 its) in
            let one = remove_self foreign_keys now seen id d v there in
            let rest =
              skip ids (remove_canonical_file foreign_keys now seen j d) v'
                (ground (arith, its, once)) in
            record {
              book = rest.book ∙ ap (λ x. exists (book_has_id id) x.books) e ∙ one.book;
              book_seen_after =
                  rest.book_seen_kept
                  ∙ ap (λ x. exists (book_seen seen id) x.books) e
                  ∙ one.book_seen_after;
            }
        | inr other ↦
            let one = remove_other foreign_keys now seen id j d v other in
            let rest =
              settle ids (remove_canonical_file foreign_keys now seen j d) v'
                (ground (arith, other, once)) (one.book ∙ there) in
            record {
              book = rest.book ∙ one.location;
              book_seen_after = rest.book_seen_after ∙ one.location_seen_kept;
            }
      ]

  count-ids :
      (p : BookRow → Bool) (books : List BookRow)
      → count (λ j. j == id) (map (λ b. b.id) (select p books))
        ≡ count (λ b. book_has_id id b && p b) books
  unfolding count select
  count-ids p [] = refl
  count-ids p (b ∷ books) = ground (arith, count-ids p books)

  stale_count :
      (d : Index) (b : BookRow)
      → IsSound d
      → find? (book_has_id id) d.books ≡ some b
      → count (λ j. j == id) (stale_books seen d) ≡ indicator (book_unseen seen b)
  unfolding stale_books
  stale_count d b v found =
      count-ids (book_unseen seen) d.books
      ∙ counted_one (book_has_id id) (book_unseen seen) d.books b found (v.ids_unique id)

  -- A book of a sound index survives a prune exactly if the walk has seen its canonical file or it has
  -- another location, and is left with a canonical file that the walk has seen exactly if the walk has
  -- seen one of its files.
  pub prune_missing-book :
      (d : Index) (b : BookRow)
      → IsSound d
      → find? (book_has_id id) d.books ≡ some b
      → (exists (book_has_id id) (prune_missing foreign_keys now seen d).books
          ≡ (seen b.library_root b.file_path || exists (location_of id) d.book_locations))
        × (exists (book_seen seen id) (prune_missing foreign_keys now seen d).books
            ≡ (seen b.library_root b.file_path || exists (location_seen seen id) d.book_locations))
  unfolding prune_missing delete_stale_locations
  prune_missing-book d b v found =
      let there =
        exists_of_found (book_has_id id) (book_has_id id) d.books b found
          (find?_holds (book_has_id id) d.books b found) in
      elim (Bool-cases (seen b.library_root b.file_path)) [
        | inl kept ↦
            let same = skip (stale_books seen d) d v (stale_count d b v found ∙ rw kept refl) in
            rw kept (
              same.book ∙ there,
              same.book_seen_kept
                  ∙ exists_one (book_has_id id) (λ w. seen w.library_root w.file_path) d.books b
                      found (v.ids_unique id)
                  ∙ kept,
            )
        | inr stale ↦
            let settled =
              settle (stale_books seen d) d v (stale_count d b v found ∙ rw stale refl) there in
            rw stale (settled.book, settled.book_seen_after)
      ]
