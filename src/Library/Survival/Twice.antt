-- ===== src/Library/Survival/Twice.antt =====
-- Two prunes with the same walk.
use my_eink_library.Common.{
  ==_refl, Option-cases, exists_of_found, exists-delete_none, exists_one, exists_all, find?, exists,
  exists-delete, find?_holds, find?-exists, find?_unique, exists-update_keeps, ℕ, ◌≡◌, refl, sym,
  ap, ◌∙◌, inl, inr, Bool, true, false, ◌||◌, some, List, [], ◌∷◌, arith,
}
use my_eink_library.Library.Prune.{
  Seen, remove_canonical_file, remove_all, prune_missing, delete_book, delete_stale_locations,
  promote, location_unseen, promoted, stale_books, locations_of, promote_to, book_unseen,
}
use my_eink_library.Library.{Index, book_has_id, BookRow, location_of}
use my_eink_library.Library.Sound.{IsSound}
use my_eink_library.Library.Sound.Pruned.{prune_missing-IsSound}
use my_eink_library.Library.Survival.{book_seen}
use my_eink_library.Library.Survival.Pruning.{prune_missing-book}

module _ (foreign_keys : Bool) (now : ℕ) (seen : Seen) where
  remove_adds_none :
      (id j : ℕ) (d : Index)
      → exists (book_has_id id) d.books ≡ false
      → exists (book_has_id id) (remove_canonical_file foreign_keys now seen j d).books ≡ false
  unfolding remove_canonical_file delete_book promote
  remove_adds_none id j d missing = elim (Option-cases (promoted seen (locations_of j d))) [
    | inl bare ↦
        rw (remove_canonical_file, bare)
          (exists-delete_none (book_has_id id) (book_has_id j) d.books missing)
    | inr (l, found) ↦
        rw (remove_canonical_file, found)
          (exists-update_keeps (book_has_id j) (book_has_id id) (promote_to now l) d.books
              (λ b. refl)
            ∙ missing)
  ]

  remove_all_adds_none :
      (id : ℕ) (ids : List ℕ) (d : Index)
      → exists (book_has_id id) d.books ≡ false
      → exists (book_has_id id) (remove_all foreign_keys now seen ids d).books ≡ false
  unfolding remove_all
  remove_all_adds_none id [] d missing = missing
  remove_all_adds_none id (j ∷ ids) d missing =
      remove_all_adds_none id ids (remove_canonical_file foreign_keys now seen j d)
        (remove_adds_none id j d missing)

  prune_adds_none :
      (id : ℕ) (d : Index)
      → exists (book_has_id id) d.books ≡ false
      → exists (book_has_id id) (prune_missing foreign_keys now seen d).books ≡ false
  unfolding prune_missing delete_stale_locations
  prune_adds_none id d missing = remove_all_adds_none id (stale_books seen d) d missing

  pruned_locations :
      (d : Index)
      → exists (location_unseen seen) (prune_missing foreign_keys now seen d).book_locations ≡ false
  unfolding prune_missing delete_stale_locations
  pruned_locations d =
      exists-delete (location_unseen seen)
        (remove_all foreign_keys now seen (stale_books seen d) d).book_locations

  -- A book that is there after the second prune has a canonical file that was seen.
  seen_after :
      (id : ℕ) (e : Index) (b : BookRow)
      → IsSound e
      → exists (location_unseen seen) e.book_locations ≡ false
      → find? (book_has_id id) e.books ≡ some b
      → exists (book_has_id id) (prune_missing foreign_keys now seen e).books ≡ true
      → exists (book_seen seen id) (prune_missing foreign_keys now seen e).books ≡ true
  seen_after id e b v clean found there =
      let (kept, last) = prune_missing-book foreign_keys now seen id e b v found in
      last
      ∙ ap (λ x. seen b.library_root b.file_path || x)
          (sym (
            exists_all (location_of id) (λ l. seen l.library_root l.file_path) e.book_locations
              clean))
      ∙ sym kept
      ∙ there

  none_unseen :
      (d : Index) (b : BookRow)
      → IsSound d
      → find?
          (book_unseen seen)
          (prune_missing foreign_keys now seen (prune_missing foreign_keys now seen d)).books
        ≡ some b
      → ⊥
  none_unseen d b v found =
      let e = prune_missing foreign_keys now seen d in
      let f = prune_missing foreign_keys now seen e in
      let ev = prune_missing-IsSound foreign_keys now seen d v in
      let fv = prune_missing-IsSound foreign_keys now seen e ev in
      let there =
        exists_of_found (book_unseen seen) (book_has_id b.id) f.books b found (==_refl b.id) in
      elim (Option-cases (find? (book_has_id b.id) e.books)) [
        | inl missing ↦
            ground (
              arith,
              there,
              prune_adds_none b.id e (find?-exists (book_has_id b.id) e.books missing),
            )
        | inr (w, w_found) ↦ ground (
          arith,
          find?_holds (book_unseen seen) f.books b found,
          seen_after b.id e w ev (pruned_locations d) w_found there,
          exists_one (book_has_id b.id) (λ x. seen x.library_root x.file_path) f.books b
              (find?_unique (book_has_id b.id) (book_unseen seen) f.books b found (==_refl b.id)
                (fv.ids_unique b.id))
              (fv.ids_unique b.id),
        )
      ]

  -- Two prunes with the same walk leave a sound index with books and locations of files alone that the
  -- walk has seen.
  pub prune_missing_twice :
      (d : Index)
      → IsSound d
      → let f = prune_missing foreign_keys now seen (prune_missing foreign_keys now seen d) in
        (exists (book_unseen seen) f.books ≡ false)
        × (exists (location_unseen seen) f.book_locations ≡ false)
  prune_missing_twice d v =
      let e = prune_missing foreign_keys now seen d in
      let f = prune_missing foreign_keys now seen e in
      (
        elim (Option-cases (find? (book_unseen seen) f.books)) [
          | inl clean ↦ find?-exists (book_unseen seen) f.books clean
          | inr (b, found) ↦ absurd (none_unseen d b v found)
        ],
        pruned_locations e,
      )
