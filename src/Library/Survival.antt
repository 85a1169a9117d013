-- ===== src/Library/Survival.antt =====
-- Which books and locations a prune leaves.
pub mod Pruning
pub mod Twice
use my_eink_library.Common.{
  ltb, leb, ◌==◌, if◌then◌else◌, ltb→lt, lt→ltb, leb→le, ==_iff, ==_refl, Bool-cases, Option-cases,
  indicator, is_some, Result-cases, and_left, and_right, Result, ok, err, exists_either,
  exists_of_found, exists-delete_none, exists-update_safe, exists-delete_apart, exists_one,
  exists_counted, exists-update_apart, counted_one, exists_all, count_cong, find?, count, exists,
  select, update, delete, count-append, exists-append, exists-delete, find?_holds, find?-append,
  find?-append_none, find?-exists, exists-find?, update_absent, delete_absent, count-update_keeps,
  count-delete-le, length, take, length-append, length-take-le, All, All-append, All-map, insert_by,
  sort_by, count-sort_by, count-select, find?_absent, count_of_none, count_of_some,
  count_of_not_exists, count_implied, count-update_none, count-delete_none, count-update_one,
  count-delete_one, count_split, count-find?, find?_unique, count-and_one, count-update_lowers,
  count-update_raises, exists_implied, find?-update_found, exists_count, count_exists,
  length-delete, exists-delete_other, exists-update_keeps, exists_cong, exists_thinned,
  exists-delete_kept, exists_none, Text, codes, text_eq, text_eq_refl, text_eq_iff, is_empty,
  is_space, trim_left, trim_space, rune_len, byte_len, ascii_lower, lower_ascii, to_lower, ℕ, zero,
  suc, ◌+◌, ◌-◌, ◌*◌, ◌/◌, ◌%◌, ◌^◌, ◌≤◌, ◌<◌, ◌≡◌, refl, sym, ap, ◌∙◌, ◌≢◌, ◌↔◌, ◌⊎◌, inl, inr,
  Bool, true, false, not, ◌&&◌, ◌||◌, Option, none, some, reverse, List, [], ◌∷◌, ◌++◌, map,
  append-nil, append_assoc, arith,
}
use my_eink_library.Library.Prune.{
  Seen, promoted, remove_canonical_file, delete_book, promote, locations_of, promote_to,
}
use my_eink_library.Library.{BookRow, Index, LocationRow, book_has_id, location_of, location_at}
use my_eink_library.Library.Sound.{IsSound, other_book}
use my_eink_library.Library.Sound.Pruned.{
  promoted_absent, promoted_itself, count-locations_of, promoted_owned,
}

abbrev pub book_seen : Seen → ℕ → BookRow → Bool
book_seen seen id b = book_has_id id b && seen b.library_root b.file_path

abbrev pub location_seen : Seen → ℕ → LocationRow → Bool
location_seen seen id l = location_of id l && seen l.library_root l.file_path

-- The location that is promoted is seen if any is.
promoted-seen :
    (seen : Seen) (locs : List LocationRow) (l : LocationRow)
    → promoted seen locs ≡ some l
    → seen l.library_root l.file_path ≡ exists (λ w. seen w.library_root w.file_path) locs
unfolding promoted exists find?
promoted-seen seen locs l h =
    elim (Option-cases (find? (λ w. seen w.library_root w.file_path) locs)) [
      | inr (w, found) ↦ ground (
        arith,
        h,
        found,
        find?_holds (λ w. seen w.library_root w.file_path) locs w found,
        exists_of_found (λ w. seen w.library_root w.file_path)
            (λ w. seen w.library_root w.file_path) locs w found,
      )
      | inl missing ↦ unseen_first locs l h missing
    ]
  where
    unseen_first :
        (locs : List LocationRow) (l : LocationRow)
        → promoted seen locs ≡ some l
        → find? (λ w. seen w.library_root w.file_path) locs ≡ none
        → seen l.library_root l.file_path ≡ exists (λ w. seen w.library_root w.file_path) locs
    unseen_first [] l h missing = absurd (ground (arith, h, missing))
    unseen_first (w ∷ locs) l h missing =
        ground (arith, h, find?-exists (λ m. seen m.library_root m.file_path) (w ∷ locs) missing)

module _ (foreign_keys : Bool) (now : ℕ) (seen : Seen) (id : ℕ) where
  -- What is followed of one book through a prune.
  pub record Same (d e : Index) : Type 0 where
    pub book : exists (book_has_id id) e.books ≡ exists (book_has_id id) d.books
    pub book_seen_kept : exists (book_seen seen id) e.books ≡ exists (book_seen seen id) d.books
    pub location :
        exists (location_of id) e.book_locations ≡ exists (location_of id) d.book_locations
    pub location_seen_kept :
        exists (location_seen seen id) e.book_locations
        ≡ exists (location_seen seen id) d.book_locations

  pub record Settled (d e : Index) : Type 0 where
    pub book : exists (book_has_id id) e.books ≡ exists (location_of id) d.book_locations
    pub book_seen_after :
        exists (book_seen seen id) e.books ≡ exists (location_seen seen id) d.book_locations

  seen_of_locations :
      (d : Index)
      → exists (λ w. seen w.library_root w.file_path) (locations_of id d)
        ≡ exists (location_seen seen id) d.book_locations
  seen_of_locations d =
      exists_counted (λ w. seen w.library_root w.file_path)
        (λ w. seen w.library_root w.file_path && location_of id w) (locations_of id d)
        d.book_locations (count-locations_of id d (λ w. seen w.library_root w.file_path))
      ∙ exists_cong _ (location_seen seen id) d.book_locations (λ w. ground arith)

  delete_other :
      (keys : Bool) (j : ℕ) (d : Index) → (j == id) ≡ false → Same d (delete_book keys j d)
  unfolding delete_book
  delete_other true j d other = record {
    book = other_book j id d.books (ground (arith, other, ==_iff j id, ==_iff id j));
    book_seen_kept =
        exists-delete_other (book_has_id j) (book_seen seen id) d.books
          (λ b h. ground (arith, h, other, ==_iff b.id j, ==_iff b.id id, ==_iff j id));
    location =
        exists-delete_other (location_of j) (location_of id) d.book_locations
          (λ l h. ground (arith, h, other, ==_iff l.book_id j, ==_iff l.book_id id, ==_iff j id));
    location_seen_kept =
        exists-delete_other (location_of j) (location_seen seen id) d.book_locations
          (λ l h. ground (arith, h, other, ==_iff l.book_id j, ==_iff l.book_id id, ==_iff j id));
  }
  delete_other false j d other = record {
    book = other_book j id d.books (ground (arith, other, ==_iff j id, ==_iff id j));
    book_seen_kept =
        exists-delete_other (book_has_id j) (book_seen seen id) d.books
          (λ b h. ground (arith, h, other, ==_iff b.id j, ==_iff b.id id, ==_iff j id));
    location = refl;
    location_seen_kept = refl;
  }

  -- The file that another book takes over is none of this book's locations.
  taken_apart :
      (j : ℕ) (l : LocationRow) (d : Index)
      → IsSound d
      → (j == id) ≡ false
      → promoted seen (locations_of j d) ≡ some l
      → exists (λ w. location_of id w && location_at l.library_root l.file_path w) d.book_locations
        ≡ false
  taken_apart j l d v other found =
      exists_implied (λ w. location_at l.library_root l.file_path w && not (location_of j w)) _
        d.book_locations
        (λ w h. ground (arith, h, ==_iff w.book_id id, ==_iff w.book_id j, ==_iff j id, other))
        (elim (Bool-cases (
          exists (λ w. location_at l.library_root l.file_path w && not (location_of j w))
            d.book_locations)) [
              | inr apart ↦ apart
              | inl twice ↦ absurd (
                  omega (
                    arith,
                    v.files_unique l.library_root l.file_path,
                    exists_count
                        (λ w. location_at l.library_root l.file_path w && not (location_of j w))
                        d.book_locations twice,
                    promoted_itself seen j d l found,
                    count_split (location_at l.library_root l.file_path) (location_of j)
                        d.book_locations,
                  ))
            ])

  remove_other :
      (j : ℕ) (d : Index)
      → IsSound d
      → (j == id) ≡ false
      → Same d (remove_canonical_file foreign_keys now seen j d)
  unfolding remove_canonical_file promote
  remove_other j d v other = elim (Option-cases (promoted seen (locations_of j d))) [
    | inl bare ↦ rw (remove_canonical_file, bare) (delete_other foreign_keys j d other)
    | inr (l, found) ↦
        rw (remove_canonical_file, found)
          (record {
            book =
                exists-update_keeps (book_has_id j) (book_has_id id) (promote_to now l) d.books
                  (λ b. refl);
            book_seen_kept =
                exists-update_apart (book_has_id j) (book_seen seen id) (promote_to now l) d.books
                  (λ b h. ground (arith, h, other, ==_iff b.id j, ==_iff b.id id, ==_iff j id));
            location =
                exists-delete_apart (location_of id) (location_at l.library_root l.file_path)
                  d.book_locations (taken_apart j l d v other found);
            location_seen_kept =
                exists-delete_apart (location_seen seen id) (location_at l.library_root l.file_path)
                  d.book_locations
                  (exists_implied
                    (λ w. location_of id w && location_at l.library_root l.file_path w) _
                    d.book_locations (λ w. ground arith) (taken_apart j l d v other found));
          })
  ]

  remove_self :
      (d : Index)
      → IsSound d
      → exists (book_has_id id) d.books ≡ true
      → Settled d (remove_canonical_file foreign_keys now seen id d)
  unfolding remove_canonical_file delete_book promote
  remove_self d v there = elim (Option-cases (promoted seen (locations_of id d))) [
    | inl bare ↦
        rw (remove_canonical_file, bare)
          (record {
            book = exists-delete (book_has_id id) d.books ∙ sym (promoted_absent seen id d bare);
            book_seen_after =
                exists_implied (book_has_id id) (book_seen seen id)
                  (delete (book_has_id id) d.books) (λ b. and_left _ _)
                  (exists-delete (book_has_id id) d.books)
                ∙ sym (
                    exists_implied (location_of id) (location_seen seen id) d.book_locations
                      (λ l. and_left _ _) (promoted_absent seen id d bare));
          })
    | inr (l, found) ↦ elim (Option-cases (find? (book_has_id id) d.books)) [
      | inl no_book ↦ absurd (ground (arith, there, find?-exists (book_has_id id) d.books no_book))
      | inr (b, b_found) ↦
          rw (remove_canonical_file, found)
            (record {
              book =
                  exists-update_keeps (book_has_id id) (book_has_id id) (promote_to now l) d.books
                    (λ w. refl)
                  ∙ there
                  ∙ sym (promoted_owned seen id d l found);
              book_seen_after =
                  exists_one (book_has_id id) (λ w. seen w.library_root w.file_path)
                    (update (book_has_id id) (promote_to now l) d.books) (promote_to now l b)
                    (find?-update_found (book_has_id id) (book_has_id id) (promote_to now l) d.books
                      b b_found (find?_holds (book_has_id id) d.books b b_found) (λ w. refl))
                    (rw
                      (count-update_keeps (book_has_id id) (book_has_id id) (promote_to now l)
                        d.books (λ w. refl))
                      (v.ids_unique id))
                  ∙ promoted-seen seen (locations_of id d) l found
                  ∙ seen_of_locations d;
            })
    ]
  ]
