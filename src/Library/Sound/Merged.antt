-- ===== src/Library/Sound/Merged.antt =====
-- Merging books keeps the invariant, and which books a merge names.
use my_eink_library.Common.{
  ◌==◌, ==_iff, Bool-cases, Option-cases, Result-cases, Result, ok, err, exists_of_found,
  exists-update_safe, find?, count, exists, update, delete, count-append, exists-append,
  find?_holds, count-update_keeps, count-delete-le, count-delete_one, count-find?, exists_count,
  Text, text_eq_refl, is_empty, ℕ, ◌≤◌, ◌≡◌, refl, inl, inr, Bool, true, false, some, List, [], ◌∷◌,
  ◌++◌, arith,
}
use my_eink_library.Library.Merge.{
  pick_canonical, wins, add_location, canonical_location, merge_books, merge_groups,
  consolidate_duplicate_titles, merge_duplicate_isbn, WorkRow, isbn_of, move_placements, same_key,
  merge_rows, work_rows, shares_isbn,
}
use my_eink_library.Library.{
  Index, IndexError, BookRow, book_has_id, no_such_row, location_at, location_of, book_at,
  enrichment_of,
}
use my_eink_library.Library.Sound.{IsSound, file_count, orphan, other_book, others-IsSound}

-- Where PickCanonical finds both rows, it names the two.
pub data Picks (id_a id_b : ℕ) (d : Index) : Result IndexError (ℕ × ℕ) → Type 0 where
  first_kept :
      exists (book_has_id id_a) d.books ≡ true
      → exists (book_has_id id_b) d.books ≡ true
      → Picks id_a id_b d (ok (id_a, id_b))
  second_kept :
      exists (book_has_id id_a) d.books ≡ true
      → exists (book_has_id id_b) d.books ≡ true
      → Picks id_a id_b d (ok (id_b, id_a))
  not_there : Picks id_a id_b d (err no_such_row)

id_found :
    (id : ℕ) (d : Index) (b : BookRow)
    → find? (book_has_id id) d.books ≡ some b
    → (b.id ≡ id) × (exists (book_has_id id) d.books ≡ true)
id_found id d b found = (
  (==_iff b.id id).0 (find?_holds (book_has_id id) d.books b found),
  exists_of_found (book_has_id id) (book_has_id id) d.books b found
      (find?_holds (book_has_id id) d.books b found),
)

pub pick_canonical-Picks :
    (roots : List Text) (id_a id_b : ℕ) (d : Index)
    → Picks id_a id_b d (pick_canonical roots id_a id_b d)
unfolding pick_canonical
pick_canonical-Picks roots id_a id_b d = elim (Option-cases (find? (book_has_id id_a) d.books)) [
  | inl no_a ↦ rw (pick_canonical, no_a) not_there
  | inr (a, a_found) ↦ elim (Option-cases (find? (book_has_id id_b) d.books)) [
    | inl no_b ↦ rw (pick_canonical, a_found, no_b) not_there
    | inr (b, b_found) ↦ elim (Bool-cases (wins roots a b)) [
      | inl a_wins ↦
          rw
            (
              pick_canonical,
              a_found,
              b_found,
              a_wins,
              (id_found id_a d a a_found).0,
              (id_found id_b d b b_found).0,
            )
            (first_kept (id_found id_a d a a_found).1 (id_found id_b d b b_found).1)
      | inr b_wins ↦
          rw
            (
              pick_canonical,
              a_found,
              b_found,
              b_wins,
              (id_found id_a d a a_found).0,
              (id_found id_b d b b_found).0,
            )
            (second_kept (id_found id_a d a a_found).1 (id_found id_b d b b_found).1)
    ]
  ]
]

kept_there :
    (id_a id_b : ℕ) (d : Index) (r : Result IndexError (ℕ × ℕ))
    → Picks id_a id_b d r
    → (keep drop : ℕ) → r ≡ ok (keep, drop)
    → exists (book_has_id keep) d.books ≡ true
kept_there id_a id_b d _ (first_kept a b) keep drop h = ground (arith, a, h)
kept_there id_a id_b d _ (second_kept a b) keep drop h = ground (arith, b, h)
kept_there id_a id_b d _ not_there keep drop h = absurd (ground (arith, h))

module _ (foreign_keys : Bool) (now keep drop : ℕ) (d : Index) (b : BookRow) (v : IsSound d)
    (differ : (keep == drop) ≡ false) (found : find? (book_has_id drop) d.books ≡ some b) where
  -- The dropped book's file stands in no other row.
  file_free : exists (location_at b.library_root b.file_path) d.book_locations ≡ false
  file_free = elim (Bool-cases (exists (location_at b.library_root b.file_path) d.book_locations)) [
    | inr free ↦ free
    | inl taken ↦ absurd (
        omega (
          arith,
          v.files_unique b.library_root b.file_path,
          exists_count (location_at b.library_root b.file_path) d.book_locations taken,
          count-find? (book_at b.library_root b.file_path) (book_has_id drop) d.books b found
              (ground (arith, text_eq_refl b.library_root, text_eq_refl b.file_path)),
        ))
  ]

  pub moved_locations :
      add_location (canonical_location now keep b) d.book_locations
      ≡ d.book_locations ++ canonical_location now keep b ∷ []
  unfolding add_location
  moved_locations = rw file_free

  merged_books : Index
  merged_books = record d {
    books = delete (book_has_id drop) d.books;
    book_locations =
        update (location_of drop) (λ l. record l { book_id = keep })
          (add_location (canonical_location now keep b) d.book_locations);
  }

  merged_files : (root path : Text) → file_count root path merged_books ≤ 1
  unfolding merged_books count
  merged_files root path =
      rw
        (
          moved_locations,
          count-update_keeps (location_of drop) (location_at root path)
              (λ l. record l { book_id = keep })
              (d.book_locations ++ canonical_location now keep b ∷ []) (λ l. refl),
          count-append (location_at root path) d.book_locations,
        )
        (ground (
          arith,
          v.files_unique root path,
          count-delete_one (book_has_id drop) (book_at root path) d.books b found
              (v.ids_unique drop),
        ))

  merged_owned :
      exists (book_has_id keep) d.books ≡ true
      → exists (orphan merged_books.books) merged_books.book_locations ≡ false
  unfolding merged_books exists
  merged_owned kept = rw moved_locations (
      exists-update_safe (orphan merged_books.books) (location_of drop) (orphan d.books)
        (λ l. record l { book_id = keep }) (d.book_locations ++ canonical_location now keep b ∷ [])
        (λ l h. ground (arith, kept, other_book drop keep d.books differ))
        (λ l other h. ground (arith, h, other_book drop l.book_id d.books other))
        (rw (exists-append (orphan d.books) d.book_locations)
          (ground (arith, kept, v.locations_owned))))

  merged-IsSound : exists (book_has_id keep) d.books ≡ true → IsSound merged_books
  unfolding merged_books
  merged-IsSound kept = record {
    ids_unique = λ i.
        omega (arith, v.ids_unique i, count-delete-le (book_has_id drop) (book_has_id i) d.books);
    ids_below = λ i h.
        omega (arith, v.ids_below i h, count-delete-le (book_has_id drop) (book_has_id i) d.books);
    files_unique = merged_files;
    locations_owned = merged_owned kept;
  }

pub merge_books-IsSound :
    (foreign_keys : Bool) (now keep drop : ℕ) (d : Index)
    → exists (book_has_id keep) d.books ≡ true
    → IsSound d
    → IsSound (merge_books foreign_keys now keep drop d)
unfolding merge_books merged_books
merge_books-IsSound foreign_keys now keep drop d kept v = elim (Bool-cases (keep == drop)) [
  | inl same ↦ rw (merge_books, same) v
  | inr differ ↦ elim (Option-cases (find? (book_has_id drop) d.books)) [
    | inl missing ↦ rw (merge_books, differ, missing) v
    | inr (b, found) ↦
        rw (merge_books, differ, found)
          (others-IsSound _ (move_placements keep drop d.shelf_books)
            (merged_books foreign_keys now keep drop d b v differ found)
            (merged-IsSound foreign_keys now keep drop d b v differ found kept))
  ]
]

pub pick_there :
    (roots : List Text) (id_a id_b : ℕ) (d : Index) (keep drop : ℕ)
    → pick_canonical roots id_a id_b d ≡ ok (keep, drop)
    → exists (book_has_id keep) d.books ≡ true
pick_there roots id_a id_b d keep drop h =
    kept_there id_a id_b d _ (pick_canonical-Picks roots id_a id_b d) keep drop h

merge_groups-IsSound :
    (foreign_keys : Bool) (now : ℕ) (roots : List Text) (head : WorkRow) (keep : ℕ)
    (rows : List WorkRow) (d : Index)
    → IsSound d
    → IsSound (merge_groups foreign_keys now roots head keep rows d).1
unfolding merge_groups
merge_groups-IsSound foreign_keys now roots head keep [] d v = v
merge_groups-IsSound foreign_keys now roots head keep (r ∷ rows) d v =
    elim (Bool-cases (same_key head r)) [
      | inr other ↦
          rw (merge_groups, other) (merge_groups-IsSound foreign_keys now roots r r.id rows d v)
      | inl same ↦ elim (Result-cases (pick_canonical roots keep r.id d)) [
        | inl (e, failed) ↦ rw (merge_groups, same, failed) v
        | inr ((kept, dropped), picked) ↦
            rw (merge_groups, same, picked)
              (merge_groups-IsSound foreign_keys now roots head kept rows
                (merge_books foreign_keys now kept dropped d)
                (merge_books-IsSound foreign_keys now kept dropped d
                  (pick_there roots keep r.id d kept dropped picked) v))
      ]
    ]

pub consolidate_duplicate_titles-IsSound :
    (foreign_keys : Bool) (now : ℕ) (roots : List Text) (d : Index)
    → IsSound d
    → IsSound (consolidate_duplicate_titles foreign_keys now roots d).1
unfolding consolidate_duplicate_titles
consolidate_duplicate_titles-IsSound foreign_keys now roots d v = by_rows (work_rows d)
  where
    by_rows : (rows : List WorkRow) → IsSound (merge_rows foreign_keys now roots rows d).1
    by_rows [] = v
    by_rows (r ∷ rows) = merge_groups-IsSound foreign_keys now roots r r.id rows d v

pub merge_duplicate_isbn-IsSound :
    (foreign_keys : Bool) (now : ℕ) (roots : List Text) (id : ℕ) (d : Index)
    → IsSound d
    → IsSound (merge_duplicate_isbn foreign_keys now roots id d).1
unfolding merge_duplicate_isbn
merge_duplicate_isbn-IsSound foreign_keys now roots id d v =
    let isbn = isbn_of (find? (enrichment_of id) d.book_enrichment) in
    elim (Bool-cases (is_empty isbn)) [
      | inl blank ↦ rw (merge_duplicate_isbn, blank) v
      | inr given ↦ elim (Option-cases (find? (shares_isbn isbn id) d.book_enrichment)) [
        | inl none_other ↦ rw (merge_duplicate_isbn, given, none_other) v
        | inr (e, found) ↦ elim (Result-cases (pick_canonical roots id e.book_id d)) [
          | inl (x, failed) ↦ rw (merge_duplicate_isbn, given, found, failed) v
          | inr ((keep, drop), picked) ↦
              rw (merge_duplicate_isbn, given, found, picked)
                (merge_books-IsSound foreign_keys now keep drop d
                  (pick_there roots id e.book_id d keep drop picked) v)
        ]
      ]
    ]
