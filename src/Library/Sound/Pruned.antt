-- ===== src/Library/Sound/Pruned.antt =====
-- Files that are gone: removing them keeps the invariant.
use my_eink_library.Common.{
  ==_iff, Bool-cases, Option-cases, and_left, exists_of_found, find?, count, exists, select,
  find?-exists, count-sort_by, count-select, count_of_not_exists, count_implied, exists_implied,
  exists_count, count_exists, exists_none, Text, text_eq_refl, ℕ, ◌≤◌, ◌≡◌, refl, ap, ◌∙◌, inl, inr,
  Bool, true, false, not, ◌&&◌, none, some, List, [], ◌∷◌, arith,
}
use my_eink_library.Library.Prune.{
  remove_canonical_file, promoted, locations_of, Seen, by_added, remove_all, prune_missing,
  delete_by_path, delete_stale_locations, location_unseen, stale_books,
}
use my_eink_library.Library.{Index, LocationRow, location_of, book_has_id, location_at, book_at}
use my_eink_library.Library.Sound.{
  IsSound, delete_book-IsSound, promote-IsSound, orphan, thin-IsSound,
}

-- What the first of the locations, or a seen one, is: one of them.
promoted_in :
    (seen : Seen) (locs : List LocationRow) (l : LocationRow) (q : LocationRow → Bool)
    → promoted seen locs ≡ some l
    → q l ≡ true
    → 1 ≤ count q locs
unfolding promoted count
promoted_in seen [] l q h k = absurd (unfold find? in ground arith)
promoted_in seen (w ∷ locs) l q h k =
    elim (Option-cases (find? (λ m. seen m.library_root m.file_path) (w ∷ locs))) [
      | inl missing ↦ ground (arith, h, missing, k)
      | inr (m, found) ↦ exists_count q (w ∷ locs) (
          exists_of_found (λ m. seen m.library_root m.file_path) q (w ∷ locs) m found
            (ground (arith, h, found, k)))
    ]

promoted-none : (seen : Seen) (locs : List LocationRow) → promoted seen locs ≡ none → locs ≡ []
unfolding promoted
promoted-none seen [] h = refl
promoted-none seen (w ∷ locs) h = ground (arith, h)

pub count-locations_of :
    (id : ℕ) (d : Index) (q : LocationRow → Bool)
    → count q (locations_of id d) ≡ count (λ l. q l && location_of id l) d.book_locations
unfolding locations_of
count-locations_of id d q =
    count-sort_by by_added q (select (location_of id) d.book_locations)
    ∙ count-select q (location_of id) d.book_locations

-- The location that is promoted is one of the book's.
pub promoted_there :
    (seen : Seen) (id : ℕ) (d : Index) (l : LocationRow)
    → promoted seen (locations_of id d) ≡ some l
    → (location_of id l ≡ true)
      × (exists (location_at l.library_root l.file_path) d.book_locations ≡ true)
promoted_there seen id d l h = (
  its,
  count_exists (location_at l.library_root l.file_path) d.book_locations (
      omega (
        arith,
        promoted_in seen (locations_of id d) l (location_at l.library_root l.file_path) h
            (ground (arith, text_eq_refl l.library_root, text_eq_refl l.file_path)),
        count-locations_of id d (location_at l.library_root l.file_path),
        count_implied (location_at l.library_root l.file_path)
            (λ w. location_at l.library_root l.file_path w && location_of id w) d.book_locations
            (λ w. and_left _ _),
      )),
)
  where
    its : location_of id l ≡ true
    its = elim (Bool-cases (location_of id l)) [
      | inl yes_its ↦ yes_its
      | inr other ↦ absurd (
          omega (
            arith,
            promoted_in seen (locations_of id d) l (λ w. not (location_of id w)) h
                (ground (arith, other)),
            count-locations_of id d (λ w. not (location_of id w)),
            count_of_not_exists (λ w. not (location_of id w) && location_of id w) d.book_locations
                (exists_none (λ w. not (location_of id w) && location_of id w) d.book_locations
                  (λ w. ground arith)),
          ))
    ]

pub promoted_owned :
    (seen : Seen) (id : ℕ) (d : Index) (l : LocationRow)
    → promoted seen (locations_of id d) ≡ some l
    → exists (location_of id) d.book_locations ≡ true
promoted_owned seen id d l h = count_exists (location_of id) d.book_locations (
    omega (
      arith,
      promoted_in seen (locations_of id d) l (location_of id) h (promoted_there seen id d l h).0,
      count-locations_of id d (location_of id),
      count_implied (location_of id) (λ w. location_of id w && location_of id w) d.book_locations
          (λ w. and_left _ _),
    ))

-- Among the locations with its file there is the promoted one, of the book.
pub promoted_itself :
    (seen : Seen) (id : ℕ) (d : Index) (l : LocationRow)
    → promoted seen (locations_of id d) ≡ some l
    → 1 ≤ count (λ w. location_at l.library_root l.file_path w && location_of id w) d.book_locations
promoted_itself seen id d l h = omega (
  arith,
  promoted_in seen (locations_of id d) l (location_at l.library_root l.file_path) h
      (ground (arith, text_eq_refl l.library_root, text_eq_refl l.file_path)),
  count-locations_of id d (location_at l.library_root l.file_path),
)

pub promoted_absent :
    (seen : Seen) (id : ℕ) (d : Index)
    → promoted seen (locations_of id d) ≡ none
    → exists (location_of id) d.book_locations ≡ false
unfolding count
promoted_absent seen id d h = elim (Bool-cases (exists (location_of id) d.book_locations)) [
  | inr gone ↦ gone
  | inl there ↦ absurd (
      omega (
        arith,
        exists_count (location_of id) d.book_locations there,
        count-locations_of id d (location_of id),
        ap (count (location_of id)) (promoted-none seen (locations_of id d) h),
        count_implied (λ w. location_of id w && location_of id w) (location_of id) d.book_locations
            (λ w. ground arith),
      ))
]

-- A book that has a location is there.
pub owner_there :
    (id : ℕ) (d : Index)
    → IsSound d
    → exists (location_of id) d.book_locations ≡ true
    → exists (book_has_id id) d.books ≡ true
owner_there id d v has = elim (Bool-cases (exists (book_has_id id) d.books)) [
  | inl there ↦ there
  | inr missing ↦ ground (
    arith,
    has,
    exists_implied (orphan d.books) (location_of id) d.book_locations
        (λ l h.
          ground
            (arith, missing, ap (λ i. exists (book_has_id i) d.books) ((==_iff l.book_id id).0 h)))
        v.locations_owned,
  )
]

pub remove_canonical_file-IsSound :
    (foreign_keys : Bool) (now : ℕ) (seen : Seen) (id : ℕ) (d : Index)
    → IsSound d
    → IsSound (remove_canonical_file foreign_keys now seen id d)
unfolding remove_canonical_file
remove_canonical_file-IsSound foreign_keys now seen id d v =
    elim (Option-cases (promoted seen (locations_of id d))) [
      | inl missing ↦
          rw (remove_canonical_file, missing)
            (delete_book-IsSound foreign_keys id d (promoted_absent seen id d missing) v)
      | inr (l, found) ↦ elim (Option-cases (find? (book_has_id id) d.books)) [
        | inl no_book ↦ absurd (
            ground (
              arith,
              find?-exists (book_has_id id) d.books no_book,
              owner_there id d v (promoted_owned seen id d l found),
            ))
        | inr (b, b_found) ↦
            rw (remove_canonical_file, found)
              (promote-IsSound now id l b d b_found (promoted_there seen id d l found).1 v)
      ]
    ]

pub remove_all-IsSound :
    (foreign_keys : Bool) (now : ℕ) (seen : Seen) (ids : List ℕ) (d : Index)
    → IsSound d
    → IsSound (remove_all foreign_keys now seen ids d)
unfolding remove_all
remove_all-IsSound foreign_keys now seen [] d v = v
remove_all-IsSound foreign_keys now seen (id ∷ ids) d v =
    remove_all-IsSound foreign_keys now seen ids (remove_canonical_file foreign_keys now seen id d)
      (remove_canonical_file-IsSound foreign_keys now seen id d v)

pub prune_missing-IsSound :
    (foreign_keys : Bool) (now : ℕ) (seen : Seen) (d : Index)
    → IsSound d
    → IsSound (prune_missing foreign_keys now seen d)
unfolding prune_missing delete_stale_locations
prune_missing-IsSound foreign_keys now seen d v =
    thin-IsSound (location_unseen seen) (remove_all foreign_keys now seen (stale_books seen d) d)
      (remove_all-IsSound foreign_keys now seen (stale_books seen d) d v)

pub delete_by_path-IsSound :
    (foreign_keys : Bool) (now : ℕ) (root rel_path : Text) (d : Index)
    → IsSound d
    → IsSound (delete_by_path foreign_keys now root rel_path d)
unfolding delete_by_path
delete_by_path-IsSound foreign_keys now root rel_path d v =
    elim (Option-cases (find? (book_at root rel_path) d.books)) [
      | inl missing ↦ rw (delete_by_path, missing) (thin-IsSound (location_at root rel_path) d v)
      | inr (b, found) ↦
          rw (delete_by_path, found)
            (remove_canonical_file-IsSound foreign_keys now (λ r p. false) b.id d v)
    ]
