-- ===== src/Library/Sound/Scanned.antt =====
-- Taking over files keeps the invariant, and so does a whole scan.
use my_eink_library.Common.{
  ==_iff, ==_refl, Bool-cases, Option-cases, indicator, Result-cases, and_left, Result, ok, err,
  exists_of_found, find?, exists, update, find?_holds, find?-exists, count-update_keeps,
  count-update_one, find?_unique, exists-update_keeps, Text, text_eq_iff, ℕ, ◌≡◌, refl, ap, ◌∙◌,
  inl, inr, Bool, true, false, Option, none, some, List, [], ◌∷◌, arith,
}
use my_eink_library.Library.Files.{
  insert_file, find_book_by_title_author, upsert_if_changed, CoverSaver, fill_book, insert_location,
  FileState, put_cover, Metadata, insert_book, copy_of, same_work, cover_of, unchanged, saved_cover,
  blank_book, cover_column,
}
use my_eink_library.Library.{
  BookRow, Index, book_has_id, book_at, location_at, set_book, LocationRow,
}
use my_eink_library.Library.Scan.{
  scan_root, scan, scan_roots, scan_entry, Entry, Walk, visited, seen_by,
}
use my_eink_library.Library.Sound.{
  IsSound, update-IsSound, locations-IsSound, append_location-IsSound, orphan, insert-IsSound,
}
use my_eink_library.Library.Sound.Merged.{consolidate_duplicate_titles-IsSound}
use my_eink_library.Library.Sound.Pruned.{prune_missing-IsSound}

-- The columns of a book that other rows refer to.
pub record SameKeys (root : Text) (b c : BookRow) : Type 0 where
  pub id : c.id ≡ b.id
  pub library_root : c.library_root ≡ root
  pub file_path : c.file_path ≡ b.file_path

fill_book-SameKeys :
    (beyond : ℕ → ℕ) (now : ℕ) (root rel_path : Text) (file : FileState) (cover : Option Text)
    (b : BookRow)
    → SameKeys root b (fill_book beyond now root rel_path file cover b)
unfolding fill_book
fill_book-SameKeys beyond now root rel_path file cover b = elim (Result-cases file.parsed) [
  | inl (e, failed) ↦
      rw (failed, fill_book) (record { id = refl; library_root = refl; file_path = refl })
  | inr (meta, read) ↦
      rw (read, fill_book) (record { id = refl; library_root = refl; file_path = refl })
]

put_cover-SameKeys :
    (cover : Option Text) (b : BookRow) → SameKeys b.library_root b (put_cover cover b)
put_cover-SameKeys none b = record { id = refl; library_root = refl; file_path = refl }
put_cover-SameKeys (some p) b = elim (Bool-cases b.has_cover) [
  | inl has ↦ rw has (record { id = refl; library_root = refl; file_path = refl })
  | inr bare ↦ rw bare (record { id = refl; library_root = refl; file_path = refl })
]

refill-IsSound :
    (f : BookRow → BookRow) (root : Text) (b : BookRow) (d : Index)
    → ((c : BookRow) → SameKeys root c (f c))
    → b.library_root ≡ root
    → find? (book_has_id b.id) d.books ≡ some b
    → IsSound d
    → IsSound (set_book b.id f d)
refill-IsSound f root b d keys here found v =
    update-IsSound (book_has_id b.id) f d (λ c. (keys c).id)
      (λ r path. omega (
        arith,
        count-update_one (book_has_id b.id) (book_at r path) f d.books b found (v.ids_unique b.id),
        let same : book_at r path (f b) ≡ book_at r path b =
              rw ((keys b).library_root, (keys b).file_path, here) refl in
            ap indicator same,
      ))
      v

insert_location-IsSound :
    (now id : ℕ) (root rel_path : Text) (file : FileState) (saver : CoverSaver)
    (cover : Option Text) (d : Index)
    → exists (book_has_id id) d.books ≡ true
    → exists (book_at root rel_path) d.books ≡ false
    → exists (location_at root rel_path) d.book_locations ≡ false
    → IsSound d
    → IsSound (insert_location now id root rel_path file saver cover d)
unfolding insert_location
insert_location-IsSound now id root rel_path file saver cover d there no_book no_location v =
    update-IsSound (book_has_id id) (put_cover (saved_cover saver id cover)) _
      (λ c. (put_cover-SameKeys _ c).id)
      (λ r path.
        count-update_keeps (book_has_id id) (book_at r path)
          (put_cover (saved_cover saver id cover)) d.books
          (λ c.
            rw
              (
                (put_cover-SameKeys (saved_cover saver id cover) c).library_root,
                (put_cover-SameKeys (saved_cover saver id cover) c).file_path,
              )
              refl))
      (append_location-IsSound _ d there no_book no_location v)

copy_there :
    (parsed : Result Text Metadata) (id : ℕ) (d : Index)
    → copy_of parsed d ≡ some id
    → exists (book_has_id id) d.books ≡ true
unfolding find_book_by_title_author
copy_there (err e) id d h = cc
copy_there (ok meta) id d h =
    elim (Option-cases (find? (same_work meta.title meta.author) d.books)) [
      | inl missing ↦ absurd (ground (arith, h, missing))
      | inr (b, found) ↦
          exists_of_found (same_work meta.title meta.author) (book_has_id id) d.books b found
            (ground (arith, h, found, ==_iff b.id id))
    ]

insert_file-IsSound :
    (beyond : ℕ → ℕ) (now : ℕ) (root rel_path : Text) (file : FileState) (saver : CoverSaver)
    (d : Index)
    → exists (book_at root rel_path) d.books ≡ false
    → exists (location_at root rel_path) d.book_locations ≡ false
    → IsSound d
    → IsSound (insert_file beyond now root rel_path file saver d)
unfolding insert_file insert_book
insert_file-IsSound beyond now root rel_path file saver d no_book no_location v =
    elim (Option-cases (copy_of file.parsed d)) [
      | inr (id, copy) ↦
          rw (insert_file, copy)
            (insert_location-IsSound now id root rel_path file saver (cover_of file.parsed) d
              (copy_there file.parsed id d copy) no_book no_location v)
      | inl new ↦
          rw (insert_file, new)
            (let keys =
                fill_book-SameKeys beyond now root rel_path file
                  (saved_cover saver d.next_id (cover_of file.parsed))
                  (blank_book d.next_id root rel_path now) in
              insert-IsSound _ d keys.id (rw (keys.library_root, keys.file_path) no_book)
                (rw (keys.library_root, keys.file_path) no_location) v)
    ]

book_found :
    (root rel_path : Text) (b : BookRow) (d : Index)
    → IsSound d
    → find? (book_at root rel_path) d.books ≡ some b
    → (b.library_root ≡ root) × (find? (book_has_id b.id) d.books ≡ some b)
book_found root rel_path b d v found = (
  (text_eq_iff b.library_root root).0
      (and_left _ _ (find?_holds (book_at root rel_path) d.books b found)),
  find?_unique (book_has_id b.id) (book_at root rel_path) d.books b found (==_refl b.id)
      (v.ids_unique b.id),
)

abbrev restat : FileState → LocationRow → LocationRow
restat file k = record k { file_size = file.size; file_mtime = file.mtime }

restat-IsSound :
    (root rel_path : Text) (file : FileState) (d : Index)
    → IsSound d
    → IsSound (record d {
      book_locations = update (location_at root rel_path) (restat file) d.book_locations;
    })
restat-IsSound root rel_path file d v =
    locations-IsSound _ d
      (λ r path.
        rw
          (count-update_keeps (location_at root rel_path) (location_at r path) (restat file)
            d.book_locations (λ k. refl))
          (v.files_unique r path))
      (exists-update_keeps (location_at root rel_path) (orphan d.books) (restat file)
          d.book_locations (λ k. refl)
        ∙ v.locations_owned)
      v

pub upsert_if_changed-IsSound :
    (beyond : ℕ → ℕ) (now : ℕ) (root rel_path : Text) (file : FileState) (saver : CoverSaver)
    (force : Bool) (d : Index)
    → IsSound d
    → IsSound (upsert_if_changed beyond now root rel_path file saver force d)
unfolding upsert_if_changed
upsert_if_changed-IsSound beyond now root rel_path file saver force d v =
    elim (Option-cases (find? (location_at root rel_path) d.book_locations)) [
      | inr (l, l_found) ↦ elim (Bool-cases (unchanged force file l.file_size l.file_mtime)) [
        | inl same ↦ rw (upsert_if_changed, l_found, same) v
        | inr changed ↦
            rw (upsert_if_changed, l_found, changed) (restat-IsSound root rel_path file d v)
      ]
      | inl no_location ↦ elim (Option-cases (find? (book_at root rel_path) d.books)) [
        | inl no_book ↦
            rw (upsert_if_changed, no_location, no_book)
              (insert_file-IsSound beyond now root rel_path file saver d
                (find?-exists (book_at root rel_path) d.books no_book)
                (find?-exists (location_at root rel_path) d.book_locations no_location) v)
        | inr (b, found) ↦ elim (Bool-cases (unchanged force file b.file_size b.file_mtime)) [
          | inl same ↦ rw (upsert_if_changed, no_location, found, same) v
          | inr changed ↦
              rw (upsert_if_changed, no_location, found, changed)
                (refill-IsSound
                  (fill_book beyond now root rel_path file
                    (cover_column (saved_cover saver b.id (cover_of file.parsed))))
                  root b d
                  (fill_book-SameKeys beyond now root rel_path file
                    (cover_column (saved_cover saver b.id (cover_of file.parsed))))
                  (book_found root rel_path b d v found).0 (book_found root rel_path b d v found).1
                  v)
        ]
      ]
    ]

module _ (beyond : ℕ → ℕ) (saver : CoverSaver) (force : Bool) (foreign_keys : Bool) (now : ℕ) where
  scan_entry-IsSound :
      (root : Text) (e : Entry) (d : Index)
      → IsSound d
      → IsSound (scan_entry beyond saver force foreign_keys now root e d)
  unfolding scan_entry
  scan_entry-IsSound root e d v = elim (Bool-cases (visited e)) [
    | inr skipped ↦ rw (scan_entry, skipped) v
    | inl taken ↦ elim (Option-cases e.info) [
      | inl no_stat ↦ rw (scan_entry, taken, no_stat) v
      | inr (file, stat) ↦
          rw (scan_entry, taken, stat)
            (upsert_if_changed-IsSound beyond now root e.rel_path file saver force d v)
    ]
  ]

  scan_root-IsSound :
      (root : Text) (entries : List Entry) (d : Index)
      → IsSound d
      → IsSound (scan_root beyond saver force foreign_keys now root entries d)
  unfolding scan_root
  scan_root-IsSound root [] d v = v
  scan_root-IsSound root (e ∷ entries) d v =
      scan_root-IsSound root entries (scan_entry beyond saver force foreign_keys now root e d)
        (scan_entry-IsSound root e d v)

  scan_roots-IsSound :
      (walks : List Walk) (d : Index)
      → IsSound d
      → IsSound (scan_roots beyond saver force foreign_keys now walks d)
  unfolding scan_roots
  scan_roots-IsSound [] d v = v
  scan_roots-IsSound ((root, entries) ∷ walks) d v =
      scan_roots-IsSound walks (scan_root beyond saver force foreign_keys now root entries d)
        (scan_root-IsSound root entries d v)

  pub scan-IsSound :
      (walks : List Walk) (d : Index)
      → IsSound d
      → IsSound (scan beyond saver force foreign_keys now walks d).1
  unfolding scan
  scan-IsSound walks d v =
      consolidate_duplicate_titles-IsSound foreign_keys now _ _
        (prune_missing-IsSound foreign_keys now (seen_by walks) _ (scan_roots-IsSound walks d v))
