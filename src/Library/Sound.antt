-- ===== src/Library/Sound.antt =====
-- The invariant of the tables of the index, and how their statements keep it.
pub mod Pruned
pub mod Merged
pub mod Scanned
use my_eink_library.Common.{
  ltb, leb, ◌==◌, if◌then◌else◌, ltb→lt, lt→ltb, leb→le, ==_iff, ==_refl, Bool-cases, Option-cases,
  indicator, is_some, Result-cases, and_left, and_right, Result, ok, err, exists_either,
  exists_of_found, exists-delete_none, exists-update_safe, exists-delete_apart, exists_one,
  exists_counted, exists-update_apart, counted_one, exists_all, count_cong, find?, count, exists,
  select, update, delete, count-append, exists-append, exists-delete, find?_holds, find?-append,
  find?-append_none, find?-exists, exists-find?, update_absent, delete_absent, count-update_keeps,
  count-delete-le, length, take, length-append, length-take-le, All, All-append, All-map, insert_by,
  sort_by, count-sort_by, count-select, find?_absent, count_of_none, count_of_some,
  count_of_not_exists, count_implied, count-update_none, count-delete_none, count-update_one,
  count-delete_one, count_split, count-find?, find?_unique, count-and_one, count-update_lowers,
  count-update_raises, exists_implied, find?-update_found, exists_count, count_exists,
  length-delete, exists-delete_other, exists-update_keeps, exists_cong, exists_thinned,
  exists-delete_kept, exists_none, Text, codes, text_eq, text_eq_refl, text_eq_iff, is_empty,
  is_space, trim_left, trim_space, rune_len, byte_len, ascii_lower, lower_ascii, to_lower, ℕ, zero,
  suc, ◌+◌, ◌-◌, ◌*◌, ◌/◌, ◌%◌, ◌^◌, ◌≤◌, ◌<◌, ◌≡◌, refl, sym, ap, ◌∙◌, ◌≢◌, ◌↔◌, ◌⊎◌, inl, inr,
  Bool, true, false, not, ◌&&◌, ◌||◌, Option, none, some, reverse, List, [], ◌∷◌, ◌++◌, map,
  append-nil, append_assoc, arith,
}
use my_eink_library.Library.{
  Index, LocationRow, EnrichmentRow, BookRow, book_has_id, book_at, location_at, ShelfBook,
  location_of, enrichment_of,
}
use my_eink_library.Library.Prune.{delete_book, promote, promote_to}

abbrev pub orphan : List BookRow → LocationRow → Bool
orphan books l = not (exists (book_has_id l.book_id) books)

-- How often a file is in the index, as the canonical one of a book or as another location.
abbrev pub file_count : Text → Text → Index → ℕ
file_count root path d =
    count (book_at root path) d.books + count (location_at root path) d.book_locations

-- Ids are unique and were given by AUTOINCREMENT, a file stands in at most one row of both tables, and
-- every location is one of a book that is there.
pub record IsSound (d : Index) : Type 0 where
  pub ids_unique : (id : ℕ) → count (book_has_id id) d.books ≤ 1
  pub ids_below : (id : ℕ) → d.next_id ≤ id → count (book_has_id id) d.books ≡ 0
  pub files_unique : (root path : Text) → file_count root path d ≤ 1
  pub locations_owned : exists (orphan d.books) d.book_locations ≡ false

-- Statements that change neither ids nor files of books.
pub update-IsSound :
    (p : BookRow → Bool) (f : BookRow → BookRow) (d : Index)
    → ((b : BookRow) → (f b).id ≡ b.id)
    → ((root path : Text)
        → count (book_at root path) (update p f d.books) ≡ count (book_at root path) d.books)
    → IsSound d
    → IsSound (record d { books = update p f d.books })
update-IsSound p f d same files v = record {
  ids_unique = λ id.
      rw (count-update_keeps p (book_has_id id) f d.books (λ b. rw (same b))) (v.ids_unique id);
  ids_below = λ id h.
      rw (count-update_keeps p (book_has_id id) f d.books (λ b. rw (same b))) (v.ids_below id h);
  files_unique = λ root path. rw (files root path) (v.files_unique root path);
  locations_owned =
      exists_cong _ (orphan d.books) d.book_locations
        (λ l. rw (exists-update_keeps p (book_has_id l.book_id) f d.books (λ b. rw (same b))))
      ∙ v.locations_owned;
}

-- A table of locations of the same files, each of a book that is there.
pub locations-IsSound :
    (rows : List LocationRow) (d : Index)
    → ((root path : Text)
        → count (book_at root path) d.books + count (location_at root path) rows ≤ 1)
    → exists (orphan d.books) rows ≡ false
    → IsSound d
    → IsSound (record d { book_locations = rows })
locations-IsSound rows d files owned v = record {
  ids_unique = v.ids_unique;
  ids_below = v.ids_below;
  files_unique = files;
  locations_owned = owned;
}

pub thin-IsSound :
    (p : LocationRow → Bool) (d : Index)
    → IsSound d
    → IsSound (record d { book_locations = delete p d.book_locations })
thin-IsSound p d v =
    locations-IsSound (delete p d.book_locations) d
      (λ root path. omega (
        arith,
        v.files_unique root path,
        count-delete-le p (location_at root path) d.book_locations,
      ))
      (exists_thinned (orphan d.books) p d.book_locations
        (exists_implied (orphan d.books) _ d.book_locations (λ l. and_left _ _) v.locations_owned))
      v

-- The table of enrichment and the shelves do not matter.
pub others-IsSound :
    (e : List EnrichmentRow) (s : List ShelfBook) (d : Index)
    → IsSound d
    → IsSound (record d { book_enrichment = e; shelf_books = s })
others-IsSound e s d v = record {
  ids_unique = v.ids_unique;
  ids_below = v.ids_below;
  files_unique = v.files_unique;
  locations_owned = v.locations_owned;
}

-- A new book with a file that is not in the index.
pub insert-IsSound :
    (b : BookRow) (d : Index)
    → b.id ≡ d.next_id
    → exists (book_at b.library_root b.file_path) d.books ≡ false
    → exists (location_at b.library_root b.file_path) d.book_locations ≡ false
    → IsSound d
    → IsSound (record d { books = d.books ++ b ∷ []; next_id = d.next_id + 1 })
unfolding count
insert-IsSound b d new no_book no_location v = record {
  ids_unique = λ id.
      rw (count-append (book_has_id id) d.books)
        (ground (arith, new, ==_iff b.id id, v.ids_unique id, v.ids_below id));
  ids_below = λ id h.
      rw (count-append (book_has_id id) d.books)
        (ground (arith, new, ==_iff b.id id, v.ids_below id));
  files_unique = λ root path. rw (count-append (book_at root path) d.books) (
      ground (
        arith,
        v.files_unique root path,
        text_eq_iff b.library_root root,
        text_eq_iff b.file_path path,
        count_of_not_exists (book_at b.library_root b.file_path) d.books no_book,
        count_of_not_exists (location_at b.library_root b.file_path) d.book_locations no_location,
      ));
  locations_owned =
      exists_implied (orphan d.books) _ d.book_locations
        (λ l. ground (arith, exists-append (book_has_id l.book_id) d.books (b ∷ [])))
        v.locations_owned;
}

-- A location of a book that is there, with a file that is not in the index.
pub append_location-IsSound :
    (l : LocationRow) (d : Index)
    → exists (book_has_id l.book_id) d.books ≡ true
    → exists (book_at l.library_root l.file_path) d.books ≡ false
    → exists (location_at l.library_root l.file_path) d.book_locations ≡ false
    → IsSound d
    → IsSound (record d { book_locations = d.book_locations ++ l ∷ [] })
unfolding count exists
append_location-IsSound l d owner no_book no_location v =
    locations-IsSound (d.book_locations ++ l ∷ []) d
      (λ root path. rw (count-append (location_at root path) d.book_locations) (
        ground (
          arith,
          v.files_unique root path,
          text_eq_iff l.library_root root,
          text_eq_iff l.file_path path,
          count_of_not_exists (book_at l.library_root l.file_path) d.books no_book,
          count_of_not_exists (location_at l.library_root l.file_path) d.book_locations no_location,
        )))
      (rw (exists-append (orphan d.books) d.book_locations)
        (ground (arith, owner, v.locations_owned)))
      v

pub other_book :
    (id i : ℕ) (books : List BookRow)
    → (i == id) ≡ false
    → exists (book_has_id i) (delete (book_has_id id) books) ≡ exists (book_has_id i) books
other_book id i books other =
    exists-delete_other (book_has_id id) (book_has_id i) books
      (λ b h. ground (arith, ==_iff b.id i, ==_iff b.id id, ==_iff i id, h, other))

-- A book row goes, of which no location is left.
pub drop_book-IsSound :
    (id : ℕ) (d : Index)
    → exists (location_of id) d.book_locations ≡ false
    → IsSound d
    → IsSound (record d { books = delete (book_has_id id) d.books })
drop_book-IsSound id d bare v = record {
  ids_unique =
      λ i. omega (arith, v.ids_unique i, count-delete-le (book_has_id id) (book_has_id i) d.books);
  ids_below = λ i h.
      omega (arith, v.ids_below i h, count-delete-le (book_has_id id) (book_has_id i) d.books);
  files_unique = λ root path. omega (
    arith,
    v.files_unique root path,
    count-delete-le (book_has_id id) (book_at root path) d.books,
  );
  locations_owned =
      exists_either (orphan d.books) (location_of id) _ d.book_locations
        (λ l h. elim (Bool-cases (l.book_id == id)) [
          | inl its ↦ ground (arith, its)
          | inr other ↦ ground (arith, h, other_book id l.book_id d.books other)
        ])
        v.locations_owned bare;
}

pub delete_book-IsSound :
    (foreign_keys : Bool) (id : ℕ) (d : Index)
    → exists (location_of id) d.book_locations ≡ false
    → IsSound d
    → IsSound (delete_book foreign_keys id d)
unfolding delete_book
delete_book-IsSound true id d bare v =
    others-IsSound (delete (enrichment_of id) d.book_enrichment) d.shelf_books
      (record d {
        books = delete (book_has_id id) d.books;
        book_locations = delete (location_of id) d.book_locations;
      })
      (thin-IsSound (location_of id) (record d { books = delete (book_has_id id) d.books })
        (drop_book-IsSound id d bare v))
delete_book-IsSound false id d bare v = drop_book-IsSound id d bare v

-- The location that a book takes over as its canonical file.
pub promote-IsSound :
    (now id : ℕ) (l : LocationRow) (b : BookRow) (d : Index)
    → find? (book_has_id id) d.books ≡ some b
    → exists (location_at l.library_root l.file_path) d.book_locations ≡ true
    → IsSound d
    → IsSound (promote now id l d)
unfolding promote
promote-IsSound now id l b d found there v =
    elim (Option-cases (find? (location_at l.library_root l.file_path) d.book_locations)) [
      | inl missing ↦ absurd (
          ground (
            arith,
            there,
            find?-exists (location_at l.library_root l.file_path) d.book_locations missing,
          ))
      | inr (k, k_found) ↦ record {
        ids_unique = λ i.
            rw
              (count-update_keeps (book_has_id id) (book_has_id i) (promote_to now l) d.books
                (λ w. refl))
              (v.ids_unique i);
        ids_below = λ i h.
            rw
              (count-update_keeps (book_has_id id) (book_has_id i) (promote_to now l) d.books
                (λ w. refl))
              (v.ids_below i h);
        files_unique = λ root path. ground (
          arith,
          v.files_unique root path,
          find?_holds (location_at l.library_root l.file_path) d.book_locations k k_found,
          text_eq_iff k.library_root l.library_root,
          text_eq_iff k.file_path l.file_path,
          count-update_one (book_has_id id) (book_at root path) (promote_to now l) d.books b found
              (v.ids_unique id),
          count-delete_one (location_at l.library_root l.file_path) (location_at root path)
              d.book_locations k k_found (omega (arith, v.files_unique l.library_root l.file_path)),
        );
        locations_owned =
            exists-delete_none _ (location_at l.library_root l.file_path) d.book_locations (
              exists_cong _ (orphan d.books) d.book_locations (λ w. rw (
                exists-update_keeps (book_has_id id) (book_has_id w.book_id) (promote_to now l)
                  d.books (λ c. refl)))
              ∙ v.locations_owned);
      }
    ]
