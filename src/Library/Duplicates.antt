-- ===== src/Library/Duplicates.antt =====
-- What a merge of two books does to the shelves, and what MergeDuplicateISBN does after a merge.
use my_eink_library.Common.{
  ◌==◌, if◌then◌else◌, ==_refl, Bool-cases, Option-cases, and_right, ok, err, find?, exists, select,
  delete, exists-append, exists-delete, find?_holds, exists-find?, exists_cong, Text, is_empty, ℕ,
  ◌≡◌, refl, sym, ap, ◌∙◌, ◌≢◌, inl, inr, Bool, true, false, not, ◌&&◌, ◌||◌, none, some, List, [],
  ◌∷◌, ◌++◌, map, arith,
}
use my_eink_library.Library.{Index, book_has_id, BookRow, enrichment_of, no_such_row, EnrichmentRow}
use my_eink_library.Library.Merge.{
  add_placements, merge_duplicate_isbn, merge_books, pick_canonical, move_placements, isbn_of,
  shares_isbn, moved_to, on_book,
}
use my_eink_library.Shelves.{ShelfBook}
use my_eink_library.Shelves.Contents.{is_placement}
use my_eink_library.Users.{email_is}
use mathlib.Core.Path.{subst}

same_placement :
    (s k : ℕ) (p x : ShelfBook)
    → is_placement s k p ≡ true
    → is_placement p.shelf_id p.book_id x ≡ is_placement s k x
same_placement s k p x h = ground (arith, h)

exists-added :
    (s k : ℕ) (p : ShelfBook) (rows : List ShelfBook)
    → exists
        (is_placement s k)
        (if exists (is_placement p.shelf_id p.book_id) rows then rows else rows ++ p ∷ [])
      ≡ (is_placement s k p || exists (is_placement s k) rows)
unfolding exists
exists-added s k p rows = elim (Bool-cases (exists (is_placement p.shelf_id p.book_id) rows)) [
  | inl there ↦ elim (Bool-cases (is_placement s k p)) [
    | inl its ↦
        rw (there, its)
          (exists_cong (is_placement s k) (is_placement p.shelf_id p.book_id) rows
              (λ x. sym (same_placement s k p x its))
            ∙ there)
    | inr other ↦ rw (there, other) refl
  ]
  | inr missing ↦ rw missing (exists-append (is_placement s k) rows (p ∷ []) ∙ ground arith)
]

exists-add_placements :
    (s k : ℕ) (ps rows : List ShelfBook)
    → exists (is_placement s k) (add_placements ps rows)
      ≡ (exists (is_placement s k) ps || exists (is_placement s k) rows)
unfolding exists add_placements
exists-add_placements s k [] rows = refl
exists-add_placements s k (p ∷ ps) rows =
    exists-add_placements s k ps
      (if exists (is_placement p.shelf_id p.book_id) rows then rows else rows ++ p ∷ [])
    ∙ ap (λ x. exists (is_placement s k) ps || x) (exists-added s k p rows)
    ∙ ground arith

exists-moved :
    (s k keep drop : ℕ) (rows : List ShelfBook)
    → exists (is_placement s k) (map (moved_to keep) (select (on_book drop) rows))
      ≡ ((keep == k) && exists (is_placement s drop) rows)
unfolding exists select
exists-moved s k keep drop [] = ground arith
exists-moved s k keep drop (p ∷ rows) = ground (arith, exists-moved s k keep drop rows)

exists-on_other :
    (s k drop : ℕ) (rows : List ShelfBook)
    → (drop == k) ≡ false
    → exists (is_placement s k) (delete (on_book drop) rows) ≡ exists (is_placement s k) rows
unfolding exists delete
exists-on_other s k drop [] other = refl
exists-on_other s k drop (p ∷ rows) other =
    ground (arith, other, exists-on_other s k drop rows other)

exists-on_dropped :
    (s drop : ℕ) (rows : List ShelfBook)
    → exists (is_placement s drop) (delete (on_book drop) rows) ≡ false
unfolding exists delete
exists-on_dropped s drop [] = refl
exists-on_dropped s drop (p ∷ rows) = ground (arith, exists-on_dropped s drop rows)

differs : (m n : ℕ) → n ≢ m → (m == n) ≡ false
differs m n h = ground (arith, h)

-- When MergeBooks folds a book that is there into another one, the kept book is on every shelf that it or
-- the dropped book was on, the dropped book is on none, and every other book is on the shelves it was on.
pub merge_books-shelves :
    (foreign_keys : Bool) (now keep drop s k : ℕ) (b : BookRow) (d : Index)
    → keep ≢ drop
    → k ≢ keep
    → k ≢ drop
    → find? (book_has_id drop) d.books ≡ some b
    → let rows = (merge_books foreign_keys now keep drop d).shelf_books in
      (exists (is_placement s keep) rows ≡ (
        exists (is_placement s drop) d.shelf_books || exists (is_placement s keep) d.shelf_books))
      × (exists (is_placement s drop) rows ≡ false)
      × (exists (is_placement s k) rows ≡ exists (is_placement s k) d.shelf_books)
unfolding merge_books move_placements
merge_books-shelves foreign_keys now keep drop s k b d apart not_kept not_dropped found =
    let added =
      add_placements (map (moved_to keep) (select (on_book drop) d.shelf_books)) d.shelf_books in
    let differ : (keep == drop) ≡ false = ground (arith, apart) in
    rw (merge_books, differ, found)
      (
        exists-on_other s keep drop added (ground (arith, apart))
            ∙ exists-add_placements s keep
                (map (moved_to keep) (select (on_book drop) d.shelf_books)) d.shelf_books
            ∙ ap (λ x. x || exists (is_placement s keep) d.shelf_books)
                (exists-moved s keep keep drop d.shelf_books ∙ rw (==_refl keep) refl),
        exists-on_dropped s drop added,
        exists-on_other s k drop added (ground (arith, not_dropped))
            ∙ exists-add_placements s k (map (moved_to keep) (select (on_book drop) d.shelf_books))
                d.shelf_books
            ∙ ap (λ x. x || exists (is_placement s k) d.shelf_books)
                (exists-moved s k keep drop d.shelf_books
                  ∙ ap (λ t. t && exists (is_placement s drop) d.shelf_books)
                      (differs keep k not_kept)),
      )

abbrev pub isbn_at : ℕ → Index → Text
isbn_at id d = isbn_of (find? (enrichment_of id) d.book_enrichment)

pick_gone :
    (roots : List Text) (id gone : ℕ) (d : Index)
    → find? (book_has_id gone) d.books ≡ none
    → pick_canonical roots id gone d ≡ err no_such_row
unfolding pick_canonical
pick_gone roots id gone d h = elim (Option-cases (find? (book_has_id id) d.books)) [
  | inl missing ↦ rw (pick_canonical, missing) refl
  | inr (a, found) ↦ rw (pick_canonical, found, h) refl
]

fails_again :
    (later : ℕ) (roots : List Text) (id : ℕ) (e : EnrichmentRow) (d : Index)
    → is_empty (isbn_at id d) ≡ false
    → find? (shares_isbn (isbn_at id d) id) d.book_enrichment ≡ some e
    → pick_canonical roots id e.book_id d ≡ err no_such_row
    → merge_duplicate_isbn false later roots id d ≡ (err no_such_row, d)
unfolding merge_duplicate_isbn
fails_again later roots id e d has_isbn other fails =
    rw (merge_duplicate_isbn, has_isbn, other, fails) refl

-- What a merge without foreign keys leaves.
record Leaves (now keep drop : ℕ) (d : Index) : Type 0 where
  enrichment : (merge_books false now keep drop d).book_enrichment ≡ d.book_enrichment
  gone : exists (book_has_id drop) (merge_books false now keep drop d).books ≡ false

merge_books-Leaves :
    (now keep drop : ℕ) (b : BookRow) (d : Index)
    → (keep == drop) ≡ false
    → find? (book_has_id drop) d.books ≡ some b
    → Leaves now keep drop d
unfolding merge_books
merge_books-Leaves now keep drop b d differ found = record {
  enrichment = rw (merge_books, differ, found) refl;
  gone = rw (merge_books, differ, found) (exists-delete (book_has_id drop) d.books);
}

first_merge :
    (now : ℕ) (roots : List Text) (id : ℕ) (e : EnrichmentRow) (d : Index)
    → is_empty (isbn_at id d) ≡ false
    → find? (shares_isbn (isbn_at id d) id) d.book_enrichment ≡ some e
    → pick_canonical roots id e.book_id d ≡ ok (id, e.book_id)
    → merge_duplicate_isbn false now roots id d ≡ (ok tt, merge_books false now id e.book_id d)
unfolding merge_duplicate_isbn
first_merge now roots id e d has_isbn other picked =
    rw (merge_duplicate_isbn, has_isbn, other, picked) refl

-- Where SQLite does not enforce foreign keys, MergeDuplicateISBN merges the other book that has the ISBN
-- into a book that is kept, and fails whenever it is called for that book again, since the enrichment of
-- the dropped book is still found.
pub merge_duplicate_isbn-again :
    (now later : ℕ) (roots : List Text) (id : ℕ) (e : EnrichmentRow) (b : BookRow) (d : Index)
    → is_empty (isbn_at id d) ≡ false
    → find? (shares_isbn (isbn_at id d) id) d.book_enrichment ≡ some e
    → find? (book_has_id e.book_id) d.books ≡ some b
    → pick_canonical roots id e.book_id d ≡ ok (id, e.book_id)
    → let d' = (merge_duplicate_isbn false now roots id d).1 in
      ((merge_duplicate_isbn false now roots id d).0 ≡ ok tt)
      × (exists (book_has_id e.book_id) d'.books ≡ false)
      × (merge_duplicate_isbn false later roots id d' ≡ (err no_such_row, d'))
merge_duplicate_isbn-again now later roots id e b d has_isbn other found picked =
    let own : (e.book_id == id) ≡ false = ground (
      arith,
      and_right (email_is (isbn_at id d) e.isbn) (not (e.book_id == id))
          (find?_holds (shares_isbn (isbn_at id d) id) d.book_enrichment e other),
    ) in
    let d' = merge_books false now id e.book_id d in
    let left = merge_books-Leaves now id e.book_id b d (ground (arith, own)) found in
    let isbn : isbn_at id d' ≡ isbn_at id d =
      ap (λ rows. isbn_of (find? (enrichment_of id) rows)) left.enrichment in
    subst
      (λ r.
        (r.0 ≡ ok tt)
        × (exists (book_has_id e.book_id) r.1.books ≡ false)
        × (merge_duplicate_isbn false later roots id r.1 ≡ (err no_such_row, r.1)))
      (sym (first_merge now roots id e d has_isbn other picked))
      (
        refl,
        left.gone,
        fails_again later roots id e d' (ap is_empty isbn ∙ has_isbn)
            (ap (λ t. find? (shares_isbn t id) d'.book_enrichment) isbn
              ∙ ap (find? (shares_isbn (isbn_at id d) id)) left.enrichment
              ∙ other)
            (pick_gone roots id e.book_id d'
              (exists-find? (book_has_id e.book_id) d'.books left.gone)),
      )
