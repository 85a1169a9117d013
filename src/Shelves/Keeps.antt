-- ===== src/Shelves/Keeps.antt =====
-- The methods on shelves keep the invariant.
use my_eink_library.Common.{
  ltb, ◌==◌, if◌then◌else◌, ==_iff, ==_refl, Bool-cases, Option-cases, indicator, Result-cases,
  and_left, err, find?, count, exists, update, count-append, find?-exists, count-delete-le,
  count_of_some, count_of_not_exists, count_implied, count-update_one, count_split, find?_unique,
  count-and_one, exists_implied, count_exists, exists_none, Text, text_eq_iff, is_empty, trim_space,
  byte_len, lower_ascii, ℕ, ◌+◌, ◌≤◌, ◌≡◌, refl, ◌⊎◌, inl, inr, true, false, not, ◌&&◌, ◌||◌, some,
  List, [], ◌∷◌, ◌++◌, arith,
}
use my_eink_library.Shelves.Manage.{
  create_shelf, ensure_system_shelf, rename_shelf_by, create_named, rename_to, insert_shelf,
  new_shelf, ShelfOutcome, over_limit, manageable, personal, name_conflict, delete_shelf_by,
  set_shelf_visibility_by, valid_visibility,
}
use my_eink_library.Shelves.{
  Db, ShelfRow, has_slug, name_required, has_name, name_too_long, Shelf, shelf_has_id, Visibility,
  ShelfBook,
}
use my_eink_library.Shelves.Slug.{shelf_slug}
use my_eink_library.Shelves.Consistent.{
  IsConsistent, with_shelf-IsConsistent, update-IsConsistent, delete-IsConsistent, update_same_name,
}
use my_eink_library.Shelves.Contents.{
  is_placement, add_book_to_shelf, touch_shelf, remove_book_from_shelf,
}

insert_shelf-IsConsistent :
    (row : ShelfRow) (d : Db) → IsConsistent d → IsConsistent (insert_shelf row d).1
unfolding insert_shelf
insert_shelf-IsConsistent row d v =
    elim (Bool-cases (
      exists (has_slug row.username row.slug) d.shelves
      || (not row.is_system && exists (has_name row.username row.name) d.shelves))) [
        | inl refused ↦ rw (refused, insert_shelf) v
        | inr free ↦
            rw (free, insert_shelf)
              (with_shelf-IsConsistent row d (ground (arith, free))
                (elim (Bool-cases row.is_system) [
                  | inl system ↦ inl system
                  | inr personal_one ↦ inr (ground (arith, free, personal_one))
                ])
                v)
      ]

pub ensure_system_shelf-IsConsistent :
    (now : ℕ) (username slug name : Text) (d : Db)
    → IsConsistent d
    → IsConsistent (ensure_system_shelf now username slug name d).1
unfolding ensure_system_shelf
ensure_system_shelf-IsConsistent now username slug name d v =
    elim (Option-cases (find? (has_slug username slug) d.shelves)) [
      | inl missing ↦
          rw (missing, ensure_system_shelf)
            (insert_shelf-IsConsistent (new_shelf username slug name true now) d v)
      | inr (sh, found) ↦ rw (found, ensure_system_shelf) v
    ]

-- Creating leaves the tables as they were, or as the INSERT leaves them.
create_named-cases :
    (beyond : ℕ → ℕ) (now : ℕ) (username name : Text) (limit : ℕ) (d : Db)
    → ((create_named beyond now username name limit d).1 ≡ d)
      ⊎ ((slug : Text) × ((create_named beyond now username name limit d).1
            ≡ (insert_shelf (new_shelf username slug name false now) d).1))
unfolding create_named
create_named-cases beyond now username name limit d =
    elim (Option-cases (shelf_slug beyond username name d)) [
      | inl missing ↦ inl (ground (arith, missing))
      | inr (slug, found) ↦
          elim (Result-cases (insert_shelf (new_shelf username slug name false now) d).0) [
            | inl (e, failed) ↦ inl (ground (arith, found, failed))
            | inr (id, made) ↦
                elim (Bool-cases (
                  over_limit limit (count (personal username) d.shelves)
                  || exists (has_name username name) d.shelves)) [
                    | inl refused ↦ inl (ground (arith, refused))
                    | inr allowed ↦ inr (slug, ground (arith, allowed, found, made))
                  ]
          ]
    ]

create_named-IsConsistent :
    (beyond : ℕ → ℕ) (now : ℕ) (username name : Text) (limit : ℕ) (d : Db)
    → IsConsistent d
    → IsConsistent (create_named beyond now username name limit d).1
create_named-IsConsistent beyond now username name limit d v =
    elim (create_named-cases beyond now username name limit d) [
      | inl same ↦ rw same v
      | inr (slug, made) ↦
          rw made (insert_shelf-IsConsistent (new_shelf username slug name false now) d v)
    ]

-- A method that checks the name first.
after_checks :
    (name : Text) (d : Db) (A : Type 0) (go : ShelfOutcome A)
    → IsConsistent d
    → IsConsistent go.1
    → IsConsistent
        (if is_empty name
          then (err name_required, d)
          else if ltb 100 (byte_len name)
          then (err name_too_long, d)
          else go).1
after_checks name d A go v w = elim (Bool-cases (is_empty name)) [
  | inl none_given ↦ rw none_given v
  | inr given ↦ rw given (elim (Bool-cases (ltb 100 (byte_len name))) [
    | inl long ↦ rw long v
    | inr short ↦ rw short w
  ])
]

pub create_shelf-IsConsistent :
    (beyond : ℕ → ℕ) (now : ℕ) (username name : Text) (limit : ℕ) (d : Db)
    → IsConsistent d
    → IsConsistent (create_shelf beyond now username name limit d).1
unfolding create_shelf
create_shelf-IsConsistent beyond now username name limit d v =
    after_checks (trim_space name) d Shelf
      (create_named beyond now username (trim_space name) limit d) v
      (create_named-IsConsistent beyond now username (trim_space name) limit d v)

renamed_count :
    (id : ℕ) (username name u n : Text) (d : Db) (sh : ShelfRow)
    → IsConsistent d
    → find? (manageable id username) d.shelves ≡ some sh
    → count
          (has_name u n)
          (update (manageable id username) (λ w. record w { name = name }) d.shelves)
        + indicator (has_name u n sh)
      ≡ count (has_name u n) d.shelves + indicator (has_name u n (record sh { name = name }))
renamed_count id username name u n d sh v found =
    count-update_one (manageable id username) (has_name u n) (λ w. record w { name = name })
      d.shelves sh found
      (omega (
        arith,
        v.ids_unique id,
        count_implied (shelf_has_id id) (manageable id username) d.shelves (λ w. and_left _ _),
      ))

-- Where no other shelf has the new name, none that would count beside the renamed one does.
namesakes :
    (name u n : Text) (d : Db) (sh : ShelfRow)
    → exists (λ w. not (w.id == sh.id) && has_name sh.username name w) d.shelves ≡ false
    → has_name u n (record sh { name = name }) ≡ true
    → count (λ w. has_name u n w && not (shelf_has_id sh.id w)) d.shelves ≡ 0
namesakes name u n d sh free same = count_of_not_exists _ d.shelves (
    exists_implied (λ w. not (w.id == sh.id) && has_name sh.username name w) _ d.shelves
      (λ w.
        ground
          (arith, same, text_eq_iff sh.username u, text_eq_iff (lower_ascii name) (lower_ascii n)))
      free)

renamed_once :
    (id : ℕ) (username name u n : Text) (d : Db) (sh : ShelfRow)
    → IsConsistent d
    → find? (manageable id username) d.shelves ≡ some sh
    → exists (λ w. not (w.id == sh.id) && has_name sh.username name w) d.shelves ≡ false
    → count
        (has_name u n)
        (update (manageable id username) (λ w. record w { name = name }) d.shelves)
      ≤ 1
renamed_once id username name u n d sh v found free = ground (
  arith,
  v.names_unique u n,
  renamed_count id username name u n d sh v found,
  count_split (has_name u n) (shelf_has_id sh.id) d.shelves,
  count-and_one (shelf_has_id sh.id) (has_name u n) d.shelves sh
      (find?_unique (shelf_has_id sh.id) (manageable id username) d.shelves sh found (==_refl sh.id)
        (v.ids_unique sh.id))
      (v.ids_unique sh.id),
  namesakes name u n d sh free,
)

rename_to-IsConsistent :
    (id : ℕ) (username name : Text) (d : Db)
    → IsConsistent d
    → IsConsistent (rename_to id username name d).1
unfolding rename_to
rename_to-IsConsistent id username name d v =
    elim (Bool-cases (name_conflict id username name d.shelves)) [
      | inl clash ↦ rw (rename_to, clash) v
      | inr clear ↦ elim (Option-cases (find? (manageable id username) d.shelves)) [
        | inl missing ↦
            rw (rename_to, clear, find?-exists (manageable id username) d.shelves missing) v
        | inr (sh, found) ↦
            rw
              (
                rename_to,
                clear,
                count_exists (manageable id username) d.shelves
                    (count_of_some (manageable id username) d.shelves sh found),
              )
              (update-IsConsistent (manageable id username) (λ w. record w { name = name }) d
                (record {
                  id = λ w. refl;
                  username = λ w. refl;
                  slug = λ w. refl;
                  is_system = λ w. refl;
                })
                (λ u n.
                  renamed_once id username name u n d sh v found (ground (arith, clear, found)))
                v)
      ]
    ]

pub rename_shelf_by-IsConsistent :
    (id : ℕ) (username name : Text) (d : Db)
    → IsConsistent d
    → IsConsistent (rename_shelf_by id username name d).1
unfolding rename_shelf_by
rename_shelf_by-IsConsistent id username name d v =
    after_checks (trim_space name) d (Unit {0}) (rename_to id username (trim_space name) d) v
      (rename_to-IsConsistent id username (trim_space name) d v)

pub delete_shelf_by-IsConsistent :
    (id : ℕ) (username : Text) (d : Db)
    → IsConsistent d
    → IsConsistent (delete_shelf_by id username d).1
unfolding delete_shelf_by
delete_shelf_by-IsConsistent id username d v =
    elim (Bool-cases (exists (manageable id username) d.shelves)) [
      | inr missing ↦ rw (delete_shelf_by, missing) v
      | inl there ↦
          rw (delete_shelf_by, there)
            (delete-IsConsistent (manageable id username) (λ m. m.shelf_id == id) d.shelf_members
              (λ b. b.shelf_id == id) d
              (λ m apart hosted. exists_none _ d.shelves (λ sh.
                ground
                  (arith, apart, ==_iff sh.id m.shelf_id, ==_iff sh.id id, ==_iff m.shelf_id id)))
              v.members_hosted v.members_unique v)
    ]

pub set_shelf_visibility_by-IsConsistent :
    (id : ℕ) (username : Text) (w : Visibility) (d : Db)
    → IsConsistent d
    → IsConsistent (set_shelf_visibility_by id username w d).1
unfolding set_shelf_visibility_by
set_shelf_visibility_by-IsConsistent id username w d v = elim (Bool-cases (valid_visibility w)) [
  | inr bad ↦ rw (set_shelf_visibility_by, bad) v
  | inl good ↦ elim (Bool-cases (exists (manageable id username) d.shelves)) [
    | inr missing ↦ rw (set_shelf_visibility_by, good, missing) v
    | inl there ↦
        rw (set_shelf_visibility_by, good, there)
          (update_same_name (manageable id username) (λ sh. record sh { visibility = w }) d
            (record {
              id = λ sh. refl;
              username = λ sh. refl;
              slug = λ sh. refl;
              is_system = λ sh. refl;
            })
            (λ sh. refl) v)
  ]
]

touch-IsConsistent :
    (now shelf_id : ℕ) (d : Db)
    → IsConsistent d
    → IsConsistent (record d { shelves = touch_shelf now shelf_id d.shelves })
touch-IsConsistent now shelf_id d v =
    update_same_name (shelf_has_id shelf_id) (λ sh. record sh { last_used_at = now }) d
      (record { id = λ sh. refl; username = λ sh. refl; slug = λ sh. refl; is_system = λ sh. refl })
      (λ sh. refl) v

-- The table of books may change as long as its key holds.
books-IsConsistent :
    (books : List ShelfBook) (d : Db)
    → ((s b : ℕ) → count (is_placement s b) books ≤ 1)
    → IsConsistent d
    → IsConsistent (record d { shelf_books = books })
books-IsConsistent books d key v = record {
  ids_unique = v.ids_unique;
  ids_below = v.ids_below;
  slugs_unique = v.slugs_unique;
  names_unique = v.names_unique;
  members_hosted = v.members_hosted;
  members_unique = v.members_unique;
  books_unique = key;
}

placed_once :
    (now shelf_id book_id s b : ℕ) (books : List ShelfBook)
    → count (is_placement s b) books ≤ 1
    → count (is_placement s b) (
        if exists (is_placement shelf_id book_id) books
        then books
        else books ++ record { shelf_id = shelf_id; book_id = book_id; added_at = now } ∷ [])
      ≤ 1
unfolding count
placed_once now shelf_id book_id s b books one =
    elim (Bool-cases (exists (is_placement shelf_id book_id) books)) [
      | inl there ↦ rw there one
      | inr new ↦
          rw (new, count-append (is_placement s b) books)
            (ground (
              arith,
              one,
              ==_iff shelf_id s,
              ==_iff book_id b,
              count_of_not_exists (is_placement shelf_id book_id) books new,
            ))
    ]

pub add_book_to_shelf-IsConsistent :
    (now shelf_id book_id : ℕ) (d : Db)
    → IsConsistent d
    → IsConsistent (add_book_to_shelf now shelf_id book_id d)
unfolding add_book_to_shelf
add_book_to_shelf-IsConsistent now shelf_id book_id d v =
    books-IsConsistent _ (record d { shelves = touch_shelf now shelf_id d.shelves })
      (λ s b. placed_once now shelf_id book_id s b d.shelf_books (v.books_unique s b))
      (touch-IsConsistent now shelf_id d v)

pub remove_book_from_shelf-IsConsistent :
    (now shelf_id book_id : ℕ) (d : Db)
    → IsConsistent d
    → IsConsistent (remove_book_from_shelf now shelf_id book_id d)
unfolding remove_book_from_shelf
remove_book_from_shelf-IsConsistent now shelf_id book_id d v =
    books-IsConsistent _ (record d { shelves = touch_shelf now shelf_id d.shelves })
      (λ s b. omega (
        arith,
        count-delete-le (is_placement shelf_id book_id) (is_placement s b) d.shelf_books,
        v.books_unique s b,
      ))
      (touch-IsConsistent now shelf_id d v)
