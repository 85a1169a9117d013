-- ===== src/Shelves/Consistent.antt =====
-- The invariant of the tables of shelves, and how their statements keep it.
use my_eink_library.Common.{
  Bool-cases, indicator, count, exists, update, delete, count-append, exists-append,
  count-update_keeps, count-delete-le, count_of_not_exists, count_implied, exists_implied,
  exists-update_keeps, exists_cong, exists_thinned, exists-delete_kept, Text, text_eq_iff,
  lower_ascii, ℕ, ◌+◌, ◌≤◌, ◌≡◌, ◌∙◌, ◌⊎◌, inl, inr, Bool, true, false, not, ◌&&◌, List, [], ◌∷◌,
  ◌++◌, arith,
}
use my_eink_library.Shelves.{
  Db, ShelfMember, ShelfRow, shelf_has_id, has_name, has_slug, ShelfBook, owned_by, is_membership,
}
use my_eink_library.Shelves.Contents.{is_placement}

-- The shelves that a row of shelf_members may stand for: personal, and another user's.
abbrev pub hosts : ShelfMember → ShelfRow → Bool
hosts m sh = shelf_has_id m.shelf_id sh && (not sh.is_system && not (owned_by m.username sh))

abbrev pub stray : List ShelfRow → ShelfMember → Bool
stray shelves m = not (exists (hosts m) shelves)

-- Ids are unique and were given by AUTOINCREMENT, slugs and personal names are unique for each user,
-- a membership is of a personal shelf of another user, and the keys of the two other tables hold.
pub record IsConsistent (d : Db) : Type 0 where
  pub ids_unique : (id : ℕ) → count (shelf_has_id id) d.shelves ≤ 1
  pub ids_below : (id : ℕ) → d.next_id ≤ id → count (shelf_has_id id) d.shelves ≡ 0
  pub slugs_unique : (u s : Text) → count (has_slug u s) d.shelves ≤ 1
  pub names_unique : (u n : Text) → count (has_name u n) d.shelves ≤ 1
  pub members_hosted : exists (stray d.shelves) d.shelf_members ≡ false
  pub members_unique : (id : ℕ) (u : Text) → count (is_membership id u) d.shelf_members ≤ 1
  pub books_unique : (s b : ℕ) → count (is_placement s b) d.shelf_books ≤ 1

-- An update that leaves the columns alone that the invariant speaks of.
pub record KeepsShelf (f : ShelfRow → ShelfRow) : Type 0 where
  pub id : (sh : ShelfRow) → (f sh).id ≡ sh.id
  pub username : (sh : ShelfRow) → (f sh).username ≡ sh.username
  pub slug : (sh : ShelfRow) → (f sh).slug ≡ sh.slug
  pub is_system : (sh : ShelfRow) → (f sh).is_system ≡ sh.is_system

stray-update :
    (p : ShelfRow → Bool) (f : ShelfRow → ShelfRow) (k : KeepsShelf f) (shelves : List ShelfRow)
    (m : ShelfMember)
    → stray (update p f shelves) m ≡ stray shelves m
stray-update p f k shelves m =
    rw (
      exists-update_keeps p (hosts m) f shelves (λ sh. rw (k.id sh, k.is_system sh, k.username sh)))

pub update-IsConsistent :
    (p : ShelfRow → Bool) (f : ShelfRow → ShelfRow) (d : Db)
    → KeepsShelf f
    → ((u n : Text) → count (has_name u n) (update p f d.shelves) ≤ 1)
    → IsConsistent d
    → IsConsistent (record d { shelves = update p f d.shelves })
update-IsConsistent p f d k names v = record {
  ids_unique = λ id.
      rw (count-update_keeps p (shelf_has_id id) f d.shelves (λ sh. rw (k.id sh)))
        (v.ids_unique id);
  ids_below = λ id h.
      rw (count-update_keeps p (shelf_has_id id) f d.shelves (λ sh. rw (k.id sh)))
        (v.ids_below id h);
  slugs_unique = λ u s.
      rw (count-update_keeps p (has_slug u s) f d.shelves (λ sh. rw (k.username sh, k.slug sh)))
        (v.slugs_unique u s);
  names_unique = names;
  members_hosted =
      exists_cong _ (stray d.shelves) d.shelf_members (stray-update p f k d.shelves)
      ∙ v.members_hosted;
  members_unique = v.members_unique;
  books_unique = v.books_unique;
}

-- An update that leaves the names alone too.
pub update_same_name :
    (p : ShelfRow → Bool) (f : ShelfRow → ShelfRow) (d : Db)
    → KeepsShelf f
    → ((sh : ShelfRow) → (f sh).name ≡ sh.name)
    → IsConsistent d
    → IsConsistent (record d { shelves = update p f d.shelves })
update_same_name p f d k same v =
    update-IsConsistent p f d k
      (λ u n.
        rw
          (count-update_keeps p (has_name u n) f d.shelves
            (λ sh. rw (k.username sh, k.is_system sh, same sh)))
          (v.names_unique u n))
      v

-- The row of an INSERT whose slug is free, and whose name is free if it is not the system's.
abbrev pub with_shelf : ShelfRow → Db → Db
with_shelf row d = record d {
  shelves = d.shelves ++ record row { id = d.next_id } ∷ [];
  next_id = d.next_id + 1;
}

name_after :
    (row : ShelfRow) (u n : Text) (shelves : List ShelfRow)
    → row.is_system ≡ true ⊎ (count (has_name row.username row.name) shelves ≡ 0)
    → count (has_name u n) shelves ≤ 1
    → count (has_name u n) shelves + indicator (has_name u n row) ≤ 1
name_after row u n shelves free one = elim (Bool-cases (has_name u n row)) [
  | inr other ↦ ground (arith, other, one)
  | inl same ↦ ground (
    arith,
    same,
    free,
    one,
    count_implied (has_name row.username row.name) (has_name u n) shelves (λ w. ground (
      arith,
      same,
      text_eq_iff row.username u,
      text_eq_iff (lower_ascii row.name) (lower_ascii n),
    )),
  )
]

pub with_shelf-IsConsistent :
    (row : ShelfRow) (d : Db)
    → exists (has_slug row.username row.slug) d.shelves ≡ false
    → row.is_system ≡ true ⊎ (exists (has_name row.username row.name) d.shelves ≡ false)
    → IsConsistent d
    → IsConsistent (with_shelf row d)
unfolding count
with_shelf-IsConsistent row d slug_free name_free v = record {
  ids_unique = λ id.
      rw (count-append (shelf_has_id id) d.shelves)
        (ground (arith, v.ids_unique id, v.ids_below id));
  ids_below =
      λ id h. rw (count-append (shelf_has_id id) d.shelves) (ground (arith, v.ids_below id));
  slugs_unique = λ u s. rw (count-append (has_slug u s) d.shelves) (
      ground (
        arith,
        v.slugs_unique u s,
        text_eq_iff row.username u,
        text_eq_iff row.slug s,
        count_of_not_exists (has_slug row.username row.slug) d.shelves slug_free,
      ));
  names_unique = λ u n. rw (count-append (has_name u n) d.shelves) (
      ground (
        arith,
        name_after row u n d.shelves
            (elim name_free [
              | inl s ↦ inl s
              | inr free ↦ inr (count_of_not_exists _ d.shelves free)
            ])
            (v.names_unique u n),
      ));
  members_hosted =
      exists_implied (stray d.shelves) _ d.shelf_members
        (λ m.
          ground (arith, exists-append (hosts m) d.shelves (record row { id = d.next_id } ∷ [])))
        v.members_hosted;
  members_unique = v.members_unique;
  books_unique = v.books_unique;
}

-- Rows go: shelves, and with them the memberships that they hosted.
pub delete-IsConsistent :
    (p : ShelfRow → Bool) (q : ShelfMember → Bool) (members : List ShelfMember)
    (gone : ShelfBook → Bool) (d : Db)
    → ((m : ShelfMember)
        → q m ≡ false
        → exists (hosts m) d.shelves ≡ true
        → exists (λ sh. hosts m sh && p sh) d.shelves ≡ false)
    → exists (stray d.shelves) members ≡ false
    → ((id : ℕ) (u : Text) → count (is_membership id u) members ≤ 1)
    → IsConsistent d
    → IsConsistent (record d {
      shelves = delete p d.shelves;
      shelf_books = delete gone d.shelf_books;
      shelf_members = delete q members;
    })
delete-IsConsistent p q members gone d apart hosted keys v = record {
  ids_unique = λ id. omega (arith, count-delete-le p (shelf_has_id id) d.shelves, v.ids_unique id);
  ids_below =
      λ id h. omega (arith, count-delete-le p (shelf_has_id id) d.shelves, v.ids_below id h);
  slugs_unique =
      λ u s. omega (arith, count-delete-le p (has_slug u s) d.shelves, v.slugs_unique u s);
  names_unique =
      λ u n. omega (arith, count-delete-le p (has_name u n) d.shelves, v.names_unique u n);
  members_hosted = exists_thinned _ q members (
      exists_implied (stray d.shelves) _ members
        (λ m. ground (arith, apart m, exists-delete_kept (hosts m) p d.shelves)) hosted);
  members_unique = λ id u. omega (arith, count-delete-le q (is_membership id u) members, keys id u);
  books_unique = λ s b.
      omega (arith, count-delete-le gone (is_placement s b) d.shelf_books, v.books_unique s b);
}
