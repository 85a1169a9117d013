-- ===== src/Shelves/Sharing.antt =====
-- The methods on members, and DeleteUserShelves, keep the invariant.
use my_eink_library.Common.{
  ==_iff, Bool-cases, Option-cases, Result-cases, and_left, ok, find?, count, exists, delete,
  count-append, exists-append, find?_holds, count-delete-le, count_of_not_exists, count-find?,
  exists_implied, count_exists, exists_thinned, Text, text_eq, text_eq_iff, is_empty, trim_space, ℕ,
  ◌≤◌, ◌≡◌, refl, inl, inr, Bool, false, ◌&&◌, ◌||◌, some, List, arith,
}
use my_eink_library.Shelves.Members.{
  join_shelf, delete_user_shelves, sharable_shelf, add_shelf_member, remove_shelf_member,
  own_personal_shelf, on_shelf_of,
}
use my_eink_library.Shelves.{ShelfMember, Db, is_membership, ShelfRow, Shelf, owned_by, is_private}
use my_eink_library.Shelves.Consistent.{IsConsistent, hosts, stray, delete-IsConsistent}
use my_eink_library.Shelves.Visible.{get_owned_shelf, owned_with_id}

members-IsConsistent :
    (members : List ShelfMember) (d : Db)
    → exists (stray d.shelves) members ≡ false
    → ((id : ℕ) (u : Text) → count (is_membership id u) members ≤ 1)
    → IsConsistent d
    → IsConsistent (record d { shelf_members = members })
members-IsConsistent members d hosted key v = record {
  ids_unique = v.ids_unique;
  ids_below = v.ids_below;
  slugs_unique = v.slugs_unique;
  names_unique = v.names_unique;
  members_hosted = hosted;
  members_unique = key;
  books_unique = v.books_unique;
}

-- A shelf that may be shared is a personal one of its owner.
pub sharable_row :
    (owner_name : Text) (id : ℕ) (d : Db) (sh : Shelf)
    → sharable_shelf owner_name id d ≡ ok sh
    → (row : ShelfRow) × (find? (owned_with_id owner_name id) d.shelves ≡ some row)
      × (row.is_system ≡ false)
      × (is_private row.visibility ≡ false)
unfolding sharable_shelf own_personal_shelf get_owned_shelf
sharable_row owner_name id d sh h =
    elim (Option-cases (find? (owned_with_id owner_name id) d.shelves)) [
      | inl missing ↦ absurd (ground (arith, h, missing))
      | inr (row, found) ↦ (row, found, ground (arith, h, found), ground (arith, h, found))
    ]

-- The new membership is hosted by the owner's shelf.
hosted_by_owner :
    (owner_name : Text) (id : ℕ) (m : ShelfMember) (d : Db) (row : ShelfRow)
    → m.shelf_id ≡ id
    → text_eq m.username owner_name ≡ false
    → find? (owned_with_id owner_name id) d.shelves ≡ some row
    → row.is_system ≡ false
    → stray d.shelves m ≡ false
hosted_by_owner owner_name id m d row here other found personal_one = ground (
  arith,
  count_exists (hosts m) d.shelves (
      count-find? (hosts m) (owned_with_id owner_name id) d.shelves row found (
        ground (
          arith,
          find?_holds (owned_with_id owner_name id) d.shelves row found,
          here,
          other,
          personal_one,
          text_eq_iff row.username owner_name,
          text_eq_iff row.username m.username,
          text_eq_iff m.username owner_name,
          ==_iff row.id id,
          ==_iff row.id m.shelf_id,
        ))),
)

join_shelf-hosted :
    (now id : ℕ) (name : Text) (p : ShelfMember → Bool) (rows : List ShelfMember)
    → p (record { shelf_id = id; username = name; created_at = now }) ≡ false
    → exists p rows ≡ false
    → exists p (join_shelf now id name rows) ≡ false
unfolding join_shelf exists
join_shelf-hosted now id name p rows fresh old =
    elim (Bool-cases (exists (is_membership id name) rows)) [
      | inl there ↦ rw there old
      | inr new ↦ rw (new, exists-append p rows) (ground (arith, fresh, old))
    ]

join_shelf-key :
    (now id : ℕ) (name : Text) (rows : List ShelfMember) (j : ℕ) (u : Text)
    → count (is_membership j u) rows ≤ 1
    → count (is_membership j u) (join_shelf now id name rows) ≤ 1
unfolding join_shelf count
join_shelf-key now id name rows j u one = elim (Bool-cases (exists (is_membership id name) rows)) [
  | inl there ↦ rw there one
  | inr new ↦
      rw (new, count-append (is_membership j u) rows)
        (ground (
          arith,
          one,
          ==_iff id j,
          text_eq_iff name u,
          count_of_not_exists (is_membership id name) rows new,
        ))
]

pub add_shelf_member-IsConsistent :
    (now : ℕ) (owner_name : Text) (id : ℕ) (name : Text) (d : Db)
    → IsConsistent d
    → IsConsistent (add_shelf_member now owner_name id name d).1
unfolding add_shelf_member
add_shelf_member-IsConsistent now owner_name id name d v =
    elim (Bool-cases (is_empty (trim_space name) || text_eq name owner_name)) [
      | inl bad ↦ rw (add_shelf_member, bad) v
      | inr good ↦ elim (Result-cases (sharable_shelf owner_name id d)) [
        | inl (e, failed) ↦ rw (add_shelf_member, good, failed) v
        | inr (sh, may) ↦
            rw (add_shelf_member, good, may)
              (let (row, found, personal_one, shown) = sharable_row owner_name id d sh may in
                members-IsConsistent (join_shelf now id name d.shelf_members) d
                  (join_shelf-hosted now id name (stray d.shelves) d.shelf_members
                    (hosted_by_owner owner_name id
                      (record { shelf_id = id; username = name; created_at = now }) d row refl
                      (ground (arith, good)) found personal_one)
                    v.members_hosted)
                  (λ j u. join_shelf-key now id name d.shelf_members j u (v.members_unique j u)) v)
      ]
    ]

deleted-hosted :
    (p q : ShelfMember → Bool) (rows : List ShelfMember)
    → exists p rows ≡ false
    → exists p (delete q rows) ≡ false
deleted-hosted p q rows h = exists_thinned p q rows (exists_implied p _ rows (λ m. and_left _ _) h)

pub remove_shelf_member-IsConsistent :
    (owner_name : Text) (id : ℕ) (name : Text) (d : Db)
    → IsConsistent d
    → IsConsistent (remove_shelf_member owner_name id name d).1
unfolding remove_shelf_member
remove_shelf_member-IsConsistent owner_name id name d v =
    elim (Result-cases (sharable_shelf owner_name id d)) [
      | inl (e, failed) ↦ rw (remove_shelf_member, failed) v
      | inr (sh, may) ↦ elim (Bool-cases (exists (is_membership id name) d.shelf_members)) [
        | inr missing ↦ rw (remove_shelf_member, may, missing) v
        | inl there ↦
            rw (remove_shelf_member, may, there)
              (members-IsConsistent _ d
                (deleted-hosted (stray d.shelves) (is_membership id name) d.shelf_members
                  v.members_hosted)
                (λ j u. omega (
                  arith,
                  count-delete-le (is_membership id name) (is_membership j u) d.shelf_members,
                  v.members_unique j u,
                ))
                v)
      ]
    ]

-- Where no shelf of the user has the id, no shelf with the id is the user's.
not_theirs :
    (username : Text) (m : ShelfMember) (shelves : List ShelfRow)
    → on_shelf_of username shelves m.shelf_id ≡ false
    → exists (λ sh. hosts m sh && owned_by username sh) shelves ≡ false
not_theirs username m shelves h =
    exists_implied (owned_with_id username m.shelf_id) _ shelves (λ sh. ground arith) h

pub delete_user_shelves-IsConsistent :
    (username : Text) (d : Db) → IsConsistent d → IsConsistent (delete_user_shelves username d)
unfolding delete_user_shelves
delete_user_shelves-IsConsistent username d v =
    delete-IsConsistent (owned_by username) (λ m. on_shelf_of username d.shelves m.shelf_id)
      (delete (λ m. text_eq m.username username) d.shelf_members)
      (λ b. on_shelf_of username d.shelves b.shelf_id) d
      (λ m apart hosted. not_theirs username m d.shelves apart)
      (deleted-hosted (stray d.shelves) _ d.shelf_members v.members_hosted)
      (λ id u. omega (
        arith,
        count-delete-le (λ m. text_eq m.username username) (is_membership id u) d.shelf_members,
        v.members_unique id u,
      ))
      v
