-- ===== src/Shelves/Access.antt =====
-- Who reaches a shelf: owners, members, and for public shelves everyone, who only reads.
use my_eink_library.Common.{
  ◌==◌, if◌then◌else◌, ==_iff, Bool-cases, indicator, is_some, and_left, err, find?, exists, update,
  find?_holds, find?_absent, count_implied, count-find?, find?_unique, count-and_one,
  find?-update_found, count_exists, Text, text_eq, text_eq_refl, text_eq_iff, ℕ, ◌≡◌, refl, ap, ◌∙◌,
  inl, inr, Bool, true, false, ◌&&◌, ◌||◌, Option, none, some, arith,
}
use my_eink_library.Shelves.{
  visibility_public, other_visibility, visibility_shared, is_public, Visibility, scan_shelf, Db,
  ShelfRow, shelf_has_id, is_private, is_membership, private_has_no_members, visibility_private,
}
use my_eink_library.Shelves.Members.{remove_shelf_member, sharable_shelf, own_personal_shelf}
use my_eink_library.Shelves.Manage.{set_shelf_visibility_by, manageable}
use my_eink_library.Shelves.Consistent.{IsConsistent}
use my_eink_library.Shelves.Visible.{
  role_owner, role_member, role_reader, ShelfAccess, AccessRole, get_owned_shelf, visible_to,
  get_visible_shelf, get_editable_shelf, owned_with_id, scan_access, editable_by,
}
use mathlib.Core.Path.{subst}
use my_eink_library.Shelves.Keeps.{set_shelf_visibility_by-IsConsistent}

-- What a user sees of a shelf who is neither its owner nor a member.
abbrev pub shown_publicly : Visibility → ShelfRow → Option ShelfAccess
shown_publicly visibility_public row = some (record { shelf = scan_shelf row; role = role_reader })
shown_publicly _ row = none

abbrev access_as : ShelfRow → AccessRole → ShelfAccess
access_as row role = record { shelf = scan_shelf row; role = role }

-- The query and the role that it computes, for each case of who asks.
roles :
    (owner joined : Bool) (visibility : Visibility) (row : ShelfRow)
    → (if owner || (joined || is_public visibility)
        then some (
            access_as row
              (if owner then role_owner else if joined then role_member else role_reader))
        else none)
      ≡ (if owner
          then some (access_as row role_owner)
          else if joined
          then some (access_as row role_member)
          else shown_publicly visibility row)
roles true joined visibility row = refl
roles false true visibility row = refl
roles false false visibility_public row = refl
roles false false visibility_private row = refl
roles false false visibility_shared row = refl
roles false false (other_visibility _) row = refl

module _ (username : Text) (id : ℕ) (d : Db) (row : ShelfRow) (v : IsConsistent d)
    (found : find? (shelf_has_id id) d.shelves ≡ some row) where
  found_visible :
      visible_to d username row ≡ true
      → find? (λ sh. shelf_has_id id sh && visible_to d username sh) d.shelves ≡ some row
  found_visible seen =
      find?_unique (λ sh. shelf_has_id id sh && visible_to d username sh) (shelf_has_id id)
        d.shelves row found
        (ground (arith, seen, find?_holds (shelf_has_id id) d.shelves row found))
        (omega (
          arith,
          v.ids_unique id,
          count_implied (shelf_has_id id) (λ sh. shelf_has_id id sh && visible_to d username sh)
              d.shelves (λ sh. and_left _ _),
        ))

  unseen :
      visible_to d username row ≡ false
      → find? (λ sh. shelf_has_id id sh && visible_to d username sh) d.shelves ≡ none
  unseen hidden =
      find?_absent (λ sh. shelf_has_id id sh && visible_to d username sh) d.shelves
        (omega (
          arith,
          count-and_one (shelf_has_id id) (visible_to d username) d.shelves row found
              (v.ids_unique id),
          ap indicator hidden,
          count_implied (λ sh. visible_to d username sh && shelf_has_id id sh)
              (λ sh. shelf_has_id id sh && visible_to d username sh) d.shelves (λ sh. ground arith),
        ))

  get_visible_shelf-visible_to :
      get_visible_shelf username id d
      ≡ (if visible_to d username row then some (scan_access d username row) else none)
  unfolding get_visible_shelf
  get_visible_shelf-visible_to = elim (Bool-cases (visible_to d username row)) [
    | inl seen ↦ rw (seen, get_visible_shelf, found_visible seen)
    | inr hidden ↦ rw (hidden, get_visible_shelf, unseen hidden)
  ]

  -- GetVisibleShelf shows a shelf of consistent tables to its owner as owner, to another user who is one
  -- of its members as member, to everyone else, if it is public, as reader, and otherwise not.
  pub get_visible_shelf_lem : get_visible_shelf username id d ≡ (
      if text_eq row.username username
      then some (record { shelf = scan_shelf row; role = role_owner })
      else if exists (λ m. (m.shelf_id == id) && text_eq m.username username) d.shelf_members
      then some (record { shelf = scan_shelf row; role = role_member })
      else shown_publicly row.visibility row)
  get_visible_shelf_lem =
      get_visible_shelf-visible_to
      ∙ roles (text_eq row.username username)
          (exists (is_membership row.id username) d.shelf_members) row.visibility row
      ∙ ap
          (λ k.
            if text_eq row.username username
            then some (access_as row role_owner)
            else if exists (is_membership k username) d.shelf_members
            then some (access_as row role_member)
            else shown_publicly row.visibility row)
          ((==_iff row.id id).0 (find?_holds (shelf_has_id id) d.shelves row found))

  -- GetEditableShelf gives a shelf of consistent tables exactly to its owner and its members: that a
  -- shelf is public lets nobody write.
  pub get_editable_shelf_lem :
      get_editable_shelf username id d
      ≡ (if editable_by d username row then some (scan_access d username row) else none)
  unfolding get_editable_shelf
  get_editable_shelf_lem = ground (arith, get_visible_shelf-visible_to)

-- A shelf is found by its id and its owner's name together.
owned_found :
    (owner_name : Text) (id : ℕ) (d : Db) (row : ShelfRow)
    → IsConsistent d
    → find? (shelf_has_id id) d.shelves ≡ some row
    → row.username ≡ owner_name
    → find? (owned_with_id owner_name id) d.shelves ≡ some row
owned_found owner_name id d row v found mine =
    find?_unique (owned_with_id owner_name id) (shelf_has_id id) d.shelves row found
      (ground (
        arith,
        find?_holds (shelf_has_id id) d.shelves row found,
        text_eq_iff row.username owner_name,
        mine,
      ))
      (omega (
        arith,
        v.ids_unique id,
        count_implied (shelf_has_id id) (owned_with_id owner_name id) d.shelves
            (λ sh. and_left _ _),
      ))

-- The members of a private shelf, if it has any, cannot be removed by its owner.
pub remove_shelf_member-private :
    (owner_name : Text) (id : ℕ) (name : Text) (d : Db) (row : ShelfRow)
    → IsConsistent d
    → find? (shelf_has_id id) d.shelves ≡ some row
    → row.username ≡ owner_name
    → row.is_system ≡ false
    → is_private row.visibility ≡ true
    → remove_shelf_member owner_name id name d ≡ (err private_has_no_members, d)
unfolding remove_shelf_member sharable_shelf own_personal_shelf get_owned_shelf
remove_shelf_member-private owner_name id name d row v found mine personal_one hidden =
    ground (arith, owned_found owner_name id d row v found mine, personal_one, hidden)

abbrev made_private : ℕ → Text → Db → Db
made_private id owner_name d = record d {
  shelves =
      update (manageable id owner_name) (λ sh. record sh { visibility = visibility_private })
        d.shelves;
}

manages_own :
    (id : ℕ) (d : Db) (row : ShelfRow)
    → find? (shelf_has_id id) d.shelves ≡ some row
    → row.is_system ≡ false
    → manageable id row.username row ≡ true
manages_own id d row found personal_one = ground (
  arith,
  find?_holds (shelf_has_id id) d.shelves row found,
  personal_one,
  text_eq_refl row.username,
)

set_private :
    (id : ℕ) (d : Db) (row : ShelfRow)
    → find? (shelf_has_id id) d.shelves ≡ some row
    → row.is_system ≡ false
    → (set_shelf_visibility_by id row.username visibility_private d).1
      ≡ made_private id row.username d
unfolding set_shelf_visibility_by
set_private id d row found personal_one = rw (
    count_exists (manageable id row.username) d.shelves (
      count-find? (manageable id row.username) (shelf_has_id id) d.shelves row found
        (manages_own id d row found personal_one)))

private_found :
    (id : ℕ) (d : Db) (row : ShelfRow)
    → find? (shelf_has_id id) d.shelves ≡ some row
    → row.is_system ≡ false
    → find? (shelf_has_id id) (made_private id row.username d).shelves
      ≡ some (record row { visibility = visibility_private })
private_found id d row found personal_one =
    find?-update_found (manageable id row.username) (shelf_has_id id)
      (λ sh. record sh { visibility = visibility_private }) d.shelves row found
      (manages_own id d row found personal_one) (λ sh. refl)

-- After the owner of a personal shelf of consistent tables has made it private, a user who was a
-- member still edits it, and the owner cannot remove the member.
pub set_shelf_visibility_by-member :
    (id : ℕ) (name : Text) (d : Db) (row : ShelfRow)
    → IsConsistent d
    → find? (shelf_has_id id) d.shelves ≡ some row
    → row.is_system ≡ false
    → exists (is_membership id name) d.shelf_members ≡ true
    → (is_some (
          get_editable_shelf name id
            (set_shelf_visibility_by id row.username visibility_private d).1)
        ≡ true)
      × ((remove_shelf_member row.username id name
            (set_shelf_visibility_by id row.username visibility_private d).1).0
          ≡ err private_has_no_members)
set_shelf_visibility_by-member id name d row v found personal_one there =
    let w =
      subst IsConsistent (set_private id d row found personal_one)
        (set_shelf_visibility_by-IsConsistent id row.username visibility_private d v) in
    rw (set_private id d row found personal_one) (
      ground (
        arith,
        get_editable_shelf_lem name id (made_private id row.username d)
            (record row { visibility = visibility_private }) w
            (private_found id d row found personal_one),
        there,
        ==_iff row.id id,
        find?_holds (shelf_has_id id) d.shelves row found,
      ),
      ap (λ x. x.0)
          (remove_shelf_member-private row.username id name (made_private id row.username d)
            (record row { visibility = visibility_private }) w
            (private_found id d row found personal_one) refl personal_one refl),
    )
