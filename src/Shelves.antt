-- ===== src/Shelves.antt =====
-- internal/index/shelves.go: the tables shelves, shelf_books and shelf_members with the columns of
-- migrations/*.sql, and what the methods return.
pub mod Slug
pub mod Manage
pub mod Members
pub mod Visible
pub mod Contents
pub mod FreeSlug
pub mod Consistent
pub mod Keeps
pub mod Sharing
pub mod Runs
pub mod Access
mod Examples
use my_eink_library.Common.{
  ltb, leb, ◌==◌, if◌then◌else◌, ltb→lt, lt→ltb, leb→le, ==_iff, ==_refl, Bool-cases, Option-cases,
  indicator, is_some, Result-cases, and_left, and_right, Result, ok, err, exists_either,
  exists_of_found, exists-delete_none, exists-update_safe, exists-delete_apart, exists_one,
  exists_counted, exists-update_apart, counted_one, exists_all, count_cong, find?, count, exists,
  select, update, delete, count-append, exists-append, exists-delete, find?_holds, find?-append,
  find?-append_none, find?-exists, exists-find?, update_absent, delete_absent, count-update_keeps,
  count-delete-le, length, take, length-append, length-take-le, All, All-append, All-map, insert_by,
  sort_by, count-sort_by, count-select, find?_absent, count_of_none, count_of_some,
  count_of_not_exists, count_implied, count-update_none, count-delete_none, count-update_one,
  count-delete_one, count_split, count-find?, find?_unique, count-and_one, count-update_lowers,
  count-update_raises, exists_implied, find?-update_found, exists_count, count_exists,
  length-delete, exists-delete_other, exists-update_keeps, exists_cong, exists_thinned,
  exists-delete_kept, exists_none, Text, codes, text_eq, text_eq_refl, text_eq_iff, is_empty,
  is_space, trim_left, trim_space, rune_len, byte_len, ascii_lower, lower_ascii, to_lower, ℕ, zero,
  suc, ◌+◌, ◌-◌, ◌*◌, ◌/◌, ◌%◌, ◌^◌, ◌≤◌, ◌<◌, ◌≡◌, refl, sym, ap, ◌∙◌, ◌≢◌, ◌↔◌, ◌⊎◌, inl, inr,
  Bool, true, false, not, ◌&&◌, ◌||◌, Option, none, some, reverse, List, [], ◌∷◌, ◌++◌, map,
  append-nil, append_assoc, arith,
}

-- The three visibility strings, and any other string.
pub data Visibility : Type 0 where
  visibility_private visibility_shared visibility_public : Visibility
  other_visibility : Text → Visibility

abbrev pub is_private : Visibility → Bool
is_private visibility_private = true
is_private _ = false

abbrev pub is_shared : Visibility → Bool
is_shared visibility_shared = true
is_shared _ = false

abbrev pub is_public : Visibility → Bool
is_public visibility_public = true
is_public _ = false

pub record ShelfRow : Type 0 where
  pub id : ℕ
  pub username : Text
  pub slug : Text
  pub name : Text
  pub is_system : Bool
  pub visibility : Visibility
  pub created_at : ℕ
  pub last_used_at : ℕ

pub record ShelfBook : Type 0 where
  pub shelf_id : ℕ
  pub book_id : ℕ
  pub added_at : ℕ

pub record ShelfMember : Type 0 where
  pub shelf_id : ℕ
  pub username : Text
  pub created_at : ℕ

-- `next_id` is what AUTOINCREMENT gives the next shelf.
pub record Db : Type 0 where
  pub shelves : List ShelfRow
  pub shelf_books : List ShelfBook
  pub shelf_members : List ShelfMember
  pub next_id : ℕ

pub record Shelf : Type 0 where
  pub id : ℕ
  pub username : Text
  pub slug : Text
  pub name : Text
  pub is_system : Bool
  pub visibility : Visibility

abbrev pub scan_shelf : ShelfRow → Shelf
scan_shelf row = record {
  id = row.id;
  username = row.username;
  slug = row.slug;
  name = row.name;
  is_system = row.is_system;
  visibility = row.visibility;
}

pub data ShelfError : Type 0 where
  name_required name_too_long name_taken shelf_not_found invalid_visibility : ShelfError
  invalid_member private_has_no_members member_not_found create_failed no_free_slug : ShelfError
  too_many_shelves : ℕ → ShelfError

-- WHERE id = ?
abbrev pub shelf_has_id : ℕ → ShelfRow → Bool
shelf_has_id id sh = sh.id == id

-- WHERE username = ?
abbrev pub owned_by : Text → ShelfRow → Bool
owned_by username sh = text_eq sh.username username

-- username = ? AND slug = ?
abbrev pub has_slug : Text → Text → ShelfRow → Bool
has_slug username slug sh = owned_by username sh && text_eq sh.slug slug

-- username = ? AND is_system = 0 AND name = ? COLLATE NOCASE
abbrev pub has_name : Text → Text → ShelfRow → Bool
has_name username name sh =
    owned_by username sh && (not sh.is_system && text_eq (lower_ascii sh.name) (lower_ascii name))

-- shelf_id = ? AND username = ?
abbrev pub is_membership : ℕ → Text → ShelfMember → Bool
is_membership id username m = (m.shelf_id == id) && text_eq m.username username
