-- ===== src/Auth.antt =====
-- internal/auth: sessions signed into a cookie, and the middleware that asks for them. Texts are
-- lists of bytes here. HMAC-SHA256 under the server's secret is the parameter `mac`.
pub mod Session
pub mod Middleware
pub mod Signature
pub mod RoundTrip
pub mod Confusion
pub mod Guards
mod Examples
use my_eink_library.Common.{
  ltb, leb, ◌==◌, if◌then◌else◌, ltb→lt, lt→ltb, leb→le, ==_iff, ==_refl, Bool-cases, Option-cases,
  indicator, is_some, Result-cases, and_left, and_right, Result, ok, err, exists_either,
  exists_of_found, exists-delete_none, exists-update_safe, exists-delete_apart, exists_one,
  exists_counted, exists-update_apart, counted_one, exists_all, count_cong, find?, count, exists,
  select, update, delete, count-append, exists-append, exists-delete, find?_holds, find?-append,
  find?-append_none, find?-exists, exists-find?, update_absent, delete_absent, count-update_keeps,
  count-delete-le, length, take, length-append, length-take-le, All, All-append, All-map, insert_by,
  sort_by, count-sort_by, count-select, find?_absent, count_of_none, count_of_some,
  count_of_not_exists, count_implied, count-update_none, count-delete_none, count-update_one,
  count-delete_one, count_split, count-find?, find?_unique, count-and_one, count-update_lowers,
  count-update_raises, exists_implied, find?-update_found, exists_count, count_exists,
  length-delete, exists-delete_other, exists-update_keeps, exists_cong, exists_thinned,
  exists-delete_kept, exists_none, Text, codes, text_eq, text_eq_refl, text_eq_iff, is_empty,
  is_space, trim_left, trim_space, rune_len, byte_len, ascii_lower, lower_ascii, to_lower, ℕ, zero,
  suc, ◌+◌, ◌-◌, ◌*◌, ◌/◌, ◌%◌, ◌^◌, ◌≤◌, ◌<◌, ◌≡◌, refl, sym, ap, ◌∙◌, ◌≢◌, ◌↔◌, ◌⊎◌, inl, inr,
  Bool, true, false, not, ◌&&◌, ◌||◌, Option, none, some, reverse, List, [], ◌∷◌, ◌++◌, map,
  append-nil, append_assoc, arith,
}
