-- ===== src/Tasks.antt =====
-- internal/tasks/tasks.go: the table task_runs, the tasks that are registered, and the runs that the
-- methods return. Times are Unix milliseconds; an empty time is none. The text of an error is given by
-- its bytes.
pub mod Queue
pub mod Registry
pub mod Drain
pub mod Worker
pub mod Turns
mod Rows
pub mod Ended
pub mod Services
mod Examples
use my_eink_library.Common.{
  ltb, leb, ◌==◌, if◌then◌else◌, ltb→lt, lt→ltb, leb→le, ==_iff, ==_refl, Bool-cases, Option-cases,
  indicator, is_some, Result-cases, and_left, and_right, Result, ok, err, exists_either,
  exists_of_found, exists-delete_none, exists-update_safe, exists-delete_apart, exists_one,
  exists_counted, exists-update_apart, counted_one, exists_all, count_cong, find?, count, exists,
  select, update, delete, count-append, exists-append, exists-delete, find?_holds, find?-append,
  find?-append_none, find?-exists, exists-find?, update_absent, delete_absent, count-update_keeps,
  count-delete-le, length, take, length-append, length-take-le, All, All-append, All-map, insert_by,
  sort_by, count-sort_by, count-select, find?_absent, count_of_none, count_of_some,
  count_of_not_exists, count_implied, count-update_none, count-delete_none, count-update_one,
  count-delete_one, count_split, count-find?, find?_unique, count-and_one, count-update_lowers,
  count-update_raises, exists_implied, find?-update_found, exists_count, count_exists,
  length-delete, exists-delete_other, exists-update_keeps, exists_cong, exists_thinned,
  exists-delete_kept, exists_none, Text, codes, text_eq, text_eq_refl, text_eq_iff, is_empty,
  is_space, trim_left, trim_space, rune_len, byte_len, ascii_lower, lower_ascii, to_lower, ℕ, zero,
  suc, ◌+◌, ◌-◌, ◌*◌, ◌/◌, ◌%◌, ◌^◌, ◌≤◌, ◌<◌, ◌≡◌, refl, sym, ap, ◌∙◌, ◌≢◌, ◌↔◌, ◌⊎◌, inl, inr,
  Bool, true, false, not, ◌&&◌, ◌||◌, Option, none, some, reverse, List, [], ◌∷◌, ◌++◌, map,
  append-nil, append_assoc, arith,
}
use my_eink_library.Encoding.Utf8.{Bytes}

pub data Kind : Type 0 where
  kind_job kind_service : Kind

abbrev pub is_job : Kind → Bool
is_job kind_job = true
is_job kind_service = false

pub data Status : Type 0 where
  status_queued status_running status_succeeded status_failed status_interrupted status_stopped :
      Status

abbrev pub is_queued : Status → Bool
is_queued status_queued = true
is_queued _ = false

-- status IN ('queued', 'running')
abbrev pub is_active : Status → Bool
is_active status_queued = true
is_active status_running = true
is_active _ = false

pub record Task : Type 0 where
  pub key : Text
  pub name : Text
  pub kind : Kind
  pub runnable : Bool

pub record TaskRow : Type 0 where
  pub id : ℕ
  pub task_key : Text
  pub kind : Kind
  pub status : Status
  pub queued_at : ℕ
  pub started_at : Option ℕ
  pub finished_at : Option ℕ
  pub error_text : Bytes

-- `next_id` is what AUTOINCREMENT gives the next run.
pub record TaskDb : Type 0 where
  pub runs : List TaskRow
  pub next_id : ℕ

pub record Run : Type 0 where
  pub id : ℕ
  pub task_key : Text
  pub task_name : Text
  pub kind : Kind
  pub status : Status
  pub queued_at : Option ℕ
  pub started_at : Option ℕ
  pub finished_at : Option ℕ
  pub duration : ℕ
  pub error : Bytes

-- WHERE id = ?
abbrev pub run_has_id : ℕ → TaskRow → Bool
run_has_id id r = r.id == id

-- task_key = ? AND status IN ('queued', 'running')
abbrev pub active_for : Text → TaskRow → Bool
active_for key r = text_eq r.task_key key && is_active r.status

abbrev pub waiting : TaskRow → Bool
waiting r = is_queued r.status
