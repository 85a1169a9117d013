-- ===== src/Tasks/Services.antt =====
-- Summaries, History, Start and StartService of internal/tasks/tasks.go.
use my_eink_library.Common.{
  leb, if◌then◌else◌, find?, select, sort_by, Text, text_eq, ℕ, Bool, Option, none, some, List, [],
  ◌∷◌, map,
}
use my_eink_library.Tasks.{
  TaskDb, TaskRow, Task, Status, status_stopped, Run, status_failed, is_job, Bytes,
}
use my_eink_library.Tasks.Queue.{
  history, recover_interrupted, unix_time, start_service, finish, duration_of,
}
use my_eink_library.Tasks.Registry.{definitions, Registry, names, has_key}

-- `status` is none where it is "idle". The time of the next run is set outside the package.
pub record Summary : Type 0 where
  pub task : Task
  pub status : Option Status
  pub last_started : Option ℕ
  pub last_finished : Option ℕ
  pub last_duration : ℕ
  pub last_error : Bytes

abbrev pub latest : List TaskRow → Option TaskRow
latest [] = none
latest (r ∷ rs) = some r

-- task_key = ? ORDER BY id DESC LIMIT 1
unfoldable pub last_run : Text → TaskDb → Option TaskRow
last_run key d =
    latest (sort_by (λ a b. leb b.id a.id) (select (λ r. text_eq r.task_key key) d.runs))

abbrev pub summary_of_run : Task → Option TaskRow → Summary
summary_of_run task none = record {
  task = task;
  status = none;
  last_started = none;
  last_finished = none;
  last_duration = 0;
  last_error = [];
}
summary_of_run task (some r) = record {
  task = task;
  status = some r.status;
  last_started = unix_time r.started_at;
  last_finished = unix_time r.finished_at;
  last_duration = duration_of (unix_time r.started_at) (unix_time r.finished_at);
  last_error = r.error_text;
}

unfoldable pub summaries : List Task → TaskDb → List Summary
unfolding last_run unix_time
summaries tasks d = map (λ task. summary_of_run task (last_run task.key d)) tasks

unfoldable pub manager_summaries : Registry → TaskDb → List Summary
unfolding summaries definitions
manager_summaries m d = summaries (definitions m) d

unfoldable pub manager_history : ℕ → Registry → TaskDb → List Run
unfolding history names
manager_history limit m d = history (names m) limit d

-- Start, before its worker runs.
unfoldable pub start : ℕ → TaskDb → TaskDb
unfolding recover_interrupted
start now d = recover_interrupted now d

-- What StartService records when a service starts, none for a key that is no service.
unfoldable pub begin_service : ℕ → Text → Registry → TaskDb → Option Run × TaskDb
unfolding start_service
begin_service now key m d = elim (find? (has_key key) m.tasks) [
  | none ↦ (none, d)
  | some task ↦
      if is_job task.kind
      then (none, d)
      else (some (start_service now task d).0, (start_service now task d).1)
]

-- What it records when the service returns: it was stopped, or failed on its own.
unfoldable pub end_service : ℕ → ℕ → Bool → TaskDb → TaskDb
unfolding finish
end_service now id cancelled d =
    finish now id (if cancelled then status_stopped else status_failed) [] d
