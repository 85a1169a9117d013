-- ===== src/Tasks/Queue.antt =====
-- The methods of Store in internal/tasks/tasks.go.
use my_eink_library.Common.{
  ltb, leb, ◌==◌, if◌then◌else◌, find?, select, update, take, sort_by, Text, codes, ℕ, ◌+◌, ◌-◌,
  ◌*◌, Bool, true, false, ◌&&◌, ◌||◌, Option, none, some, List, [], ◌∷◌, ◌++◌, map,
}
use my_eink_library.Tasks.{
  Task, TaskDb, Kind, Status, TaskRow, Run, is_active, waiting, status_running, run_has_id,
  status_interrupted, active_for, kind_job, is_job, status_queued, status_failed, status_succeeded,
  Bytes, status_stopped,
}

-- Rows of before durations were tracked hold Unix seconds.
unfoldable pub unix_time : Option ℕ → Option ℕ
unix_time none = none
unix_time (some n) = if n == 0 then none else if ltb n 100000000000 then some (n * 1000) else some n

-- The duration, where both times are there; a run that ends before it starts is not modelled.
abbrev pub duration_of : Option ℕ → Option ℕ → ℕ
duration_of (some started) (some finished) = finished - started
duration_of _ _ = 0

unfoldable pub scan_run : Text → TaskRow → Run
unfolding unix_time
scan_run name r = record {
  id = r.id;
  task_key = r.task_key;
  task_name = name;
  kind = r.kind;
  status = r.status;
  queued_at = unix_time (some r.queued_at);
  started_at = unix_time r.started_at;
  finished_at = unix_time r.finished_at;
  duration = duration_of (unix_time r.started_at) (unix_time r.finished_at);
  error = r.error_text;
}

unfoldable pub run_of : ℕ → Text → TaskDb → Option Run
unfolding scan_run
run_of id name d = elim (find? (run_has_id id) d.runs) [
  | none ↦ none
  | some r ↦ some (scan_run name r)
]

unfoldable pub recover_interrupted : ℕ → TaskDb → TaskDb
recover_interrupted now d = record d {
  runs =
      update (λ r. is_active r.status)
        (λ r. record r { status = status_interrupted; finished_at = some now }) d.runs;
}

abbrev pub append_run : TaskRow → TaskDb → TaskDb
append_run row d = record d {
  runs = d.runs ++ record row { id = d.next_id } ∷ [];
  next_id = d.next_id + 1;
}

abbrev pub new_run : Task → Status → ℕ → Option ℕ → TaskRow
new_run task status now started = record {
  id = 0;
  task_key = task.key;
  kind = task.kind;
  status = status;
  queued_at = now;
  started_at = started;
  finished_at = none;
  error_text = [];
}

-- What a method returns of a run that it has just written.
abbrev pub fresh_run : ℕ → Text → Text → Kind → Status → ℕ → Option ℕ → Run
fresh_run id key name kind status now started = record {
  id = id;
  task_key = key;
  task_name = name;
  kind = kind;
  status = status;
  queued_at = some now;
  started_at = started;
  finished_at = none;
  duration = 0;
  error = [];
}

-- ORDER BY id DESC LIMIT 1, of rows in the order of their ids
unfoldable pub last_found : (TaskRow → Bool) → List TaskRow → Option TaskRow
last_found p [] = none
last_found p (r ∷ rs) = elim (last_found p rs) [
  | some w ↦ some w
  | none ↦ if p r then some r else none
]

-- The run, and whether it was created.
unfoldable pub enqueue : ℕ → Task → TaskDb → (Run × Bool) × TaskDb
unfolding scan_run
enqueue now task d = elim (last_found (active_for task.key) d.runs) [
  | some r ↦ ((scan_run task.name r, false), d)
  | none ↦ (
    (fresh_run d.next_id task.key task.name task.kind status_queued now none, true),
    append_run (new_run task status_queued now none) d,
  )
]

unfoldable pub start_service : ℕ → Task → TaskDb → Run × TaskDb
start_service now task d = (
  fresh_run d.next_id task.key task.name task.kind status_running now (some now),
  append_run (new_run task status_running now (some now)) d,
)

-- queued_at, id
abbrev pub queued_before : TaskRow → TaskRow → Bool
queued_before a b = ltb a.queued_at b.queued_at || ((a.queued_at == b.queued_at) && leb a.id b.id)

abbrev pub earlier_of : TaskRow → Option TaskRow → TaskRow
earlier_of r none = r
earlier_of r (some w) = if queued_before r w then r else w

-- status = 'queued' ORDER BY queued_at, id LIMIT 1
unfoldable pub earliest : List TaskRow → Option TaskRow
earliest [] = none
earliest (r ∷ rs) = let rest = earliest rs in if waiting r then some (earlier_of r rest) else rest

abbrev pub begin_run : ℕ → TaskRow → TaskRow
begin_run now r = record r { status = status_running; started_at = some now }

-- `names` gives the name of a key, or an empty text.
unfoldable pub claim_next : ℕ → (Text → Text) → TaskDb → Option Run × TaskDb
unfolding earliest
claim_next now names d = elim (earliest d.runs) [
  | none ↦ (none, d)
  | some r ↦ (
    some (fresh_run r.id r.task_key (names r.task_key) kind_job status_running now (some now)),
    record d { runs = update (λ w. run_has_id r.id w && waiting w) (begin_run now) d.runs },
  )
]

-- The text of an error is cut after 1000 bytes.
unfoldable pub finish : ℕ → ℕ → Status → Bytes → TaskDb → TaskDb
finish now id status error_text d = record d {
  runs =
      update (run_has_id id)
        (λ r. record r {
          status = status;
          finished_at = some now;
          error_text = take 1000 error_text;
        })
        d.runs;
}

-- kind = 'job' ORDER BY id DESC LIMIT ?
unfoldable pub history : (Text → Text) → ℕ → TaskDb → List Run
unfolding scan_run
history names limit d =
    map (λ r. scan_run (names r.task_key) r)
      (take limit (sort_by (λ a b. leb b.id a.id) (select (λ r. is_job r.kind) d.runs)))

-- The end of a run: no handler, or a handler that returns an error or nothing.
abbrev pub end_status : Option (Option Bytes) → Status × Bytes
end_status none = (status_failed, codes "no task handler registered")
end_status (some none) = (status_succeeded, [])
end_status (some (some error_text)) = (status_failed, error_text)

-- A call on the store that is made while a run is worked on, by its handler or by anyone else: Enqueue,
-- the start of a service or of Run, and their ends.
pub data Event : Type 0 where
  enqueued started : (now : ℕ) (task : Task) → Event
  ended : (now id : ℕ) (result : Option (Option Bytes)) → Event
  stopped : (now id : ℕ) (cancelled : Bool) → Event

unfoldable pub perform : Event → TaskDb → TaskDb
unfolding enqueue start_service finish
perform (enqueued now task) d = (enqueue now task d).1
perform (started now task) d = (start_service now task d).1
perform (ended now id result) d = finish now id (end_status result).0 (end_status result).1 d
perform (stopped now id cancelled) d =
    finish now id (if cancelled then status_stopped else status_failed) [] d

unfoldable pub perform_events : List Event → TaskDb → TaskDb
unfolding perform
perform_events [] d = d
perform_events (e ∷ events) d = perform_events events (perform e d)

-- One turn of the loop of `work`: when a run is claimed, what the handler of a key returns in this turn,
-- if there is one, the calls that are made meanwhile, and when the run is ended.
pub record Turn : Type 0 where
  pub claimed_at : ℕ
  pub handlers : Text → Option (Option Bytes)
  pub events : List Event
  pub ended_at : ℕ

unfoldable pub end_turn : Turn → Option Run → TaskDb → TaskDb
unfolding finish
end_turn turn none d = d
end_turn turn (some run) d =
    finish turn.ended_at run.id (end_status (turn.handlers run.task_key)).0
      (end_status (turn.handlers run.task_key)).1 d

unfoldable pub work_turn : (Text → Text) → Turn → TaskDb → TaskDb
unfolding claim_next end_turn perform_events
work_turn names turn d =
    end_turn turn (claim_next turn.claimed_at names d).0
      (perform_events turn.events (claim_next turn.claimed_at names d).1)

unfoldable pub work_turns : (Text → Text) → List Turn → TaskDb → TaskDb
unfolding work_turn
work_turns names [] d = d
work_turns names (turn ∷ turns) d = work_turns names turns (work_turn names turn d)
