-- ===== src/Tasks/Rows.antt =====
-- The turns of the worker, and the calls beside them, in internal/tasks/tasks.go keep the rows of the table.
use my_eink_library.Common.{
  ltb, if◌then◌else◌, Option-cases, count, count-append, count-update_raises, Text, ℕ, ◌≤◌, inl,
  inr, ◌&&◌, none, some, List, [], ◌∷◌, arith,
}
use my_eink_library.Tasks.{
  waiting, TaskDb, run_has_id, active_for, status_queued, status_running, status_stopped,
  status_failed,
}
use my_eink_library.Tasks.Queue.{
  enqueued, started, ended, stopped, Event, perform, enqueue, start_service, last_found, finish,
  perform_events, Turn, end_status, begin_run, claim_next, earliest, end_turn, work_turn,
  work_turns, new_run,
}
use my_eink_library.Tasks.Worker.{end_run}
use my_eink_library.Tasks.Turns.{claimed}

perform-rows :
    (bound : ℕ) (e : Event) (d : TaskDb)
    → count (λ r. ltb r.id bound) d.runs ≤ count (λ r. ltb r.id bound) (perform e d).runs
unfolding perform enqueue start_service finish
perform-rows bound (enqueued now task) d =
    elim (Option-cases (last_found (active_for task.key) d.runs)) [
      | inl missing ↦
          rw (perform, enqueue, missing)
            (omega (
              arith,
              count-append (λ r. ltb r.id bound) d.runs
                  (record (new_run task status_queued now none) { id = d.next_id } ∷ []),
            ))
      | inr (r, found) ↦ rw (perform, enqueue, found) (omega arith)
    ]
perform-rows bound (started now task) d = omega (
  arith,
  count-append (λ r. ltb r.id bound) d.runs
      (record (new_run task status_running now (some now)) { id = d.next_id } ∷ []),
)
perform-rows bound (ended now id result) d =
    count-update_raises (run_has_id id) (λ r. ltb r.id bound)
      (end_run now (end_status result).0 (end_status result).1) d.runs (λ _ h. h)
perform-rows bound (stopped now id cancelled) d =
    count-update_raises (run_has_id id) (λ r. ltb r.id bound)
      (end_run now (if cancelled then status_stopped else status_failed) []) d.runs (λ _ h. h)

perform_events-rows :
    (bound : ℕ) (events : List Event) (d : TaskDb)
    → count (λ r. ltb r.id bound) d.runs
      ≤ count (λ r. ltb r.id bound) (perform_events events d).runs
unfolding perform_events
perform_events-rows bound [] d = omega arith
perform_events-rows bound (e ∷ events) d =
    omega (arith, perform-rows bound e d, perform_events-rows bound events (perform e d))

work_turn-rows :
    (bound : ℕ) (names : Text → Text) (turn : Turn) (d : TaskDb)
    → count (λ r. ltb r.id bound) d.runs ≤ count (λ r. ltb r.id bound) (work_turn names turn d).runs
unfolding work_turn claim_next end_turn finish
work_turn-rows bound names turn d = elim (Option-cases (earliest d.runs)) [
  | inl missing ↦
      rw (work_turn, claim_next, missing, end_turn) (perform_events-rows bound turn.events d)
  | inr (r, found) ↦
      rw (work_turn, claim_next, found, end_turn)
        (let result = end_status (turn.handlers r.task_key) in
          let d1 = claimed bound 0 turn.claimed_at r d in
          omega (
            arith,
            count-update_raises (λ w. run_has_id r.id w && waiting w) (λ w. ltb w.id bound)
                (begin_run turn.claimed_at) d.runs (λ _ h. h),
            perform_events-rows bound turn.events d1,
            count-update_raises (run_has_id r.id) (λ w. ltb w.id bound)
                (end_run turn.ended_at result.0 result.1) (perform_events turn.events d1).runs
                (λ _ h. h),
          ))
]

pub work_turns-rows :
    (bound : ℕ) (names : Text → Text) (turns : List Turn) (d : TaskDb)
    → count (λ r. ltb r.id bound) d.runs
      ≤ count (λ r. ltb r.id bound) (work_turns names turns d).runs
unfolding work_turns
work_turns-rows bound names [] d = omega arith
work_turns-rows bound names (turn ∷ turns) d = omega (
  arith,
  work_turn-rows bound names turn d,
  work_turns-rows bound names turns (work_turn names turn d),
)
