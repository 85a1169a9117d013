-- ===== src/Tasks/Examples.antt =====
-- The theorems on tasks at a small queue.
use my_eink_library.Common.{
  ltb, indicator, count, exists, Text, codes, text_eq, ℕ, ◌+◌, ◌≤◌, ◌≡◌, refl, ◌⊎◌, true, false,
  not, ◌&&◌, none, some, List, [], ◌∷◌, ◌++◌, arith,
}
use my_eink_library.Tasks.{
  TaskDb, waiting, is_active, Task, kind_job, active_for, TaskRow, status_queued, status_running,
  run_has_id,
}
use my_eink_library.Tasks.Queue.{
  enqueue, append_run, claim_next, enqueued, Turn, work_turns, new_run, fresh_run,
}
use my_eink_library.Tasks.Drain.{overtaken, enqueue_lem, claim_next_lem}
use my_eink_library.Tasks.Worker.{running}
use my_eink_library.Tasks.Turns.{old_waiting, old_running}
use my_eink_library.Tasks.Ended.{work_turns-ended}
use my_eink_library.Tasks.Registry.{listed, register_all, new_registry, has_key, register_all-order}

abbrev scan : Task
scan = record { key = codes "scan"; name = codes "Scan library"; kind = kind_job; runnable = true }

abbrev empty_queue : TaskDb
empty_queue = record { runs = []; next_id = 1 }

abbrev two_waiting : TaskDb
two_waiting =
    append_run (new_run scan status_queued 7 none)
      (append_run (new_run scan status_queued 8 none) empty_queue)

abbrev plain_names : Text → Text
plain_names key = key

enqueue_lem_example :
    ((enqueue 9 scan two_waiting).0.1 ≡ not (exists (active_for (codes "scan")) two_waiting.runs))
    × (count (active_for (codes "scan")) (enqueue 9 scan two_waiting).1.runs ≡ 2)
    × ((enqueue 9 scan two_waiting).0.0.task_key ≡ codes "scan")
    × (is_active (enqueue 9 scan two_waiting).0.0.status ≡ true)
unfolding exists count text_eq
enqueue_lem_example = enqueue_lem 9 scan two_waiting

claim_next_lem_example :
    ((count waiting two_waiting.runs ≡ 0)
      × (claim_next 9 plain_names two_waiting ≡ (none, two_waiting)))
    ⊎ ((r : TaskRow) × (before : List TaskRow) × (behind : List TaskRow) × (two_waiting.runs
          ≡ before ++ (r ∷ behind))
        × (waiting r ≡ true)
        × (count (overtaken r) two_waiting.runs ≡ 0)
        × ((claim_next 9 plain_names two_waiting).0
            ≡ some (fresh_run r.id r.task_key r.task_key kind_job status_running 9 (some 9)))
        × (count waiting (claim_next 9 plain_names two_waiting).1.runs
              + count (λ w. run_has_id r.id w && waiting w) two_waiting.runs
            ≡ count waiting two_waiting.runs))
claim_next_lem_example = claim_next_lem 9 plain_names two_waiting

-- A turn in which the task is enqueued again, and whose handler fails.
abbrev failing_turn : ℕ → Turn
failing_turn now = record {
  claimed_at = now;
  handlers = λ key. some (some (codes "no route to host"));
  events = enqueued now scan ∷ [];
  ended_at = now + 1;
}

work_turns-ended_example :
    (count
        (old_waiting 3)
        (work_turns plain_names (failing_turn 9 ∷ failing_turn 11 ∷ []) two_waiting).runs
      ≡ 0)
    × (count
          (old_running 3)
          (work_turns plain_names (failing_turn 9 ∷ failing_turn 11 ∷ []) two_waiting).runs
        ≤ count running two_waiting.runs)
    × (count (λ r. ltb r.id 3) two_waiting.runs
        ≤ count
            (λ r. ltb r.id 3)
            (work_turns plain_names (failing_turn 9 ∷ failing_turn 11 ∷ []) two_waiting).runs)
unfolding count
work_turns-ended_example =
    work_turns-ended 8 plain_names (failing_turn 9 ∷ failing_turn 11 ∷ []) two_waiting refl refl
      ((omega arith, tt), ((omega arith, tt), tt)) (omega arith)

register_all-order_example :
    listed (codes "scan") (register_all ((scan, true) ∷ (scan, false) ∷ []) new_registry)
    ≡ indicator (
        exists
          (has_key (codes "scan"))
          (register_all ((scan, true) ∷ (scan, false) ∷ []) new_registry).tasks)
register_all-order_example = register_all-order ((scan, true) ∷ (scan, false) ∷ []) (codes "scan")
