-- ===== src/Tasks/Drain.antt =====
-- The queue of internal/tasks/tasks.go: runs that are active, and the order in which they are claimed.
use my_eink_library.Common.{
  if◌then◌else◌, leb→le, ==_iff, ==_refl, Bool-cases, Option-cases, and_left, count, exists, update,
  count-append, count_implied, exists_count, count_exists, Text, text_eq_refl, text_eq_iff, ℕ, ◌+◌,
  ◌≤◌, ◌≡◌, refl, ap, ◌∙◌, ◌⊎◌, inl, inr, Bool, true, false, not, ◌&&◌, none, some, List, [], ◌∷◌,
  ◌++◌, arith,
}
use my_eink_library.Tasks.{
  TaskRow, TaskDb, Task, active_for, is_active, waiting, status_queued, run_has_id, kind_job,
  status_running,
}
use my_eink_library.Tasks.Queue.{
  enqueue, last_found, scan_run, claim_next, new_run, recover_interrupted, queued_before, earliest,
  fresh_run, begin_run,
}

last_found-none :
    (p : TaskRow → Bool) (runs : List TaskRow) → last_found p runs ≡ none → count p runs ≡ 0
unfolding last_found count
last_found-none p [] h = refl
last_found-none p (r ∷ rs) h = elim (Option-cases (last_found p rs)) [
  | inl none_later ↦ ground (arith, h, none_later, last_found-none p rs none_later)
  | inr (w, later) ↦ absurd (ground (arith, h, later))
]

last_found-some :
    (p : TaskRow → Bool) (runs : List TaskRow) (w : TaskRow)
    → last_found p runs ≡ some w
    → (p w ≡ true) × (1 ≤ count p runs)
unfolding last_found count
last_found-some p [] w h = cc
last_found-some p (r ∷ rs) w h = elim (Option-cases (last_found p rs)) [
  | inl none_later ↦ ground (arith, h, none_later)
  | inr (v, later) ↦ ground (arith, h, later, last_found-some p rs v later)
]

-- Enqueue makes a run exactly if the task has none that is queued or running, and otherwise leaves
-- the number of those as it is. The run that it returns is of that task, and queued or running.
pub enqueue_lem :
    (now : ℕ) (task : Task) (d : TaskDb)
    → ((enqueue now task d).0.1 ≡ not (exists (active_for task.key) d.runs))
      × (count (active_for task.key) (enqueue now task d).1.runs
          ≡ (if exists (active_for task.key) d.runs then count (active_for task.key) d.runs else 1))
      × ((enqueue now task d).0.0.task_key ≡ task.key)
      × (is_active (enqueue now task d).0.0.status ≡ true)
unfolding enqueue scan_run count
enqueue_lem now task d = elim (Option-cases (last_found (active_for task.key) d.runs)) [
  | inl missing ↦ ground (
    arith,
    missing,
    last_found-none (active_for task.key) d.runs missing,
    exists_count (active_for task.key) d.runs,
    count-append (active_for task.key) d.runs
        (record (new_run task status_queued now none) { id = d.next_id } ∷ []),
    text_eq_refl task.key,
  )
  | inr (r, found) ↦ ground (
    arith,
    found,
    last_found-some (active_for task.key) d.runs r found,
    count_exists (active_for task.key) d.runs,
    text_eq_iff r.task_key task.key,
  )
]

none_left :
    (p : TaskRow → Bool) (f : TaskRow → TaskRow) (runs : List TaskRow)
    → ((r : TaskRow) → p (f r) ≡ false)
    → count p (update p f runs) ≡ 0
unfolding count update
none_left p f [] h = refl
none_left p f (r ∷ rs) h = ground (arith, h r, none_left p f rs h)

-- After RecoverInterrupted no run is queued or running.
pub recover_interrupted-active :
    (now : ℕ) (d : TaskDb) → count (λ r. is_active r.status) (recover_interrupted now d).runs ≡ 0
unfolding recover_interrupted
recover_interrupted-active now d = none_left (λ r. is_active r.status) _ d.runs (λ r. refl)

before_refl : (a : TaskRow) → queued_before a a ≡ true
before_refl a = ground (arith, ==_refl a.queued_at, leb→le a.id a.id)

before_total : (a b : TaskRow) → queued_before a b ≡ false → queued_before b a ≡ true
before_total a b h =
    ground (arith, h, ==_iff a.queued_at b.queued_at, ==_iff b.queued_at a.queued_at)

before_trans :
    (a b c : TaskRow)
    → queued_before a b ≡ true
    → queued_before b c ≡ true
    → queued_before a c ≡ true
before_trans a b c h k = ground (
  arith,
  h,
  k,
  ==_iff a.queued_at b.queued_at,
  ==_iff b.queued_at c.queued_at,
  ==_iff a.queued_at c.queued_at,
)

-- A waiting run that `r` does not stand before.
abbrev pub overtaken : TaskRow → TaskRow → Bool
overtaken r w = waiting w && not (queued_before r w)

pub earliest-none : (runs : List TaskRow) → earliest runs ≡ none → count waiting runs ≡ 0
unfolding earliest count
earliest-none [] h = refl
earliest-none (r ∷ rs) h = ground (arith, h, earliest-none rs)

pub earliest-some :
    (runs : List TaskRow) (r : TaskRow)
    → earliest runs ≡ some r
    → (waiting r ≡ true)
      × (1 ≤ count (λ w. run_has_id r.id w && waiting w) runs)
      × (count (overtaken r) runs ≡ 0)
unfolding earliest count
earliest-some [] r h = cc
earliest-some (v ∷ rs) r h = elim (Option-cases (earliest rs)) [
  | inl last_one ↦ ground (
    arith,
    h,
    last_one,
    before_refl v,
    ==_refl v.id,
    earliest-none rs last_one,
    count_implied waiting (overtaken r) rs (λ x. and_left _ _),
  )
  | inr (w, later) ↦ elim (Bool-cases (waiting v)) [
    | inr done ↦ ground (arith, h, later, done, earliest-some rs w later)
    | inl waits ↦ elim (Bool-cases (queued_before v w)) [
      | inl sooner ↦ ground (
        arith,
        h,
        later,
        waits,
        sooner,
        before_refl v,
        ==_refl v.id,
        earliest-some rs w later,
        count_implied (overtaken w) (overtaken v) rs
            (λ x. ground (arith, before_trans v w x sooner)),
      )
      | inr no_sooner ↦
          ground (
            arith,
            h,
            later,
            waits,
            no_sooner,
            before_total v w no_sooner,
            earliest-some rs w later,
          )
    ]
  ]
]

-- The run is a row of the table.
pub earliest-row :
    (runs : List TaskRow) (r : TaskRow)
    → earliest runs ≡ some r
    → (before : List TaskRow) × (behind : List TaskRow) × (runs ≡ before ++ (r ∷ behind))
unfolding earliest
earliest-row [] r h = absurd (cc h)
earliest-row (v ∷ rs) r h = elim (Option-cases (earliest rs)) [
  | inl last_one ↦ ([], rs, ap (λ x. x ∷ rs) (ground (arith, h, last_one)))
  | inr (w, later) ↦ elim (Bool-cases (waiting v && queued_before v w)) [
    | inl own ↦ ([], rs, ap (λ x. x ∷ rs) (ground (arith, h, later, own)))
    | inr other ↦
        let (before, behind, e) = earliest-row rs r (later ∙ ground (arith, h, later, other)) in
        (v ∷ before, behind, ap (λ x. v ∷ x) e)
  ]
]

pub lowered :
    (p q : TaskRow → Bool) (f : TaskRow → TaskRow) (runs : List TaskRow)
    → ((r : TaskRow) → q (f r) ≡ false)
    → count q (update p f runs) + count (λ r. p r && q r) runs ≡ count q runs
unfolding count update
lowered p q f [] h = refl
lowered p q f (r ∷ rs) h = ground (arith, h r, lowered p q f rs h)

-- Either no run waits and claimNext changes nothing, or the run that it claims is a row of the table that
-- was waiting, no waiting run came before it in the order of queue time and id, and as many runs fewer
-- wait afterwards as had its id.
pub claim_next_lem :
    (now : ℕ) (names : Text → Text) (d : TaskDb)
    → ((count waiting d.runs ≡ 0) × (claim_next now names d ≡ (none, d)))
      ⊎ ((r : TaskRow) × (before : List TaskRow) × (behind : List TaskRow) × (d.runs
            ≡ before ++ (r ∷ behind))
          × (waiting r ≡ true)
          × (count (overtaken r) d.runs ≡ 0)
          × ((claim_next now names d).0
              ≡ some (
                  fresh_run r.id r.task_key
                    (names r.task_key)
                    kind_job
                    status_running
                    now
                    (some now)))
          × (count waiting (claim_next now names d).1.runs
                + count (λ w. run_has_id r.id w && waiting w) d.runs
              ≡ count waiting d.runs))
unfolding claim_next
claim_next_lem now names d = elim (Option-cases (earliest d.runs)) [
  | inl missing ↦ inl (earliest-none d.runs missing, rw (missing, claim_next))
  | inr (r, found) ↦
      let (waits, there, first_in) = earliest-some d.runs r found in
      let (before, behind, stands) = earliest-row d.runs r found in
      inr (
        r,
        before,
        behind,
        stands,
        waits,
        first_in,
        ground (arith, found),
        rw (found, claim_next)
            (ground (
              arith,
              there,
              lowered (λ w. run_has_id r.id w && waiting w) waiting (begin_run now) d.runs
                  (λ w. refl),
              count_implied (λ w. run_has_id r.id w && waiting w)
                  (λ w. (run_has_id r.id w && waiting w) && waiting w) d.runs (λ w. and_left _ _),
              count_implied (λ w. (run_has_id r.id w && waiting w) && waiting w)
                  (λ w. run_has_id r.id w && waiting w) d.runs (λ w. ground arith),
            )),
      )
]
