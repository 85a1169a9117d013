-- ===== src/Tasks/Turns.antt =====
-- What a claim of `work` in internal/tasks/tasks.go does to the runs that were there before.
use my_eink_library.Common.{
  ltb, leb, ltb→lt, leb→le, ==_iff, ==_refl, Bool-cases, and_left, count, update, count_implied,
  count_split, Text, ℕ, ◌+◌, ◌-◌, ◌≤◌, ◌≡◌, refl, sym, ap, ◌∙◌, inl, inr, Bool, true, false, not,
  ◌&&◌, none, some, ◌∷◌, ◌++◌, arith,
}
use my_eink_library.Tasks.{
  is_active, is_queued, TaskRow, Status, status_queued, status_running, status_succeeded,
  status_failed, status_interrupted, status_stopped, waiting, TaskDb, run_has_id, is_queued,
}
use my_eink_library.Tasks.Queue.{begin_run, claim_next, earliest}
use my_eink_library.Tasks.Drain.{overtaken, earliest-some, earliest-row, lowered}
use my_eink_library.Tasks.Worker.{running, count-update-le, count_in, none_in, IsQuiet}

-- The runs whose ids are below `bound`: that wait, that run, that run and have another id, that wait
-- and were queued after `start`; and the others that were queued before it.
abbrev pub old_waiting : ℕ → TaskRow → Bool
old_waiting bound r = ltb r.id bound && waiting r

abbrev pub old_running : ℕ → TaskRow → Bool
old_running bound r = ltb r.id bound && running r

abbrev pub other_running : ℕ → ℕ → TaskRow → Bool
other_running bound id r = old_running bound r && not (run_has_id id r)

abbrev pub late : ℕ → ℕ → TaskRow → Bool
late bound start r = old_waiting bound r && ltb start r.queued_at

abbrev pub early : ℕ → ℕ → TaskRow → Bool
early bound start r = not (ltb r.id bound) && ltb r.queued_at start

inactive_waiting : (status : Status) → is_active status ≡ false → is_queued status ≡ false
inactive_waiting status_queued h = absurd (cc h)
inactive_waiting status_running h = refl
inactive_waiting status_succeeded h = refl
inactive_waiting status_failed h = refl
inactive_waiting status_interrupted h = refl
inactive_waiting status_stopped h = refl

module _ (bound start : ℕ) where
  new_id : (id : ℕ) → bound ≤ id → ltb id bound ≡ false
  new_id id h = elim (Bool-cases (ltb id bound)) [
    | inr no_less ↦ no_less
    | inl less ↦ absurd (omega (arith, h, ltb→lt id bound less))
  ]

  not_early : (now : ℕ) → start ≤ now → ltb now start ≡ false
  not_early now h = elim (Bool-cases (ltb now start)) [
    | inr no_less ↦ no_less
    | inl less ↦ absurd (omega (arith, h, ltb→lt now start less))
  ]

  pub waiting-IsQuiet : IsQuiet bound start (old_waiting bound)
  waiting-IsQuiet = record {
    appended = λ task status now id at h _. rw (new_id id h) refl;
    finished = λ now status error_text r over. ground (arith, over, inactive_waiting status over);
  }

  pub running-IsQuiet : IsQuiet bound start (old_running bound)
  running-IsQuiet = record {
    appended = λ task status now id at h _. rw (new_id id h) refl;
    finished = λ now status error_text r over. ground (arith, over);
  }

  pub other_running-IsQuiet : (k : ℕ) → IsQuiet bound start (other_running bound k)
  other_running-IsQuiet k = record {
    appended = λ task status now id at h _. rw (new_id id h) refl;
    finished = λ now status error_text r over. ground (arith, over);
  }

  pub late-IsQuiet : IsQuiet bound start (late bound start)
  late-IsQuiet = record {
    appended = λ task status now id at h _. rw (new_id id h) refl;
    finished = λ now status error_text r over. ground (arith, over);
  }

  pub early-IsQuiet : IsQuiet bound start (early bound start)
  early-IsQuiet = record {
    appended = λ task status now id at h after. ground (arith, not_early now after);
    finished = λ now status error_text r over h. h;
  }

  -- What a turn starts with: a count of no run that waits and was queued too late, and of no other run
  -- that was queued too early.
  pub record InTime (d : TaskDb) : Type 0 where
    pub later : bound ≤ d.next_id
    pub none_late : count (late bound start) d.runs ≡ 0
    pub none_early : count (early bound start) d.runs ≡ 0

  abbrev pub claimed : ℕ → TaskRow → TaskDb → TaskDb
  claimed now r d = record d {
    runs = update (λ w. run_has_id r.id w && waiting w) (begin_run now) d.runs;
  }

  pub claim_next-none :
      (now : ℕ) (names : Text → Text) (d : TaskDb)
      → earliest d.runs ≡ none
      → claim_next now names d ≡ (none, d)
  unfolding claim_next
  claim_next-none now names d h = rw (claim_next, h) refl

  -- If a run waits that was there before, then the one that is claimed was there before.
  claims_old :
      (d : TaskDb) (r : TaskRow)
      → InTime d
      → earliest d.runs ≡ some r
      → 1 ≤ count (old_waiting bound) d.runs
      → ltb r.id bound ≡ true
  claims_old d r timely found some_wait = elim (Bool-cases (ltb r.id bound)) [
    | inl before ↦ before
    | inr other ↦
        let (_, _, first_in) = earliest-some d.runs r found in
        let (front, behind, stands) = earliest-row d.runs r found in
        let none_early_here : count (early bound start) (front ++ (r ∷ behind)) ≡ 0 =
          ap (count (early bound start)) (sym stands) ∙ timely.none_early in
        let not_yet = none_in (early bound start) front behind r none_early_here in
        absurd (
          omega (
            arith,
            some_wait,
            first_in,
            timely.none_late,
            count_split (old_waiting bound) (λ w. ltb start w.queued_at) d.runs,
            count_implied (overtaken r) (λ w. old_waiting bound w && not (ltb start w.queued_at))
                d.runs (λ w. ground (arith, other, not_yet, ==_iff r.queued_at w.queued_at)),
          ))
  ]

  pub claimed-waiting :
      (now : ℕ) (d : TaskDb) (r : TaskRow)
      → InTime d
      → earliest d.runs ≡ some r
      → count (old_waiting bound) (claimed now r d).runs ≤ count (old_waiting bound) d.runs - 1
  claimed-waiting now d r timely found =
      elim (Bool-cases (leb 1 (count (old_waiting bound) d.runs))) [
        | inr no_one ↦ ground (arith, no_one, falls)
        | inl some_wait ↦ ground (
          arith,
          falls,
          there
              (claims_old d r timely found (leb→le 1 (count (old_waiting bound) d.runs) some_wait)),
        )
      ]
    where
      moved : TaskRow → Bool
      moved w = (run_has_id r.id w && waiting w) && old_waiting bound w

      falls :
          count (old_waiting bound) (claimed now r d).runs + count moved d.runs
          ≡ count (old_waiting bound) d.runs
      falls =
          lowered (λ w. run_has_id r.id w && waiting w) (old_waiting bound) (begin_run now) d.runs
            (λ w. ground arith)

      there : ltb r.id bound ≡ true → 1 ≤ count moved d.runs
      there old =
          let (waits, _, _) = earliest-some d.runs r found in
          let (front, behind, stands) = earliest-row d.runs r found in
          rw (stands) (count_in moved front behind r (ground (arith, waits, old, ==_refl r.id)))

  pub claimed-InTime : (now : ℕ) (d : TaskDb) (r : TaskRow) → InTime d → InTime (claimed now r d)
  claimed-InTime now d r timely = record {
    later = timely.later;
    none_late = omega (
      arith,
      timely.none_late,
      count-update-le (λ w. run_has_id r.id w && waiting w) (late bound start) (begin_run now)
          d.runs (λ w. ground arith),
    );
    none_early = omega (
      arith,
      timely.none_early,
      count-update-le (λ w. run_has_id r.id w && waiting w) (early bound start) (begin_run now)
          d.runs (λ w _ h. h),
    );
  }

  pub claimed-running :
      (now : ℕ) (d : TaskDb) (r : TaskRow)
      → count (other_running bound r.id) (claimed now r d).runs ≤ count (old_running bound) d.runs
  claimed-running now d r = omega (
    arith,
    count-update-le (λ w. run_has_id r.id w && waiting w) (other_running bound r.id) (begin_run now)
        d.runs (λ w. ground arith),
    count_implied (old_running bound) (other_running bound r.id) d.runs (λ w. and_left _ _),
  )
