-- ===== src/Tasks/Ended.antt =====
-- The loop of `work` in internal/tasks/tasks.go: it ends the runs that wait, whatever is enqueued meanwhile.
use my_eink_library.Common.{
  ltb, leb, Option-cases, and_right, count, length, count_implied, Text, ℕ, ◌-◌, ◌≤◌, ◌≡◌, inl, inr,
  ◌&&◌, Option, none, some, List, [], ◌∷◌, arith,
}
use my_eink_library.Tasks.{TaskRow, waiting, TaskDb, run_has_id}
use my_eink_library.Tasks.Queue.{
  Event, finish, perform_events, Turn, end_status, claim_next, earliest, end_turn, work_turn,
  work_turns,
}
use my_eink_library.Tasks.Drain.{earliest-none}
use my_eink_library.Tasks.Worker.{
  running, EventsAfter, TurnsAfter, end_run, count-update_moved, ended_inactive, finish-le,
  perform_events-Keeps,
}
use my_eink_library.Tasks.Rows.{work_turns-rows}
use my_eink_library.Tasks.Turns.{
  old_waiting, old_running, other_running, late, early, InTime, claimed, claimed-waiting,
  claimed-InTime, claimed-running, late-IsQuiet, waiting-IsQuiet, early-IsQuiet, running-IsQuiet,
  other_running-IsQuiet,
}
use my_eink_library.Encoding.Utf8.{Bytes}

module _ (bound start : ℕ) where
  events-InTime :
      (events : List Event) (d : TaskDb)
      → EventsAfter start events
      → InTime bound start d
      → InTime bound start (perform_events events d)
  events-InTime events d after timely =
      let no_late =
        perform_events-Keeps bound start (late bound start) events d (late-IsQuiet bound start)
          timely.later after in
      let no_early =
        perform_events-Keeps bound start (early bound start) events d (early-IsQuiet bound start)
          timely.later after in
      record {
        later = no_late.later;
        none_late = omega (arith, no_late.fewer, timely.none_late);
        none_early = omega (arith, no_early.fewer, timely.none_early);
      }

  finish-InTime :
      (now id : ℕ) (result : Option (Option Bytes)) (d : TaskDb)
      → InTime bound start d
      → InTime bound start (finish now id (end_status result).0 (end_status result).1 d)
  unfolding finish
  finish-InTime now id result d timely = record {
    later = timely.later;
    none_late = omega (
      arith,
      timely.none_late,
      finish-le bound start (late bound start) now id (end_status result).0 (end_status result).1 d
          (late-IsQuiet bound start) (ended_inactive result),
    );
    none_early = omega (
      arith,
      timely.none_early,
      finish-le bound start (early bound start) now id (end_status result).0 (end_status result).1 d
          (early-IsQuiet bound start) (ended_inactive result),
    );
  }

  -- The run that is ended runs no more.
  finish-running :
      (now id : ℕ) (result : Option (Option Bytes)) (d : TaskDb)
      → count (old_running bound) (finish now id (end_status result).0 (end_status result).1 d).runs
        ≤ count (other_running bound id) d.runs
  unfolding finish
  finish-running now id result d =
      count-update_moved (run_has_id id) (old_running bound) (other_running bound id)
        (end_run now (end_status result).0 (end_status result).1) d.runs
        (λ r _. ground (arith, ended_inactive result)) (λ r. ground arith)

  record Turned (d d' : TaskDb) : Type 0 where
    in_time : InTime bound start d'
    fewer_wait : count (old_waiting bound) d'.runs ≤ count (old_waiting bound) d.runs - 1
    none_more : count (old_running bound) d'.runs ≤ count (old_running bound) d.runs

  work_turn-Turned :
      (names : Text → Text) (turn : Turn) (d : TaskDb)
      → EventsAfter start turn.events
      → InTime bound start d
      → Turned d (work_turn names turn d)
  unfolding work_turn claim_next end_turn
  work_turn-Turned names turn d after timely = elim (Option-cases (earliest d.runs)) [
    | inl missing ↦ rw (work_turn, claim_next, missing, end_turn) (idle missing)
    | inr (r, found) ↦ rw (work_turn, claim_next, found, end_turn) (busy r found)
  ]
    where
      idle : earliest d.runs ≡ none → Turned d (perform_events turn.events d)
      idle missing =
          let w =
            perform_events-Keeps bound start (old_waiting bound) turn.events d
              (waiting-IsQuiet bound start) timely.later after in
          let g =
            perform_events-Keeps bound start (old_running bound) turn.events d
              (running-IsQuiet bound start) timely.later after in
          record {
            in_time = events-InTime turn.events d after timely;
            fewer_wait = omega (
              arith,
              w.fewer,
              earliest-none d.runs missing,
              count_implied waiting (old_waiting bound) d.runs (λ x. and_right _ _),
            );
            none_more = g.fewer;
          }

      busy :
          (r : TaskRow)
          → earliest d.runs ≡ some r
          → Turned d (
              finish turn.ended_at r.id
                (end_status (turn.handlers r.task_key)).0
                (end_status (turn.handlers r.task_key)).1
                (perform_events turn.events (claimed bound start turn.claimed_at r d)))
      busy r found =
          let result = turn.handlers r.task_key in
          let d1 = claimed bound start turn.claimed_at r d in
          let then_timely = claimed-InTime bound start turn.claimed_at d r timely in
          let w =
            perform_events-Keeps bound start (old_waiting bound) turn.events d1
              (waiting-IsQuiet bound start) then_timely.later after in
          let g =
            perform_events-Keeps bound start (other_running bound r.id) turn.events d1
              (other_running-IsQuiet bound start r.id) then_timely.later after in
          let d2 = perform_events turn.events d1 in
          record {
            in_time =
                finish-InTime turn.ended_at r.id result d2
                  (events-InTime turn.events d1 after then_timely);
            fewer_wait = omega (
              arith,
              w.fewer,
              claimed-waiting bound start turn.claimed_at d r timely found,
              finish-le bound start (old_waiting bound) turn.ended_at r.id (end_status result).0
                  (end_status result).1 d2 (waiting-IsQuiet bound start) (ended_inactive result),
            );
            none_more = omega (
              arith,
              g.fewer,
              claimed-running bound start turn.claimed_at d r,
              finish-running turn.ended_at r.id result d2,
            );
          }

  work_turns-Turned :
      (names : Text → Text) (turns : List Turn) (d : TaskDb)
      → TurnsAfter start turns
      → InTime bound start d
      → (count (old_waiting bound) (work_turns names turns d).runs
          ≤ count (old_waiting bound) d.runs - length turns)
        × (count (old_running bound) (work_turns names turns d).runs
            ≤ count (old_running bound) d.runs)
  unfolding work_turns
  work_turns-Turned names [] d _ timely = (omega arith, omega arith)
  work_turns-Turned names (turn ∷ turns) d (after, rest) timely =
      let one = work_turn-Turned names turn d after timely in
      let (waits, runs) = work_turns-Turned names turns (work_turn names turn d) rest one.in_time in
      (omega (arith, waits, one.fewer_wait), omega (arith, runs, one.none_more))

-- Where every id is below the next one, no waiting run was queued after a time and no call is made before
-- that time, as many turns of the worker as runs wait, or more, end them, whatever the handlers return and
-- whatever is enqueued, started or ended meanwhile: of the runs with those ids, which are all still there,
-- none waits afterwards, and no more are running than were before.
pub work_turns-ended :
    (start : ℕ) (names : Text → Text) (turns : List Turn) (d : TaskDb)
    → count (λ r. leb d.next_id r.id) d.runs ≡ 0
    → count (λ r. waiting r && ltb start r.queued_at) d.runs ≡ 0
    → TurnsAfter start turns
    → count waiting d.runs ≤ length turns
    → (count (old_waiting d.next_id) (work_turns names turns d).runs ≡ 0)
      × (count (old_running d.next_id) (work_turns names turns d).runs ≤ count running d.runs)
      × (count (λ r. ltb r.id d.next_id) d.runs
          ≤ count (λ r. ltb r.id d.next_id) (work_turns names turns d).runs)
work_turns-ended start names turns d ids in_time after enough =
    let (waits, runs) = work_turns-Turned d.next_id start names turns d after timely in
    (
      omega (
        arith,
        waits,
        enough,
        count_implied waiting (old_waiting d.next_id) d.runs (λ _. and_right _ _),
      ),
      omega
          (arith, runs, count_implied running (old_running d.next_id) d.runs (λ _. and_right _ _)),
      work_turns-rows d.next_id names turns d,
    )
  where
    timely : InTime d.next_id start d
    timely = record {
      later = omega arith;
      none_late = omega (
        arith,
        in_time,
        count_implied (λ r. waiting r && ltb start r.queued_at) (late d.next_id start) d.runs
            (λ _. ground arith),
      );
      none_early = omega (
        arith,
        ids,
        count_implied (λ r. leb d.next_id r.id) (early d.next_id start) d.runs (λ _. ground arith),
      );
    }
