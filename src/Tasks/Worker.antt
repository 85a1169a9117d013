-- ===== src/Tasks/Worker.antt =====
-- What the calls on the store of internal/tasks/tasks.go that are made while `work` works on a run do to
-- the counts of rows that were there before.
use my_eink_library.Common.{
  if◌then◌else◌, Bool-cases, Option-cases, count, update, count-append, take, All, ℕ, ◌≤◌, ◌≡◌,
  refl, inl, inr, Bool, true, false, not, ◌&&◌, Option, none, some, List, [], ◌∷◌, ◌++◌, arith,
}
use my_eink_library.Tasks.Queue.{
  enqueued, started, ended, stopped, perform, last_found, finish, perform_events, Turn, Event,
  end_status, enqueue, new_run, append_run, start_service,
}
use my_eink_library.Tasks.{
  is_active, TaskRow, Status, waiting, status_stopped, Task, TaskDb, status_failed, run_has_id,
  active_for, status_queued, status_running,
}
use my_eink_library.Encoding.Utf8.{Bytes}

abbrev pub running : TaskRow → Bool
running r = is_active r.status && not (waiting r)

abbrev pub time_of : Event → ℕ
time_of (enqueued now task) = now
time_of (started now task) = now
time_of (ended now id result) = now
time_of (stopped now id cancelled) = now

abbrev pub EventsAfter : ℕ → List Event → Type 0
EventsAfter start events = All (λ e. start ≤ time_of e) events

abbrev pub TurnsAfter : ℕ → List Turn → Type 0
TurnsAfter start turns = All (λ turn. EventsAfter start turn.events) turns

abbrev pub end_run : ℕ → Status → Bytes → TaskRow → TaskRow
end_run now status error_text r = record r {
  status = status;
  finished_at = some now;
  error_text = take 1000 error_text;
}

pub count-update-le :
    (p q : TaskRow → Bool) (f : TaskRow → TaskRow) (runs : List TaskRow)
    → ((r : TaskRow) → p r ≡ true → q (f r) ≡ true → q r ≡ true)
    → count q (update p f runs) ≤ count q runs
unfolding count update
count-update-le p q f [] h = omega arith
count-update-le p q f (r ∷ runs) h = ground (arith, h r, count-update-le p q f runs h)

-- Rows that are changed are not counted any more, and others are counted otherwise before.
pub count-update_moved :
    (p q q' : TaskRow → Bool) (f : TaskRow → TaskRow) (runs : List TaskRow)
    → ((r : TaskRow) → p r ≡ true → q (f r) ≡ false)
    → ((r : TaskRow) → p r ≡ false → q r ≡ true → q' r ≡ true)
    → count q (update p f runs) ≤ count q' runs
unfolding count update
count-update_moved p q q' f [] h k = omega arith
count-update_moved p q q' f (r ∷ runs) h k =
    ground (arith, h r, k r, count-update_moved p q q' f runs h k)

pub count_in :
    (q : TaskRow → Bool) (before behind : List TaskRow) (r : TaskRow)
    → q r ≡ true
    → 1 ≤ count q (before ++ (r ∷ behind))
unfolding count
count_in q [] behind r h = ground (arith, h)
count_in q (x ∷ before) behind r h = ground (arith, count_in q before behind r h)

pub none_in :
    (q : TaskRow → Bool) (before behind : List TaskRow) (r : TaskRow)
    → count q (before ++ (r ∷ behind)) ≡ 0
    → q r ≡ false
none_in q before behind r h = elim (Bool-cases (q r)) [
  | inr no_more ↦ no_more
  | inl there ↦ absurd (omega (arith, h, count_in q before behind r there))
]

pub ended_inactive : (result : Option (Option Bytes)) → is_active (end_status result).0 ≡ false
ended_inactive none = refl
ended_inactive (some none) = refl
ended_inactive (some (some e)) = refl

stopped_inactive :
    (cancelled : Bool) → is_active (if cancelled then status_stopped else status_failed) ≡ false
stopped_inactive true = refl
stopped_inactive false = refl

-- `bound` is the next id at the start, and `start` its time.
module _ (bound start : ℕ) where
  -- A count of rows to which neither a new row nor an ended one is added.
  pub record IsQuiet (q : TaskRow → Bool) : Type 0 where
    pub appended :
        (task : Task) (status : Status) (now id : ℕ) (at : Option ℕ)
        → bound ≤ id
        → start ≤ now
        → q (record (new_run task status now at) { id = id }) ≡ false
    pub finished :
        (now : ℕ) (status : Status) (error_text : Bytes) (r : TaskRow)
        → is_active status ≡ false
        → q (end_run now status error_text r) ≡ true
        → q r ≡ true

  pub finish-le :
      (q : TaskRow → Bool) (now id : ℕ) (status : Status) (error_text : Bytes) (d : TaskDb)
      → IsQuiet q
      → is_active status ≡ false
      → count q (finish now id status error_text d).runs ≤ count q d.runs
  unfolding finish
  finish-le q now id status error_text d quiet over =
      count-update-le (run_has_id id) q (end_run now status error_text) d.runs
        (λ r _ h. quiet.finished now status error_text r over h)

  append-le :
      (q : TaskRow → Bool) (task : Task) (status : Status) (now : ℕ) (at : Option ℕ) (d : TaskDb)
      → IsQuiet q
      → bound ≤ d.next_id
      → start ≤ now
      → count q (append_run (new_run task status now at) d).runs ≤ count q d.runs
  unfolding count
  append-le q task status now at d quiet later after = omega (
    arith,
    count-append q d.runs (record (new_run task status now at) { id = d.next_id } ∷ []),
    none_counted q (record (new_run task status now at) { id = d.next_id })
        (quiet.appended task status now d.next_id at later after),
  )
    where
      none_counted : (q : TaskRow → Bool) (r : TaskRow) → q r ≡ false → count q (r ∷ []) ≡ 0
      none_counted q r h = rw h refl

  -- What an event does to such a count and to the next id.
  pub record Keeps (q : TaskRow → Bool) (d d' : TaskDb) : Type 0 where
    pub fewer : count q d'.runs ≤ count q d.runs
    pub later : bound ≤ d'.next_id

  perform-Keeps :
      (q : TaskRow → Bool) (e : Event) (d : TaskDb)
      → IsQuiet q
      → bound ≤ d.next_id
      → start ≤ time_of e
      → Keeps q d (perform e d)
  unfolding perform enqueue start_service finish
  perform-Keeps q (enqueued now task) d quiet later after =
      elim (Option-cases (last_found (active_for task.key) d.runs)) [
        | inl missing ↦
            rw (perform, enqueue, missing)
              (record {
                fewer = append-le q task status_queued now none d quiet later after;
                later = omega (arith, later);
              })
        | inr (r, found) ↦
            rw (perform, enqueue, found) (record { fewer = omega arith; later = later })
      ]
  perform-Keeps q (started now task) d quiet later after = record {
    fewer = append-le q task status_running now (some now) d quiet later after;
    later = omega (arith, later);
  }
  perform-Keeps q (ended now id result) d quiet later after = record {
    fewer =
        finish-le q now id (end_status result).0 (end_status result).1 d quiet
          (ended_inactive result);
    later = later;
  }
  perform-Keeps q (stopped now id cancelled) d quiet later after = record {
    fewer =
        finish-le q now id (if cancelled then status_stopped else status_failed) [] d quiet
          (stopped_inactive cancelled);
    later = later;
  }

  pub perform_events-Keeps :
      (q : TaskRow → Bool) (events : List Event) (d : TaskDb)
      → IsQuiet q
      → bound ≤ d.next_id
      → EventsAfter start events
      → Keeps q d (perform_events events d)
  unfolding perform_events
  perform_events-Keeps q [] d quiet later _ = record { fewer = omega arith; later = later }
  perform_events-Keeps q (e ∷ events) d quiet later (after, rest) =
      let one = perform-Keeps q e d quiet later after in
      let more = perform_events-Keeps q events (perform e d) quiet one.later rest in
      record { fewer = omega (arith, one.fewer, more.fewer); later = more.later }
