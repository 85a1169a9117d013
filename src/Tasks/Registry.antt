-- ===== src/Tasks/Registry.antt =====
-- The registry of Manager in internal/tasks/tasks.go: the map of tasks by key, the order in which
-- keys were first registered, and the keys that have a handler.
use my_eink_library.Common.{
  if◌then◌else◌, Bool-cases, indicator, find?, count, exists, update, count-append, exists-append,
  Text, text_eq, text_eq_iff, ℕ, ◌≡◌, refl, ap, inl, inr, Bool, ◌&&◌, ◌||◌, Option, none, some,
  List, [], ◌∷◌, ◌++◌, arith,
}
use my_eink_library.Tasks.{Task, TaskDb, Run, is_job, Bytes}
use my_eink_library.Tasks.Queue.{enqueue, finish, start_service, end_status}

pub record Registry : Type 0 where
  pub tasks : List Task
  pub order : List Text
  pub handlers : List Text

abbrev pub new_registry : Registry
new_registry = record { tasks = []; order = []; handlers = [] }

abbrev pub has_key : Text → Task → Bool
has_key key t = text_eq t.key key

-- The value of the map at the key of the task is the task.
unfoldable pub put_task : Task → List Task → List Task
put_task task tasks =
    if exists (has_key task.key) tasks
    then update (has_key task.key) (λ t. task) tasks
    else tasks ++ task ∷ []

-- `handled` says whether a handler is given.
unfoldable pub register : Task → Bool → Registry → Registry
unfolding put_task
register task handled m = record {
  tasks = put_task task m.tasks;
  order = if exists (has_key task.key) m.tasks then m.order else m.order ++ task.key ∷ [];
  handlers = if handled then task.key ∷ m.handlers else m.handlers;
}

unfoldable pub register_all : List (Task × Bool) → Registry → Registry
unfolding register
register_all [] m = m
register_all ((task, handled) ∷ rest) m = register_all rest (register task handled m)

-- Manager.Enqueue, none where the task cannot be run.
unfoldable pub manager_enqueue : ℕ → Text → Registry → TaskDb → Option (Run × Bool) × TaskDb
manager_enqueue now key m d = elim (find? (has_key key) m.tasks) [
  | none ↦ (none, d)
  | some task ↦
      if task.runnable then (some (enqueue now task d).0, (enqueue now task d).1) else (none, d)
]

abbrev cons_task : Option Task → List Task → List Task
cons_task none rest = rest
cons_task (some t) rest = t ∷ rest

tasks_of : List Task → List Text → List Task
tasks_of tasks [] = []
tasks_of tasks (key ∷ keys) = cons_task (find? (has_key key) tasks) (tasks_of tasks keys)

-- Every key of the order is in the map.
unfoldable pub definitions : Registry → List Task
unfolding tasks_of
definitions m = tasks_of m.tasks m.order

-- The name of a key, or an empty text.
unfoldable pub names : Registry → Text → Text
names m key = elim (find? (has_key key) m.tasks) [ none ↦ [] | some t ↦ t.name ]

-- Manager.Run, with what the handler returns; none where the task cannot be run.
unfoldable pub run_now :
    ℕ → Text → Option Bytes → Registry → TaskDb → Option (Option Bytes) × TaskDb
run_now now key returned m d = elim (find? (has_key key) m.tasks) [
  | none ↦ (none, d)
  | some task ↦
      if is_job task.kind && exists (λ k. text_eq k key) m.handlers
      then (
        some returned,
        finish now (start_service now task d).0.id (end_status (some returned)).0
            (end_status (some returned)).1 (start_service now task d).1,
      )
      else (none, d)
]

abbrev pub listed : Text → Registry → ℕ
listed key m = count (λ k. text_eq k key) m.order

exists-replaced :
    (task : Task) (key : Text) (ts : List Task)
    → exists (has_key key) (update (has_key task.key) (λ t. task) ts) ≡ exists (has_key key) ts
unfolding exists update
exists-replaced task key [] = refl
exists-replaced task key (t ∷ ts) =
    ground (arith, text_eq_iff t.key task.key, exists-replaced task key ts)

exists-put :
    (task : Task) (key : Text) (tasks : List Task)
    → exists (has_key key) (put_task task tasks)
      ≡ (exists (has_key key) tasks || text_eq task.key key)
unfolding put_task exists
exists-put task key tasks = elim (Bool-cases (exists (has_key task.key) tasks)) [
  | inr new ↦ rw (new, exists-append (has_key key) tasks (task ∷ [])) (ground arith)
  | inl old ↦ rw old (elim (Bool-cases (text_eq task.key key)) [
    | inr other ↦ rw other (ground (arith, exists-replaced task key tasks))
    | inl same ↦ rw same (
        ground (
          arith,
          exists-replaced task key tasks,
          old,
          ap (λ k. exists (has_key k) tasks) ((text_eq_iff task.key key).0 same),
        ))
  ])
]

once_registered :
    (task : Task) (handled : Bool) (key : Text) (m : Registry)
    → listed key m ≡ indicator (exists (has_key key) m.tasks)
    → listed key (register task handled m)
      ≡ indicator (exists (has_key key) (register task handled m).tasks)
unfolding register count
once_registered task handled key m once =
    rw (exists-put task key m.tasks) (elim (Bool-cases (exists (has_key task.key) m.tasks)) [
      | inl old ↦ rw old (elim (Bool-cases (text_eq task.key key)) [
        | inr other ↦ rw other (ground (arith, once))
        | inl same ↦ rw same (
            ground (
              arith,
              once,
              old,
              ap (λ k. exists (has_key k) m.tasks) ((text_eq_iff task.key key).0 same),
            ))
      ])
      | inr new ↦
          rw (new, count-append (λ k. text_eq k key) m.order)
            (elim (Bool-cases (text_eq task.key key)) [
              | inr other ↦ rw other (ground (arith, once))
              | inl same ↦ rw same (
                  ground (
                    arith,
                    once,
                    new,
                    ap (λ k. exists (has_key k) m.tasks) ((text_eq_iff task.key key).0 same),
                  ))
            ])
    ])

register_all-listed :
    (calls : List (Task × Bool)) (key : Text) (m : Registry)
    → listed key m ≡ indicator (exists (has_key key) m.tasks)
    → listed key (register_all calls m)
      ≡ indicator (exists (has_key key) (register_all calls m).tasks)
unfolding register_all
register_all-listed [] key m once = once
register_all-listed ((task, handled) ∷ rest) key m once =
    register_all-listed rest key (register task handled m) (once_registered task handled key m once)

-- After any registrations with a new manager, the order lists a key once if a task is registered
-- under it, and not at all otherwise.
pub register_all-order :
    (calls : List (Task × Bool)) (key : Text)
    → listed key (register_all calls new_registry)
      ≡ indicator (exists (has_key key) (register_all calls new_registry).tasks)
unfolding count exists
register_all-order calls key = register_all-listed calls key new_registry refl
