-- ===== src/Mr/Coordinator/Progress.antt =====
-- The coordinator of src/mr/coordinator.go and its workers over time: what becomes of completed
-- tasks, and of tasks whose workers are gone.
use mit_6_5840_distributed_s.Base.{
  ℕ, ◌+◌, ◌<◌, ◌≡◌, ◌≢◌, refl, String, true, false, some, List, length, get_elem?, set, ◌⊎◌, inl,
  inr, arith, Bool-cases, Option-cases, length_of_get_elem?, get_elem?-set,
}
use mit_6_5840_distributed_s.Mr.Coordinator.{
  completed, map_phase, reduce_phase, all_done, Task, Coordinator, is_idle, is_completed,
  all_completed, expire_task, expire_tasks_locked, started, find_idle, check_timeout, task_timeout,
  assign,
}
use mit_6_5840_distributed_s.Mr.Coordinator.Tasks.{
  get_elem?-expire, find_idle-none, all_completed-false,
}
use mit_6_5840_distributed_s.Mr.Coordinator.Leases.{
  System, ask, Step, asked, ticked, map_reported, reduce_reported, Reach,
}
use mit_6_5840_distributed_s.Mr.Coordinator.Steps.{
  nothing, task, found, ask-map_none, ask-map_some, ask-reduce_none, ask-reduce_some, ask-all_done,
  check_timeout-map, check_timeout-reduce, check_timeout-all_done, stale, current, map_next,
  reduce_next, report-map, report-reduce, assign-map_reply, assign-reduce_reply,
}
use mit_6_5840_distributed_s.Mr.Coordinator.Phases.{
  in_map, in_reduce, in_done, Phase-cases, at_phase,
}
use mit_6_5840_distributed_s.Mr.Coordinator.Safety.{Reach-Inv}

-- A completed task of the first list stands unchanged in the second.
abbrev pub Kept : List Task → List Task → Type 0
Kept tasks tasks' =
    (id : ℕ) (t : Task)
    → get_elem? tasks id ≡ some t
    → t.state ≡ completed
    → get_elem? tasks' id ≡ some t

Kept-set :
    (tasks : List Task) (i : ℕ) (t v : Task)
    → get_elem? tasks i ≡ some t
    → is_completed t.state ≡ false
    → Kept tasks (set tasks i v)
Kept-set tasks i t v g n id x gx c =
    ground (arith, get_elem?-set tasks i id v (length_of_get_elem? tasks i g))

Kept-expire : (now : ℕ) (tasks : List Task) → Kept tasks (expire_tasks_locked now tasks)
Kept-expire now tasks id x gx c = rw (get_elem?-expire now tasks id, gx) (ground arith)

Kept-refl : (tasks : List Task) → Kept tasks tasks
Kept-refl tasks id t g c = g

map_tasks-map_next : (c : Coordinator) (tasks : List Task) → (map_next c tasks).map_tasks ≡ tasks
map_tasks-map_next c tasks = ground arith

reduce_tasks-map_next :
    (c : Coordinator) (tasks : List Task) → (map_next c tasks).reduce_tasks ≡ c.reduce_tasks
reduce_tasks-map_next c tasks = ground arith

reduce_tasks-reduce_next :
    (c : Coordinator) (tasks : List Task) → (reduce_next c tasks).reduce_tasks ≡ tasks
reduce_tasks-reduce_next c tasks = ground arith

map_tasks-reduce_next :
    (c : Coordinator) (tasks : List Task) → (reduce_next c tasks).map_tasks ≡ c.map_tasks
map_tasks-reduce_next c tasks = ground arith

-- Both task lists of one coordinator are kept by another.
abbrev pub BothKept : Coordinator → Coordinator → Type 0
BothKept c c' = Kept c.map_tasks c'.map_tasks × Kept c.reduce_tasks c'.reduce_tasks

both_refl : (c : Coordinator) → BothKept c c
both_refl c = (Kept-refl c.map_tasks, Kept-refl c.reduce_tasks)

ask-BothKept : (now : ℕ) (s : System) → BothKept s.coord (ask now s).coord
ask-BothKept now s = elim (Phase-cases s.coord.phase) [
  | in_map e ↦ elim (found s.coord.map_tasks) [
    | nothing f ↦ rw (ask-map_none now s e f) (both_refl s.coord)
    | task id t g free f ↦ rw (ask-map_some now s e f) (
      Kept-set s.coord.map_tasks id t (started now t) g (rw free refl),
      Kept-refl s.coord.reduce_tasks,
    )
  ]
  | in_reduce e ↦ elim (found s.coord.reduce_tasks) [
    | nothing f ↦ rw (ask-reduce_none now s e f) (both_refl s.coord)
    | task id t g free f ↦ rw (ask-reduce_some now s e f) (
      Kept-refl s.coord.map_tasks,
      Kept-set s.coord.reduce_tasks id t (started now t) g (rw free refl),
    )
  ]
  | in_done e ↦ rw (ask-all_done now s e) (both_refl s.coord)
]

tick-BothKept : (now : ℕ) (c : Coordinator) → BothKept c (check_timeout now c).0
tick-BothKept now c = elim (Phase-cases c.phase) [
  | in_map e ↦
      rw (check_timeout-map now c e) (Kept-expire now c.map_tasks, Kept-refl c.reduce_tasks)
  | in_reduce e ↦
      rw (check_timeout-reduce now c e) (Kept-refl c.map_tasks, Kept-expire now c.reduce_tasks)
  | in_done e ↦ rw (check_timeout-all_done now c e) (both_refl c)
]

-- No step from a reachable state changes a completed task of either list.
pub completed_stays :
    {files : List String} {n_reduce : ℕ} {s t : System}
    → Reach files n_reduce s
    → Step s t
    → BothKept s.coord t.coord
completed_stays {s} r (asked now) = ask-BothKept now s
completed_stays {s} r (ticked now) = tick-BothKept now s.coord
completed_stays {s} r (map_reported id att {c} h rep) =
    elim (report-map s.coord s.maps id att h (Reach-Inv r).maps rep) [
      | stale t g late e ↦ rw e (both_refl s.coord)
      | current t g now on e ↦
          let v = record t { state = completed } in
          rw (e, map_tasks-map_next, reduce_tasks-map_next)
            (Kept-set s.coord.map_tasks id t v g (rw on refl), Kept-refl s.coord.reduce_tasks)
    ]
completed_stays {s} r (reduce_reported id att {c} h rep) =
    elim (report-reduce s.coord s.reduces id att h (Reach-Inv r).reduces rep) [
      | stale t g late e ↦ rw e (both_refl s.coord)
      | current t g now on e ↦
          let v = record t { state = completed } in
          rw (e, map_tasks-reduce_next, reduce_tasks-reduce_next)
            (Kept-refl s.coord.map_tasks, Kept-set s.coord.reduce_tasks id t v g (rw on refl))
    ]

-- Every task was started more than ten seconds before `now`, or not at all.
abbrev pub LongAgo : ℕ → List Task → Type 0
LongAgo now tasks =
    (id : ℕ) (t : Task) → get_elem? tasks id ≡ some t → t.start_time + task_timeout < now

expired_idle :
    (now : ℕ) (t : Task)
    → is_completed t.state ≡ false
    → t.start_time + task_timeout < now
    → is_idle (expire_task now t).state ≡ true
expired_idle now t n old = ground arith

-- A list that is not complete has an idle task once its tasks have timed out.
expire-finds :
    (now : ℕ) (tasks : List Task)
    → all_completed tasks ≡ false
    → LongAgo now tasks
    → (p : ℕ × Task) × (find_idle 0 (expire_tasks_locked now tasks) ≡ some p)
expire-finds now tasks n old =
    let (k, t, g, open_) = all_completed-false tasks n in
    elim (Option-cases (find_idle 0 (expire_tasks_locked now tasks))) [
      | inl e ↦ absurd (
          cc (
            find_idle-none 0 (expire_tasks_locked now tasks) k {t = expire_task now t} e
                (rw (get_elem?-expire now tasks k, g) refl),
            expired_idle now t open_ (old k t g),
          ))
      | inr p ↦ p
    ]

not_complete :
    (tasks : List Task)
    → (all_completed tasks ≡ true → length tasks ≡ 0)
    → length tasks ≢ 0
    → all_completed tasks ≡ false
not_complete tasks h n = elim (Bool-cases (all_completed tasks)) [
  | inl e ↦ absurd (n (h e))
  | inr e ↦ e
]

-- In a reachable state that is not done, a tick more than ten seconds after the start time of every
-- task leaves a map task or a reduce task for the next worker that asks, provided that there are
-- map tasks and reduce tasks at all.
pub work_available :
    {files : List String} {n_reduce : ℕ} {s : System} (now : ℕ)
    → Reach files n_reduce s
    → s.coord.phase ≢ all_done
    → length s.coord.map_tasks ≢ 0
    → length s.coord.reduce_tasks ≢ 0
    → LongAgo now s.coord.map_tasks
    → LongAgo now s.coord.reduce_tasks
    → let reply = (assign now (check_timeout now s.coord).0).1 in
      (reply.task_type ≡ "map") ⊎ (reply.task_type ≡ "reduce")
work_available {s} now r open_ m n om on = elim (Phase-cases s.coord.phase) [
  | in_map e ↦
      let p = at_phase map_phase e (Reach-Inv r) in
      inl (
        rw (check_timeout-map now s.coord e) (
          assign-map_reply now _ e
            (expire-finds now s.coord.map_tasks (not_complete s.coord.map_tasks p.0 m) om).1))
  | in_reduce e ↦
      let p = at_phase reduce_phase e (Reach-Inv r) in
      inr (
        rw (check_timeout-reduce now s.coord e) (
          assign-reduce_reply now _ e
            (expire-finds now s.coord.reduce_tasks (not_complete s.coord.reduce_tasks p.1 n) on).1))
  | in_done e ↦ absurd (open_ e)
]
