-- ===== src/Mr/Coordinator/Job.antt =====
-- The coordinator of src/mr/coordinator.go as the job sees it, with workers that report what they
-- were assigned at most once.

use mit_6_5840_distributed_s.Base.{
  ℕ, ◌≤◌, ◌<◌, ◌≡◌, refl, String, true, Option, none, some, List, get_elem?, set, arith,
}
use mit_6_5840_distributed_s.Mr.Coordinator.{
  completed, Phase, map_phase, reduce_phase, all_done, Task, Coordinator, all_completed,
  report_task_completion, done,
}
use mit_6_5840_distributed_s.Mr.Coordinator.Leases.{
  System, ask, map_done, reduce_done, Step, asked, ticked, map_reported, reduce_reported, Reach,
}
use mit_6_5840_distributed_s.Mr.Coordinator.Invariant.{LeasesFit}
use mit_6_5840_distributed_s.Mr.Coordinator.Steps.{
  nothing, task, found, ask-map_none, ask-map_some, ask-reduce_none, ask-reduce_some, ask-all_done,
  check_timeout-map, check_timeout-reduce, check_timeout-all_done, Reported, stale, current,
  map_next, reduce_next, report-map, report-reduce, report-map_total, report-reduce_total,
}
use mit_6_5840_distributed_s.Mr.Coordinator.Phases.{
  in_map, in_reduce, in_done, Phase-cases, at_phase,
}
use mit_6_5840_distributed_s.Mr.Coordinator.Safety.{Reach-Inv, map_busy, reduce_busy}

-- The order of the phases.
abbrev pub rank : Phase → ℕ
rank map_phase = 0
rank reduce_phase = 1
rank all_done = 2

map_next-rank :
    (c : Coordinator) (tasks : List Task)
    → c.phase ≡ map_phase
    → rank c.phase ≤ rank (map_next c tasks).phase
map_next-rank c tasks e = rw e (ground arith)

reduce_next-rank :
    (c : Coordinator) (tasks : List Task)
    → c.phase ≡ reduce_phase
    → rank c.phase ≤ rank (reduce_next c tasks).phase
reduce_next-rank c tasks e = rw e (ground arith)

phase-ask : (now : ℕ) (s : System) → (ask now s).coord.phase ≡ s.coord.phase
phase-ask now s = elim (Phase-cases s.coord.phase) [
  | in_map e ↦ elim (found s.coord.map_tasks) [
    | nothing f ↦ rw (ask-map_none now s e f) refl
    | task id t g free f ↦ rw (ask-map_some now s e f) refl
  ]
  | in_reduce e ↦ elim (found s.coord.reduce_tasks) [
    | nothing f ↦ rw (ask-reduce_none now s e f) refl
    | task id t g free f ↦ rw (ask-reduce_some now s e f) refl
  ]
  | in_done e ↦ rw (ask-all_done now s e) refl
]

-- In a reachable state, `Done` is true only after every map task and every reduce task was completed.
pub done-all_completed :
    {files : List String} {n_reduce : ℕ} {s : System}
    → Reach files n_reduce s
    → done s.coord ≡ true
    → (all_completed s.coord.map_tasks ≡ true) × (all_completed s.coord.reduce_tasks ≡ true)
unfolding done
done-all_completed {s} r h = elim (Phase-cases s.coord.phase) [
  | in_map e ↦ absurd (cc)
  | in_reduce e ↦ absurd (cc)
  | in_done e ↦ at_phase all_done e (Reach-Inv r)
]

-- In a reachable state, a worker holds a reduce task only after every map task was completed.
pub reduce_after_maps :
    {files : List String} {n_reduce : ℕ} {s : System}
    → Reach files n_reduce s
    → (id att : ℕ) → 0 < s.reduces id att
    → all_completed s.coord.map_tasks ≡ true
reduce_after_maps {s} r id att h = elim (Phase-cases s.coord.phase) [
  | in_map e ↦ absurd (omega (arith, (at_phase map_phase e (Reach-Inv r)).2 id att))
  | in_reduce e ↦ (at_phase reduce_phase e (Reach-Inv r)).0
  | in_done e ↦ (at_phase all_done e (Reach-Inv r)).0
]

held-le-one : (o : Option Task) (h : ℕ → ℕ) (a : ℕ) → LeasesFit o h → h a ≤ 1
held-le-one none h a f = omega (arith, f a)
held-le-one (some t) h a f = f.0 a

-- In a reachable state, no attempt of a map task or of a reduce task is held by two workers.
pub attempt_unique :
    {files : List String} {n_reduce : ℕ} {s : System}
    → Reach files n_reduce s
    → (id att : ℕ) → (s.maps id att ≤ 1) × (s.reduces id att ≤ 1)
attempt_unique {s} r id att =
    let inv = Reach-Inv r in
    (
      held-le-one (get_elem? s.coord.map_tasks id) (s.maps id) att (inv.maps.fit id),
      held-le-one (get_elem? s.coord.reduce_tasks id) (s.reduces id) att (inv.reduces.fit id),
    )

-- In a reachable state, the report of a map task by a worker that holds it never panics. It completes
-- the task if the attempt is the task's current one, and then the task was in progress; else the
-- attempt has timed out and the report changes nothing.
pub map_report :
    {files : List String} {n_reduce : ℕ} {s : System}
    → Reach files n_reduce s
    → (id att : ℕ) → 0 < s.maps id att
    → (c : Coordinator) × (report_task_completion (map_done id att) s.coord ≡ some c)
      × Reported s.coord.map_tasks id att s.coord c (map_next s.coord)
map_report {s} r id att h =
    let fit = (Reach-Inv r).maps in
    let (c, e) = report-map_total s.coord s.maps id att h fit in
    (c, e, report-map s.coord s.maps id att h fit e)

-- In a reachable state, the report of a reduce task by a worker that holds it never panics. It
-- completes the task if the attempt is the task's current one, and then the task was in progress;
-- else the attempt has timed out and the report changes nothing.
pub reduce_report :
    {files : List String} {n_reduce : ℕ} {s : System}
    → Reach files n_reduce s
    → (id att : ℕ) → 0 < s.reduces id att
    → (c : Coordinator) × (report_task_completion (reduce_done id att) s.coord ≡ some c)
      × Reported s.coord.reduce_tasks id att s.coord c (reduce_next s.coord)
reduce_report {s} r id att h =
    let fit = (Reach-Inv r).reduces in
    let (c, e) = report-reduce_total s.coord s.reduces id att h fit in
    (c, e, report-reduce s.coord s.reduces id att h fit e)

-- No step from a reachable state takes the job back to an earlier phase.
pub phase_forward :
    {files : List String} {n_reduce : ℕ} {s t : System}
    → Reach files n_reduce s
    → Step s t
    → rank s.coord.phase ≤ rank t.coord.phase
phase_forward {s} r (asked now) = rw (phase-ask now s) (omega arith)
phase_forward {s} r (ticked now) = elim (Phase-cases s.coord.phase) [
  | in_map e ↦ rw (check_timeout-map now s.coord e) (omega arith)
  | in_reduce e ↦ rw (check_timeout-reduce now s.coord e) (omega arith)
  | in_done e ↦ rw (check_timeout-all_done now s.coord e) (omega arith)
]
phase_forward {s} r (map_reported id att {c} h rep) =
    elim (report-map s.coord s.maps id att h (Reach-Inv r).maps rep) [
      | stale t g late e ↦ rw e (omega arith)
      | current t g now on e ↦ rw e (
          map_next-rank s.coord (set s.coord.map_tasks id (record t { state = completed }))
            (map_busy s (Reach-Inv r) id att g on))
    ]
phase_forward {s} r (reduce_reported id att {c} h rep) =
    elim (report-reduce s.coord s.reduces id att h (Reach-Inv r).reduces rep) [
      | stale t g late e ↦ rw e (omega arith)
      | current t g now on e ↦ rw e (
          reduce_next-rank s.coord (set s.coord.reduce_tasks id (record t { state = completed }))
            (reduce_busy s (Reach-Inv r) id att h g on))
    ]
