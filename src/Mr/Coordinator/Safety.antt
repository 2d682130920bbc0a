-- ===== src/Mr/Coordinator/Safety.antt =====
-- The invariant of the coordinator with its workers (src/mr/coordinator.go) over its steps:
-- reports.
use mathlib.Core.Path.{subst}
use mit_6_5840_distributed_s.Base.{
  ℕ, zero, suc, ◌<◌, ◌≡◌, ◌≢◌, refl, String, true, false, Option, none, some, List, [], ◌∷◌, length,
  get_elem?, set, map, replicate, inl, inr, arith, Bool-cases,
}
use mit_6_5840_distributed_s.Mr.Coordinator.{
  in_progress, completed, map_phase, reduce_phase, all_done, Task, Coordinator, is_completed,
  all_completed, report_task_completion, make_coordinator, new_task,
}
use mit_6_5840_distributed_s.Mr.Coordinator.Tasks.{all_completed-get}
use mit_6_5840_distributed_s.Mr.Coordinator.Leases.{
  System, release, map_done, reduce_done, Step, asked, ticked, map_reported, reduce_reported, init,
  Reach, start, later,
}
use mit_6_5840_distributed_s.Mr.Coordinator.Invariant.{
  LeasesFit, TasksFit, TasksFit-complete, TasksFit-stale,
}
use mit_6_5840_distributed_s.Mr.Coordinator.Steps.{
  stale, current, map_next, reduce_next, report-map, report-reduce,
}
use mit_6_5840_distributed_s.Mr.Coordinator.Phases.{
  PhaseFits-release, Inv, in_map, in_reduce, in_done, Phase-cases, at_phase, from_phase, ask-Inv,
  tick-Inv,
}

-- A task of a completed list is not in progress.
not_in_progress :
    (tasks : List Task) (id : ℕ) {t : Task}
    → all_completed tasks ≡ true
    → get_elem? tasks id ≡ some t
    → t.state ≢ in_progress
not_in_progress tasks id full g on = cc (all_completed-get tasks id full g)

module _ (s : System) (inv : Inv s) (id att : ℕ) where
  -- While a map task is in progress the phase is the map phase, and likewise for reduce tasks.
  pub map_busy :
      {t : Task}
      → get_elem? s.coord.map_tasks id ≡ some t
      → t.state ≡ in_progress
      → s.coord.phase ≡ map_phase
  map_busy g on = elim (Phase-cases s.coord.phase) [
    | in_map e ↦ e
    | in_reduce e ↦ absurd (not_in_progress _ id (at_phase reduce_phase e inv).0 g on)
    | in_done e ↦ absurd (not_in_progress _ id (at_phase all_done e inv).0 g on)
  ]

  pub reduce_busy :
      {t : Task}
      → 0 < s.reduces id att
      → get_elem? s.coord.reduce_tasks id ≡ some t
      → t.state ≡ in_progress
      → s.coord.phase ≡ reduce_phase
  reduce_busy h g on = elim (Phase-cases s.coord.phase) [
    | in_map e ↦ absurd (omega (arith, (at_phase map_phase e inv).2 id att))
    | in_reduce e ↦ e
    | in_done e ↦ absurd (not_in_progress _ id (at_phase all_done e inv).1 g on)
  ]

  map_current-Inv :
      (t : Task)
      → get_elem? s.coord.map_tasks id ≡ some t
      → t.attempt ≡ att
      → t.state ≡ in_progress
      → Inv (record {
        coord = map_next s.coord (set s.coord.map_tasks id (record t { state = completed }));
        maps = release id att s.maps;
        reduces = s.reduces;
      })
  map_current-Inv t g now on =
      let e = map_busy g on in
      let p = at_phase map_phase e inv in
      let tasks = set s.coord.map_tasks id (record t { state = completed }) in
      let fit =
        subst (λ a. TasksFit tasks (release id a s.maps)) now
          (TasksFit-complete s.coord.map_tasks s.maps id t g inv.maps) in
      elim (Bool-cases (all_completed tasks)) [
        | inl full ↦ rw full (record { maps = fit; reduces = inv.reduces; phases = (full, p.1) })
        | inr open_ ↦ rw open_ (record {
          maps = fit;
          reduces = inv.reduces;
          phases = from_phase _ _ _ e (λ full. absurd (cc), p.1, p.2);
        })
      ]

  reduce_current-Inv :
      (t : Task)
      → 0 < s.reduces id att
      → get_elem? s.coord.reduce_tasks id ≡ some t
      → t.attempt ≡ att
      → t.state ≡ in_progress
      → Inv (record {
        coord = reduce_next s.coord (set s.coord.reduce_tasks id (record t { state = completed }));
        maps = s.maps;
        reduces = release id att s.reduces;
      })
  reduce_current-Inv t h g now on =
      let e = reduce_busy h g on in
      let p = at_phase reduce_phase e inv in
      let tasks = set s.coord.reduce_tasks id (record t { state = completed }) in
      let fit =
        subst (λ a. TasksFit tasks (release id a s.reduces)) now
          (TasksFit-complete s.coord.reduce_tasks s.reduces id t g inv.reduces) in
      elim (Bool-cases (all_completed tasks)) [
        | inl full ↦ rw full (record { maps = inv.maps; reduces = fit; phases = (p.0, full) })
        | inr open_ ↦ rw open_ (record {
          maps = inv.maps;
          reduces = fit;
          phases = from_phase _ _ _ e (p.0, λ full. absurd (cc));
        })
      ]

  map_reported-Inv :
      {c : Coordinator}
      → 0 < s.maps id att
      → report_task_completion (map_done id att) s.coord ≡ some c
      → Inv (record { coord = c; maps = release id att s.maps; reduces = s.reduces })
  map_reported-Inv {c} h r = elim (report-map s.coord s.maps id att h inv.maps r) [
    | stale t g late e ↦ rw e (record {
      maps = TasksFit-stale s.coord.map_tasks s.maps id att inv.maps;
      reduces = inv.reduces;
      phases = inv.phases;
    })
    | current t g now on e ↦ rw e (map_current-Inv t g now on)
  ]

  reduce_reported-Inv :
      {c : Coordinator}
      → 0 < s.reduces id att
      → report_task_completion (reduce_done id att) s.coord ≡ some c
      → Inv (record { coord = c; maps = s.maps; reduces = release id att s.reduces })
  reduce_reported-Inv {c} h r = elim (report-reduce s.coord s.reduces id att h inv.reduces r) [
    | stale t g late e ↦ rw e (record {
      maps = inv.maps;
      reduces = TasksFit-stale s.coord.reduce_tasks s.reduces id att inv.reduces;
      phases = PhaseFits-release s.coord.phase _ _ s.reduces id att inv.phases;
    })
    | current t g now on e ↦ rw e (reduce_current-Inv t h g now on)
  ]

pub Step-Inv : {s t : System} → Step s t → Inv s → Inv t
Step-Inv {s} (asked now) inv = ask-Inv now s inv
Step-Inv {s} (ticked now) inv = tick-Inv now s inv
Step-Inv {s} (map_reported id att h r) inv = map_reported-Inv s inv id att h r
Step-Inv {s} (reduce_reported id att h r) inv = reduce_reported-Inv s inv id att h r

new-not_completed :
    (files : List String)
    → all_completed (map new_task files) ≡ true
    → length (map new_task files) ≡ 0
new-not_completed [] h = refl
new-not_completed (f ∷ fs) h = cc

replicate-not_completed :
    (n : ℕ) (t : Task)
    → is_completed t.state ≡ false
    → all_completed (replicate n t) ≡ true
    → length (replicate n t) ≡ 0
replicate-not_completed zero t n h = refl
replicate-not_completed (suc k) t n h = ground arith

no_leases : (tasks : List Task) → TasksFit tasks (λ _ _. 0)
no_leases tasks = record { fit = λ id. no_leases_of (get_elem? tasks id) }
  where
    no_leases_of : (o : Option Task) → LeasesFit o (λ _. 0)
    no_leases_of none = λ a. refl
    no_leases_of (some t) = (λ a. omega arith, omega arith, λ a lt. refl)

Inv-init : (files : List String) (n_reduce : ℕ) → Inv (init files n_reduce)
unfolding init make_coordinator
Inv-init files n_reduce = record {
  maps = no_leases (map new_task files);
  reduces = no_leases (replicate n_reduce (new_task ""));
  phases =
      (new-not_completed files, replicate-not_completed n_reduce (new_task "") refl, λ i a. refl);
}

pub Reach-Inv : {files : List String} {n_reduce : ℕ} {s : System} → Reach files n_reduce s → Inv s
Reach-Inv {files} {n_reduce} start = Inv-init files n_reduce
Reach-Inv (later r st) = Step-Inv st (Reach-Inv r)
