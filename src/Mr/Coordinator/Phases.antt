-- ===== src/Mr/Coordinator/Phases.antt =====
-- The invariant of the coordinator with its workers (src/mr/coordinator.go) over its steps:
-- requests and ticks.
use mathlib.Core.Path.{subst}
use mit_6_5840_distributed_s.Base.{
  ℕ, ◌≡◌, refl, sym, true, false, some, List, length, get_elem?, set, arith, length-map,
  length_of_get_elem?,
}
use mit_6_5840_distributed_s.Mr.Coordinator.{
  Phase, map_phase, reduce_phase, all_done, Task, all_completed, expire_tasks_locked, started,
  check_timeout, expire_task,
}
use mit_6_5840_distributed_s.Mr.Coordinator.Tasks.{all_completed-expire, all_completed-set}
use mit_6_5840_distributed_s.Mr.Coordinator.Leases.{Held, System, release, ask}
use mit_6_5840_distributed_s.Mr.Coordinator.Invariant.{TasksFit, TasksFit-start, TasksFit-expire}
use mit_6_5840_distributed_s.Mr.Coordinator.Steps.{
  nothing, task, found, ask-map_none, ask-map_some, ask-reduce_none, ask-reduce_some, ask-all_done,
  check_timeout-map, check_timeout-reduce, check_timeout-all_done,
}

-- What the phase says of the tasks and of the leases of reduce tasks. A phase with no tasks is never
-- left, so its list may be complete.
abbrev pub PhaseFits : Phase → List Task → List Task → Held → Type 0
PhaseFits map_phase maps reduces held =
    (all_completed maps ≡ true → length maps ≡ 0)
    × (all_completed reduces ≡ true → length reduces ≡ 0)
    × ((i a : ℕ) → held i a ≡ 0)
PhaseFits reduce_phase maps reduces held =
    (all_completed maps ≡ true) × (all_completed reduces ≡ true → length reduces ≡ 0)
PhaseFits all_done maps reduces held = (all_completed maps ≡ true) × (all_completed reduces ≡ true)

pub record Inv (s : System) : Type 0 where
  pub maps : TasksFit s.coord.map_tasks s.maps
  pub reduces : TasksFit s.coord.reduce_tasks s.reduces
  pub phases : PhaseFits s.coord.phase s.coord.map_tasks s.coord.reduce_tasks s.reduces

pub PhaseFits-release :
    (p : Phase) (maps reduces : List Task) (held : Held) (id att : ℕ)
    → PhaseFits p maps reduces held
    → PhaseFits p maps reduces (release id att held)
PhaseFits-release map_phase maps reduces held id att h =
    (h.0, h.1, λ i a. ground (arith, h.2 i a, h.2 id a))
PhaseFits-release reduce_phase maps reduces held id att h = h
PhaseFits-release all_done maps reduces held id att h = h

pub data PhaseIs (p : Phase) : Type 0 where
  in_map : p ≡ map_phase → PhaseIs p
  in_reduce : p ≡ reduce_phase → PhaseIs p
  in_done : p ≡ all_done → PhaseIs p

pub Phase-cases : (p : Phase) → PhaseIs p
Phase-cases map_phase = in_map refl
Phase-cases reduce_phase = in_reduce refl
Phase-cases all_done = in_done refl

pub at_phase :
    {s : System} (p : Phase)
    → s.coord.phase ≡ p
    → Inv s
    → PhaseFits p s.coord.map_tasks s.coord.reduce_tasks s.reduces
at_phase {s} p e inv =
    subst (λ q. PhaseFits q s.coord.map_tasks s.coord.reduce_tasks s.reduces) e inv.phases

pub from_phase :
    {q p : Phase} (maps reduces : List Task) (held : Held)
    → q ≡ p
    → PhaseFits p maps reduces held
    → PhaseFits q maps reduces held
from_phase maps reduces held e h = subst (λ q. PhaseFits q maps reduces held) (sym e) h

started-not_completed :
    (tasks : List Task) (id now : ℕ) (t : Task)
    → get_elem? tasks id ≡ some t
    → all_completed (set tasks id (started now t)) ≡ false
started-not_completed tasks id now t g =
    all_completed-set tasks id (started now t) (length_of_get_elem? tasks id g) refl

length-expire :
    (now : ℕ) (tasks : List Task) → length (expire_tasks_locked now tasks) ≡ length tasks
unfolding expire_tasks_locked
length-expire now tasks = length-map tasks (expire_task now)

module _ (now : ℕ) (s : System) (inv : Inv s) where
  ask-Inv_map : s.coord.phase ≡ map_phase → Inv (ask now s)
  ask-Inv_map e = elim (found s.coord.map_tasks) [
    | nothing f ↦ rw (ask-map_none now s e f) inv
    | task id t g free f ↦
        let p = at_phase map_phase e inv in
        rw (ask-map_some now s e f) (record {
          maps = TasksFit-start s.coord.map_tasks s.maps id now t g free inv.maps;
          reduces = inv.reduces;
          phases =
              from_phase _ _ _ e (
                λ full. absurd (cc (started-not_completed s.coord.map_tasks id now t g)),
                p.1,
                p.2,
              );
        })
  ]

  ask-Inv_reduce : s.coord.phase ≡ reduce_phase → Inv (ask now s)
  ask-Inv_reduce e = elim (found s.coord.reduce_tasks) [
    | nothing f ↦ rw (ask-reduce_none now s e f) inv
    | task id t g free f ↦
        let p = at_phase reduce_phase e inv in
        rw (ask-reduce_some now s e f) (record {
          maps = inv.maps;
          reduces = TasksFit-start s.coord.reduce_tasks s.reduces id now t g free inv.reduces;
          phases =
              from_phase _ _ _ e
                (p.0, λ full. absurd (cc (started-not_completed s.coord.reduce_tasks id now t g)));
        })
  ]

  pub ask-Inv : Inv (ask now s)
  ask-Inv = elim (Phase-cases s.coord.phase) [
    | in_map e ↦ ask-Inv_map e
    | in_reduce e ↦ ask-Inv_reduce e
    | in_done e ↦ rw (ask-all_done now s e) inv
  ]

  pub tick-Inv : Inv (record s { coord = (check_timeout now s.coord).0 })
  tick-Inv = elim (Phase-cases s.coord.phase) [
    | in_map e ↦
        let p = at_phase map_phase e inv in
        rw (check_timeout-map now s.coord e) (record {
          maps = TasksFit-expire now s.coord.map_tasks s.maps inv.maps;
          reduces = inv.reduces;
          phases = from_phase _ _ _ e (rw (all_completed-expire, length-expire) p.0, p.1, p.2);
        })
    | in_reduce e ↦
        let p = at_phase reduce_phase e inv in
        rw (check_timeout-reduce now s.coord e) (record {
          maps = inv.maps;
          reduces = TasksFit-expire now s.coord.reduce_tasks s.reduces inv.reduces;
          phases = from_phase _ _ _ e (p.0, rw (all_completed-expire, length-expire) p.1);
        })
    | in_done e ↦ rw (check_timeout-all_done now s.coord e) inv
  ]
