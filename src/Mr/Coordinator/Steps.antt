-- ===== src/Mr/Coordinator/Steps.antt =====
-- What each step of the coordinator and its workers comes to.
use mit_6_5840_distributed_s.Base.{
  some_inj, sym, ℕ, ◌<◌, ◌≡◌, refl, ap, none, some, List, get_elem?, set, inl, inr, arith,
  if◌then◌else◌, Option-cases, ◌∙◌,
}
use mit_6_5840_distributed_s.Mr.Coordinator.{
  idle, in_progress, completed, Phase, map_phase, reduce_phase, all_done, Task, Coordinator,
  find_idle, all_completed, expire_tasks_locked, started, complete, assign, assign_in, assign_map,
  assign_reduce, report_task_completion, check_timeout, check_in, after_map, after_reduce,
}
use mit_6_5840_distributed_s.Mr.Coordinator.Tasks.{find_idle-some}
use mit_6_5840_distributed_s.Mr.Coordinator.Leases.{
  Held, System, grant, granted, ask, map_done, reduce_done,
}
use mit_6_5840_distributed_s.Mr.Coordinator.Invariant.{TasksFit, complete-lease}

-- An idle task of a list is found and started, or none is idle.
pub data Found (tasks : List Task) : Type 0 where
  nothing : find_idle 0 tasks ≡ none → Found tasks
  task :
      (id : ℕ) (t : Task)
      → get_elem? tasks id ≡ some t
      → t.state ≡ idle
      → find_idle 0 tasks ≡ some (id, t)
      → Found tasks

pub found : (tasks : List Task) → Found tasks
found tasks = elim (Option-cases (find_idle 0 tasks)) [
  | inl e ↦ nothing e
  | inr (p, e) ↦
      let (k, at, g, free) = find_idle-some 0 tasks e in
      task k p.1 g free (e ∙ ap (λ i. some (i, p.1)) (omega (arith, at)))
]

-- `ask`, with the phase apart.
abbrev ask_in : Phase → ℕ → System → System
ask_in p now s = let (c, reply) = assign_in p now s.coord in granted reply (record s { coord = c })

ask_lem : (p : Phase) (now : ℕ) (s : System) → s.coord.phase ≡ p → ask now s ≡ ask_in p now s
unfolding ask assign
ask_lem p now s e = ap (λ q. ask_in q now s) e

module _ (now : ℕ) (s : System) where
  pub ask-map_none :
      s.coord.phase ≡ map_phase → find_idle 0 s.coord.map_tasks ≡ none → ask now s ≡ s
  unfolding assign granted
  ask-map_none e f = ask_lem map_phase now s e ∙ rw (f, assign_in, assign_map) refl

  pub ask-map_some :
      {id : ℕ} {t : Task}
      → s.coord.phase ≡ map_phase
      → find_idle 0 s.coord.map_tasks ≡ some (id, t)
      → ask now s ≡ record s {
        coord = record s.coord { map_tasks = set s.coord.map_tasks id (started now t) };
        maps = grant id t.attempt s.maps;
      }
  unfolding assign granted
  ask-map_some e f = ask_lem map_phase now s e ∙ rw (f, assign_in, assign_map) refl

  pub ask-reduce_none :
      s.coord.phase ≡ reduce_phase → find_idle 0 s.coord.reduce_tasks ≡ none → ask now s ≡ s
  unfolding assign granted
  ask-reduce_none e f = ask_lem reduce_phase now s e ∙ rw (f, assign_in, assign_reduce) refl

  pub ask-reduce_some :
      {id : ℕ} {t : Task}
      → s.coord.phase ≡ reduce_phase
      → find_idle 0 s.coord.reduce_tasks ≡ some (id, t)
      → ask now s ≡ record s {
        coord = record s.coord { reduce_tasks = set s.coord.reduce_tasks id (started now t) };
        reduces = grant id t.attempt s.reduces;
      }
  unfolding assign granted
  ask-reduce_some e f = ask_lem reduce_phase now s e ∙ rw (f, assign_in, assign_reduce) refl

  pub ask-all_done : s.coord.phase ≡ all_done → ask now s ≡ s
  unfolding assign granted
  ask-all_done e = ask_lem all_done now s e

module _ (now : ℕ) (c : Coordinator) where
  pub check_timeout-map :
      c.phase ≡ map_phase
      → (check_timeout now c).0 ≡ record c { map_tasks = expire_tasks_locked now c.map_tasks }
  unfolding check_timeout
  check_timeout-map e = ap (λ p. (check_in p now c).0) e

  pub check_timeout-reduce :
      c.phase ≡ reduce_phase
      → (check_timeout now c).0 ≡ record c { reduce_tasks = expire_tasks_locked now c.reduce_tasks }
  unfolding check_timeout
  check_timeout-reduce e = ap (λ p. (check_in p now c).0) e

  pub check_timeout-all_done : c.phase ≡ all_done → (check_timeout now c).0 ≡ c
  unfolding check_timeout
  check_timeout-all_done e = ap (λ p. (check_in p now c).0) e

-- What the report of a lease does to the coordinator: nothing, where the attempt is an earlier one,
-- and else the task, which was in progress, is completed.
pub data Reported (tasks : List Task) (id att : ℕ) (c c' : Coordinator)
    (next : List Task → Coordinator) : Type 0 where
  stale :
      (t : Task)
      → get_elem? tasks id ≡ some t
      → att < t.attempt
      → c' ≡ c
      → Reported tasks id att c c' next
  current :
      (t : Task)
      → get_elem? tasks id ≡ some t
      → t.attempt ≡ att
      → t.state ≡ in_progress
      → c' ≡ next (set tasks id (record t { state = completed }))
      → Reported tasks id att c c' next

-- The coordinator with a new list of map tasks, or of reduce tasks, one of which was just completed.
abbrev pub map_next : Coordinator → List Task → Coordinator
map_next c tasks =
    if all_completed tasks
    then record c { map_tasks = tasks; phase = reduce_phase }
    else record c { map_tasks = tasks }

abbrev pub reduce_next : Coordinator → List Task → Coordinator
reduce_next c tasks =
    if all_completed tasks
    then record c { reduce_tasks = tasks; phase = all_done }
    else record c { reduce_tasks = tasks }

report-map_lem :
    (c : Coordinator) (id att : ℕ)
    → report_task_completion (map_done id att) c ≡ after_map c (complete c.map_tasks id att)
unfolding report_task_completion
report-map_lem c id att = refl

report-reduce_lem :
    (c : Coordinator) (id att : ℕ)
    → report_task_completion (reduce_done id att) c
      ≡ after_reduce c (complete c.reduce_tasks id att)
unfolding report_task_completion
report-reduce_lem c id att = refl

pub report-map :
    (c : Coordinator) (held : Held) (id att : ℕ) {c' : Coordinator}
    → 0 < held id att
    → TasksFit c.map_tasks held
    → report_task_completion (map_done id att) c ≡ some c'
    → Reported c.map_tasks id att c c' (map_next c)
unfolding after_map
report-map c held id att h f r = elim (complete-lease c.map_tasks held id att h f) [
  | inl p ↦
      let (t, g, now, on, e) = p in
      current t g now on (some_inj (sym r ∙ report-map_lem c id att ∙ ap (after_map c) e))
  | inr p ↦
      let (t, g, late, e) = p in
      stale t g late (some_inj (sym r ∙ report-map_lem c id att ∙ ap (after_map c) e))
]

pub report-reduce :
    (c : Coordinator) (held : Held) (id att : ℕ) {c' : Coordinator}
    → 0 < held id att
    → TasksFit c.reduce_tasks held
    → report_task_completion (reduce_done id att) c ≡ some c'
    → Reported c.reduce_tasks id att c c' (reduce_next c)
unfolding after_reduce
report-reduce c held id att h f r = elim (complete-lease c.reduce_tasks held id att h f) [
  | inl p ↦
      let (t, g, now, on, e) = p in
      current t g now on (some_inj (sym r ∙ report-reduce_lem c id att ∙ ap (after_reduce c) e))
  | inr p ↦
      let (t, g, late, e) = p in
      stale t g late (some_inj (sym r ∙ report-reduce_lem c id att ∙ ap (after_reduce c) e))
]

-- With a lease at hand a report never panics.
pub report-map_total :
    (c : Coordinator) (held : Held) (id att : ℕ)
    → 0 < held id att
    → TasksFit c.map_tasks held
    → (c' : Coordinator) × (report_task_completion (map_done id att) c ≡ some c')
unfolding after_map
report-map_total c held id att h f = elim (complete-lease c.map_tasks held id att h f) [
  | inl p ↦ (_, report-map_lem c id att ∙ ap (after_map c) p.4)
  | inr p ↦ (_, report-map_lem c id att ∙ ap (after_map c) p.3)
]

pub report-reduce_total :
    (c : Coordinator) (held : Held) (id att : ℕ)
    → 0 < held id att
    → TasksFit c.reduce_tasks held
    → (c' : Coordinator) × (report_task_completion (reduce_done id att) c ≡ some c')
unfolding after_reduce
report-reduce_total c held id att h f = elim (complete-lease c.reduce_tasks held id att h f) [
  | inl p ↦ (_, report-reduce_lem c id att ∙ ap (after_reduce c) p.4)
  | inr p ↦ (_, report-reduce_lem c id att ∙ ap (after_reduce c) p.3)
]

-- Where a task of the phase is idle, a request is answered by a task.
pub assign-map_reply :
    (now : ℕ) (c : Coordinator) {p : ℕ × Task}
    → c.phase ≡ map_phase
    → find_idle 0 c.map_tasks ≡ some p
    → (assign now c).1.task_type ≡ "map"
unfolding assign
assign-map_reply now c e f =
    ap (λ q. (assign_in q now c).1.task_type) e ∙ rw (f, assign_in, assign_map) refl

pub assign-reduce_reply :
    (now : ℕ) (c : Coordinator) {p : ℕ × Task}
    → c.phase ≡ reduce_phase
    → find_idle 0 c.reduce_tasks ≡ some p
    → (assign now c).1.task_type ≡ "reduce"
unfolding assign
assign-reduce_reply now c e f =
    ap (λ q. (assign_in q now c).1.task_type) e ∙ rw (f, assign_in, assign_reduce) refl
