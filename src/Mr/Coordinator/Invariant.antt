-- ===== src/Mr/Coordinator/Invariant.antt =====
-- What holds of the coordinator and its leases between two steps.
use mathlib.Core.Path.{subst}
use mit_6_5840_distributed_s.Base.{
  eqb_iff, ℕ, ◌+◌, ◌≤◌, ◌<◌, ◌≡◌, Option, none, some, List, length, get_elem?, set, ◌⊎◌, inl, inr,
  eqb, arith, if◌then◌else◌, Bool-cases, Option-cases, get_elem?-set, length_of_get_elem?,
}
use mit_6_5840_distributed_s.Mr.Coordinator.{
  TaskState, idle, in_progress, completed, Task, expire_task, expire_tasks_locked, started,
  complete,
}
use mit_6_5840_distributed_s.Mr.Coordinator.Tasks.{get_elem?-expire}
use mit_6_5840_distributed_s.Mr.Coordinator.Leases.{Held, grant, release, one_more, one_less}

abbrev pub busy : TaskState → ℕ
busy in_progress = 1
busy _ = 0

-- The leases of one task: each attempt goes to one worker at most, a worker that holds the current
-- attempt finds the task in progress, and no attempt lies ahead of the task's.
abbrev pub LeasesFit : Option Task → (ℕ → ℕ) → Type 0
LeasesFit none h = (a : ℕ) → h a ≡ 0
LeasesFit (some t) h =
    ((a : ℕ) → h a ≤ 1) × (h t.attempt ≤ busy t.state) × ((a : ℕ) → t.attempt < a → h a ≡ 0)

pub record TasksFit (tasks : List Task) (held : Held) : Type 0 where
  pub fit : (id : ℕ) → LeasesFit (get_elem? tasks id) (held id)

TasksFit-row :
    (tasks : List Task) (held : Held) (id : ℕ) (h : ℕ → ℕ)
    → LeasesFit (get_elem? tasks id) h
    → TasksFit tasks held
    → TasksFit tasks (λ i. if eqb id i then h else held i)
TasksFit-row tasks held id h new f = record {
  fit = λ i. elim (Bool-cases (eqb id i)) [
    | inl same ↦ rw same (subst (λ k. LeasesFit (get_elem? tasks k) h) ((eqb_iff id i).0 same) new)
    | inr apart ↦ rw apart (f.fit i)
  ];
}

-- A write of one task, with new leases of that task.
TasksFit-set :
    (tasks : List Task) (held : Held) (id : ℕ) (v : Task) (h : ℕ → ℕ)
    → id < length tasks
    → LeasesFit (some v) h
    → TasksFit tasks held
    → TasksFit (set tasks id v) (λ i. if eqb id i then h else held i)
TasksFit-set tasks held id v h lt new f = record {
  fit = λ i. elim (Bool-cases (eqb id i)) [
    | inl same ↦ rw (get_elem?-set tasks id i v lt, same) new
    | inr apart ↦ rw (get_elem?-set tasks id i v lt, apart) (f.fit i)
  ];
}

-- An idle task is started and its worker gets a lease.
pub TasksFit-start :
    (tasks : List Task) (held : Held) (id now : ℕ) (t : Task)
    → get_elem? tasks id ≡ some t
    → t.state ≡ idle
    → TasksFit tasks held
    → TasksFit (set tasks id (started now t)) (grant id t.attempt held)
TasksFit-start tasks held id now t g e f =
    let row = subst (λ o. LeasesFit o (held id)) g (f.fit id) in
    TasksFit-set tasks held id (started now t) (one_more t.attempt (held id))
      (length_of_get_elem? tasks id g)
      (
        λ a. ground (arith, row.0 a, row.1, e),
        ground (arith, row.1, e),
        λ a lt. ground (arith, row.2 a lt, lt),
      )
      f

-- A worker that reports holds a lease, so its task exists; the attempt is either the current one,
-- and then the task is in progress, or an earlier one.
pub lease_task :
    (tasks : List Task) (held : Held) (id att : ℕ)
    → 0 < held id att
    → TasksFit tasks held
    → (t : Task) × (get_elem? tasks id ≡ some t)
      × (((t.attempt ≡ att) × (t.state ≡ in_progress)) ⊎ (att < t.attempt))
lease_task tasks held id att h f = elim (Option-cases (get_elem? tasks id)) [
  | inl e ↦ absurd (omega (arith, (subst (λ o. LeasesFit o (held id)) e (f.fit id)) att))
  | inr (t, e) ↦
      let row = subst (λ o. LeasesFit o (held id)) e (f.fit id) in
      (t, e, ground (arith, row.1, row.2 att))
]

-- The current attempt of a lease is reported.
pub TasksFit-complete :
    (tasks : List Task) (held : Held) (id : ℕ) (t : Task)
    → get_elem? tasks id ≡ some t
    → TasksFit tasks held
    → TasksFit (set tasks id (record t { state = completed })) (release id t.attempt held)
TasksFit-complete tasks held id t g f =
    let row = subst (λ o. LeasesFit o (held id)) g (f.fit id) in
    TasksFit-set tasks held id (record t { state = completed }) (one_less t.attempt (held id))
      (length_of_get_elem? tasks id g)
      (
        λ a. ground (arith, row.0 a),
        ground (arith, row.0 t.attempt),
        λ a lt. ground (arith, row.2 a lt),
      )
      f

LeasesFit-one_less :
    (o : Option Task) (h : ℕ → ℕ) (att : ℕ) → LeasesFit o h → LeasesFit o (one_less att h)
LeasesFit-one_less none h att f = λ a. ground (arith, f a)
LeasesFit-one_less (some t) h att f =
    (λ a. ground (arith, f.0 a), ground (arith, f.1), λ a lt. ground (arith, f.2 a lt))

-- An earlier attempt is reported, and rejected.
pub TasksFit-stale :
    (tasks : List Task) (held : Held) (id att : ℕ)
    → TasksFit tasks held
    → TasksFit tasks (release id att held)
TasksFit-stale tasks held id att f =
    TasksFit-row tasks held id (one_less att (held id))
      (LeasesFit-one_less (get_elem? tasks id) (held id) att (f.fit id)) f

LeasesFit-expire :
    (now : ℕ) (o : Option Task) (h : ℕ → ℕ)
    → LeasesFit o h
    → LeasesFit (elim o [ none ↦ none | some t ↦ some (expire_task now t) ]) h
LeasesFit-expire now none h f = f
LeasesFit-expire now (some t) h f =
    (f.0, ground (arith, f.1, f.2 (t.attempt + 1)), λ a lt. ground (arith, f.2 a))

pub TasksFit-expire :
    (now : ℕ) (tasks : List Task) (held : Held)
    → TasksFit tasks held
    → TasksFit (expire_tasks_locked now tasks) held
TasksFit-expire now tasks held f = record {
  fit = λ id.
      rw (get_elem?-expire now tasks id)
        (LeasesFit-expire now (get_elem? tasks id) (held id) (f.fit id));
}

-- With a lease at hand a report never panics, and it is accepted exactly if the attempt is current.
pub complete-lease :
    (tasks : List Task) (held : Held) (id att : ℕ)
    → 0 < held id att
    → TasksFit tasks held
    → ((t : Task) × (get_elem? tasks id ≡ some t)
        × (t.attempt ≡ att)
        × (t.state ≡ in_progress)
        × (complete tasks id att ≡ some (some (set tasks id (record t { state = completed })))))
      ⊎ ((t : Task) × (get_elem? tasks id ≡ some t)
          × (att < t.attempt)
          × (complete tasks id att ≡ some none))
unfolding complete
complete-lease tasks held id att h f =
    let (t, g, r) = lease_task tasks held id att h f in
    elim r [
      | inl now ↦ inl (t, g, now.0, now.1, rw (g, complete) (ground (arith, now.0)))
      | inr late ↦ inr (t, g, late, rw (g, complete) (ground (arith, late)))
    ]
