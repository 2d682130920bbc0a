-- ===== src/Mr/Coordinator/Tasks.antt =====
-- The task lists of src/mr/coordinator.go: the search for an idle task, the test for completion and
-- the expiry of tasks, as facts about single entries.
use mit_6_5840_distributed_s.Base.{
  ℕ, zero, suc, ◌+◌, ◌<◌, ◌≡◌, refl, true, false, none, some, List, [], ◌∷◌, length, get_elem?, set,
  inl, inr, arith, Bool-cases,
}
use mit_6_5840_distributed_s.Mr.Coordinator.{
  idle, completed, Task, is_idle, is_completed, find_idle, all_completed, expire_task,
  expire_tasks_locked,
}

-- What the search finds is idle and stands at the index that it gives.
pub find_idle-some :
    (i : ℕ) (tasks : List Task) {j : ℕ} {t : Task}
    → find_idle i tasks ≡ some (j, t)
    → (k : ℕ) × (j ≡ i + k) × (get_elem? tasks k ≡ some t) × (t.state ≡ idle)
unfolding find_idle
find_idle-some i [] h = absurd (cc)
find_idle-some i (x ∷ xs) {j} {t} h = elim (Bool-cases (is_idle x.state)) [
  | inl e ↦ (0, ground arith, ground arith, ground arith)
  | inr e ↦
      let (k, at, found, free) = find_idle-some (i + 1) xs {j = j} {t = t} (rw e at h) in
      (suc k, omega (arith, at), found, free)
]

-- Where the search finds nothing, no task is idle.
pub find_idle-none :
    (i : ℕ) (tasks : List Task) (k : ℕ) {t : Task}
    → find_idle i tasks ≡ none
    → get_elem? tasks k ≡ some t
    → is_idle t.state ≡ false
unfolding find_idle
find_idle-none i [] k h g = absurd (cc)
find_idle-none i (x ∷ xs) zero h g = ground arith
find_idle-none i (x ∷ xs) (suc k) {t} h g = ground (arith, find_idle-none (i + 1) xs k {t = t})

pub all_completed-get :
    (tasks : List Task) (k : ℕ) {t : Task}
    → all_completed tasks ≡ true
    → get_elem? tasks k ≡ some t
    → t.state ≡ completed
all_completed-get [] k h g = absurd (cc)
all_completed-get (x ∷ xs) zero h g = ground arith
all_completed-get (x ∷ xs) (suc k) {t} h g = ground (arith, all_completed-get xs k {t = t})

-- Where some task is not completed, one can be named.
pub all_completed-false :
    (tasks : List Task)
    → all_completed tasks ≡ false
    → (k : ℕ) × (t : Task) × (get_elem? tasks k ≡ some t) × (is_completed t.state ≡ false)
all_completed-false [] h = absurd (cc)
all_completed-false (x ∷ xs) h = elim (Bool-cases (is_completed x.state)) [
  | inl e ↦ let (k, t, g, n) = all_completed-false xs (ground (arith, e)) in (suc k, t, g, n)
  | inr e ↦ (0, x, refl, e)
]

-- Completing is the only way to make the last task complete; a write of another state undoes it.
pub all_completed-set :
    (tasks : List Task) (i : ℕ) (v : Task)
    → i < length tasks
    → is_completed v.state ≡ false
    → all_completed (set tasks i v) ≡ false
all_completed-set [] i v h n = elim h [ ]
all_completed-set (x ∷ xs) zero v h n = ground arith
all_completed-set (x ∷ xs) (suc i) v h n = ground (arith, all_completed-set xs i v)

pub get_elem?-expire :
    (now : ℕ) (tasks : List Task) (k : ℕ)
    → get_elem? (expire_tasks_locked now tasks) k
      ≡ elim (get_elem? tasks k) [ none ↦ none | some t ↦ some (expire_task now t) ]
unfolding expire_tasks_locked
get_elem?-expire now [] k = refl
get_elem?-expire now (x ∷ xs) zero = refl
get_elem?-expire now (x ∷ xs) (suc k) = get_elem?-expire now xs k

-- Expiry leaves a completed list complete and an incomplete one incomplete.
pub all_completed-expire :
    (now : ℕ) (tasks : List Task)
    → all_completed (expire_tasks_locked now tasks) ≡ all_completed tasks
unfolding expire_tasks_locked
all_completed-expire now [] = refl
all_completed-expire now (x ∷ xs) = ground (arith, all_completed-expire now xs)
