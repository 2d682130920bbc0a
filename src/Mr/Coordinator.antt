-- ===== src/Mr/Coordinator.antt =====
-- src/mr/coordinator.go and the messages of src/mr/rpc.go. Every handler and every tick of
-- `CheckTimeout` holds the mutex throughout, so each is one step of the state. Times are nanoseconds
-- of the coordinator's clock. A panic is `none`. Attempts count timeouts at least ten seconds apart,
-- and are kept unbounded.
pub mod Tasks
pub mod Leases
pub mod Invariant
pub mod Steps
pub mod Phases
pub mod Safety
pub mod Job
pub mod Progress
use mit_6_5840_distributed_s.Base.{
  ℕ, zero, suc, ◌+◌, ◌-◌, ◌*◌, String, Bool, true, false, not, Option, none, some, List, [], ◌∷◌,
  length, get_elem?, set, map, replicate, ◌==◌, eqb, ltb, string_eq, if◌then◌else◌,
}

pub data TaskState : Type 0 where
  idle in_progress completed : TaskState

pub data Phase : Type 0 where
  map_phase reduce_phase all_done : Phase

pub record Task : Type 0 where
  pub file : String
  pub state : TaskState
  pub start_time : ℕ
  pub attempt : ℕ

pub record Coordinator : Type 0 where
  pub phase : Phase
  pub n_map : ℕ
  pub n_reduce : ℕ
  pub map_tasks : List Task
  pub reduce_tasks : List Task

pub record RpcReply : Type 0 where
  pub task_type : String
  pub map_file : String
  pub n_reduce : ℕ
  pub task_id : ℕ
  pub attempt : ℕ

pub record DoneArgs : Type 0 where
  pub task_type : String
  pub task_id : ℕ
  pub attempt : ℕ

abbrev pub is_idle : TaskState → Bool
is_idle idle = true
is_idle _ = false

abbrev pub is_completed : TaskState → Bool
is_completed completed = true
is_completed _ = false

-- The first idle task of a `range` loop that stands at index `i`.
unfoldable pub find_idle : ℕ → List Task → Option (ℕ × Task)
find_idle i [] = none
find_idle i (task ∷ rest) = if is_idle task.state then some (i, task) else find_idle (i + 1) rest

-- The reply that the rpc layer hands to the handler, with its task type set.
abbrev pub only_type : String → RpcReply
only_type t = record { task_type = t; map_file = ""; n_reduce = 0; task_id = 0; attempt = 0 }

abbrev pub started : ℕ → Task → Task
started now task = record task { state = in_progress; start_time = now }

assign_map : ℕ → Option (ℕ × Task) → Coordinator → Coordinator × RpcReply
assign_map now none c = (c, only_type "wait")
assign_map now (some (i, task)) c = (
  record c { map_tasks = set c.map_tasks i (started now task) },
  record {
    task_type = "map";
    map_file = task.file;
    n_reduce = c.n_reduce;
    task_id = i;
    attempt = task.attempt;
  },
)

assign_reduce : ℕ → Option (ℕ × Task) → Coordinator → Coordinator × RpcReply
assign_reduce now none c = (c, only_type "wait")
assign_reduce now (some (i, task)) c = (
  record c { reduce_tasks = set c.reduce_tasks i (started now task) },
  record {
    task_type = "reduce";
    map_file = "";
    n_reduce = c.n_reduce;
    task_id = i;
    attempt = task.attempt;
  },
)

assign_in : Phase → ℕ → Coordinator → Coordinator × RpcReply
unfolding assign_map assign_reduce find_idle
assign_in map_phase now c = assign_map now (find_idle 0 c.map_tasks) c
assign_in reduce_phase now c = assign_reduce now (find_idle 0 c.reduce_tasks) c
assign_in all_done now c = (c, only_type "exit")

unfoldable pub assign : ℕ → Coordinator → Coordinator × RpcReply
unfolding assign_in
assign now c = assign_in c.phase now c

abbrev pub all_completed : List Task → Bool
all_completed [] = true
all_completed (task ∷ rest) = if not (is_completed task.state) then false else all_completed rest

-- A report about one list of tasks: `none` where the index panics, `some none` where the attempt is
-- rejected.
unfoldable pub complete : List Task → ℕ → ℕ → Option (Option (List Task))
complete tasks id att = elim (get_elem? tasks id) [
  | none ↦ none
  | some task ↦
      if not (eqb task.attempt att)
      then some none
      else some (some (set tasks id (record task { state = completed })))
]

after_map : Coordinator → Option (Option (List Task)) → Option Coordinator
after_map c none = none
after_map c (some none) = some c
after_map c (some (some tasks)) =
    let c' = record c { map_tasks = tasks } in
    some (if all_completed tasks then record c' { phase = reduce_phase } else c')

after_reduce : Coordinator → Option (Option (List Task)) → Option Coordinator
after_reduce c none = none
after_reduce c (some none) = some c
after_reduce c (some (some tasks)) =
    let c' = record c { reduce_tasks = tasks } in
    some (if all_completed tasks then record c' { phase = all_done } else c')

unfoldable pub report_task_completion : DoneArgs → Coordinator → Option Coordinator
unfolding after_map after_reduce complete
report_task_completion args c =
    if args.task_type == "map"
    then after_map c (complete c.map_tasks args.task_id args.attempt)
    else if args.task_type == "reduce"
    then after_reduce c (complete c.reduce_tasks args.task_id args.attempt)
    else some c

unfoldable pub done : Coordinator → Bool
done c = elim c.phase [ all_done ↦ true | _ ↦ false ]

-- Ten seconds.
abbrev pub task_timeout : ℕ
task_timeout = 10 * 1_000_000_000

-- A clock that runs backwards gives an elapsed time below 0 in the source and 0 here.
abbrev pub expire_task : ℕ → Task → Task
expire_task now task = elim task.state [
  | in_progress ↦
      if ltb task_timeout (now - task.start_time)
      then record task { state = idle; attempt = task.attempt + 1 }
      else task
  | _ ↦ task
]

unfoldable pub expire_tasks_locked : ℕ → List Task → List Task
expire_tasks_locked now tasks = map (expire_task now) tasks

check_in : Phase → ℕ → Coordinator → Coordinator × Bool
unfolding expire_tasks_locked
check_in map_phase now c = (record c { map_tasks = expire_tasks_locked now c.map_tasks }, true)
check_in reduce_phase now c =
    (record c { reduce_tasks = expire_tasks_locked now c.reduce_tasks }, true)
check_in all_done now c = (c, false)

-- One tick of `CheckTimeout`, and whether its loop goes on.
unfoldable pub check_timeout : ℕ → Coordinator → Coordinator × Bool
unfolding check_in
check_timeout now c = check_in c.phase now c

abbrev pub new_task : String → Task
new_task file = record { file = file; state = idle; start_time = 0; attempt = 0 }

unfoldable pub make_coordinator : List String → ℕ → Coordinator
make_coordinator files n_reduce = record {
  phase = map_phase;
  n_map = length files;
  n_reduce = n_reduce;
  map_tasks = map new_task files;
  reduce_tasks = replicate n_reduce (new_task "");
}
