-- ===== src/Mr/Coordinator/Leases.antt =====
-- The coordinator of src/mr/coordinator.go with workers as src/mr/worker.go has them: a worker
-- reports a task only if it was assigned it, and once; it may also never report. A lease is an
-- assignment (kind, task, attempt) that its worker has not reported yet.
use mit_6_5840_distributed_s.Base.{
  ℕ, suc, ◌-◌, ◌<◌, ◌≡◌, String, some, List, eqb, ◌==◌, string_eq, if◌then◌else◌,
}
use mit_6_5840_distributed_s.Mr.Coordinator.{
  Coordinator, RpcReply, DoneArgs, assign, report_task_completion, check_timeout, make_coordinator,
}

-- How many workers hold each attempt of each task.
abbrev pub Held : Type 0
Held = ℕ → ℕ → ℕ

pub record System : Type 0 where
  pub coord : Coordinator
  pub maps : Held
  pub reduces : Held

abbrev pub one_more : ℕ → (ℕ → ℕ) → ℕ → ℕ
one_more att h a = if eqb att a then suc (h a) else h a

abbrev pub one_less : ℕ → (ℕ → ℕ) → ℕ → ℕ
one_less att h a = if eqb att a then h a - 1 else h a

abbrev pub grant : ℕ → ℕ → Held → Held
grant id att held i = if eqb id i then one_more att (held id) else held i

abbrev pub release : ℕ → ℕ → Held → Held
release id att held i = if eqb id i then one_less att (held id) else held i

-- The worker that got a reply holds what it names.
unfoldable pub granted : RpcReply → System → System
granted reply s =
    if reply.task_type == "map"
    then record s { maps = grant reply.task_id reply.attempt s.maps }
    else if reply.task_type == "reduce"
    then record s { reduces = grant reply.task_id reply.attempt s.reduces }
    else s

unfoldable pub ask : ℕ → System → System
unfolding granted
ask now s = let (c, reply) = assign now s.coord in granted reply (record s { coord = c })

abbrev pub map_done : ℕ → ℕ → DoneArgs
map_done id att = record { task_type = "map"; task_id = id; attempt = att }

abbrev pub reduce_done : ℕ → ℕ → DoneArgs
reduce_done id att = record { task_type = "reduce"; task_id = id; attempt = att }

pub data Step (s : System) : System → Type 0 where
  asked : (now : ℕ) → Step s (ask now s)
  ticked : (now : ℕ) → Step s (record s { coord = (check_timeout now s.coord).0 })
  map_reported :
      (id att : ℕ) {c : Coordinator}
      → 0 < s.maps id att
      → report_task_completion (map_done id att) s.coord ≡ some c
      → Step s (record { coord = c; maps = release id att s.maps; reduces = s.reduces })
  reduce_reported :
      (id att : ℕ) {c : Coordinator}
      → 0 < s.reduces id att
      → report_task_completion (reduce_done id att) s.coord ≡ some c
      → Step s (record { coord = c; maps = s.maps; reduces = release id att s.reduces })

unfoldable pub init : List String → ℕ → System
init files n_reduce = record {
  coord = make_coordinator files n_reduce;
  maps = λ _ _. 0;
  reduces = λ _ _. 0;
}

pub data Reach (files : List String) (n_reduce : ℕ) : System → Type 0 where
  start : Reach files n_reduce (init files n_reduce)
  later : {s t : System} → Reach files n_reduce s → Step s t → Reach files n_reduce t
