-- ===== src/Mr/Tests.antt =====
-- Lives of a MapReduce job on concrete inputs, and instances of the theorems about it.
use mit_6_5840_distributed_s.Base.{
  ℕ, zero, suc, ◌*◌, ◌≤◌, String, ◌≡◌, refl, some, true, List, [], ◌∷◌, arith, ◌⊎◌,
}
use mit_6_5840_distributed_s.Mr.Coordinator.{
  Coordinator, assign, report_task_completion, check_timeout, make_coordinator, done, find_idle,
  all_completed, expire_tasks_locked,
}
use mit_6_5840_distributed_s.Mr.Coordinator.Leases.{
  System, ask, map_done, Step, asked, ticked, map_reported, reduce_reported, init, Reach, start,
  later,
}
use mit_6_5840_distributed_s.Mr.Coordinator.Steps.{Reported, map_next}
use mit_6_5840_distributed_s.Mr.Coordinator.Job.{
  rank, done-all_completed, reduce_after_maps, map_report, phase_forward,
}
use mit_6_5840_distributed_s.Mr.Coordinator.Progress.{work_available, LongAgo}

abbrev files : List String
files = "a.txt" ∷ "b.txt" ∷ []

record Job : Type 0 where
  last : System
  reach : Reach files 1 last

abbrev seconds : ℕ → ℕ
seconds n = n * 1_000_000_000

module _ (j : Job) where
  after : {t : System} → Step j.last t → Job
  after {t} st = record { last = t; reach = later j.reach st }

-- Two workers take the map tasks; the first reports.
two_taken : Job
unfolding after
two_taken = after (after (record { last = _; reach = start }) (asked 0)) (asked 1)

one_reported : Job
unfolding after two_taken ask assign find_idle init make_coordinator report_task_completion
one_reported = after two_taken (map_reported 0 0 (omega arith) refl)

-- The second worker is slow; its task goes to a third one.
reassigned : Job
unfolding after
reassigned = after (after one_reported (ticked (seconds 20))) (asked (seconds 21))

maps_done : Job
unfolding after one_reported reassigned check_timeout expire_tasks_locked
maps_done = after reassigned (map_reported 1 1 (omega arith) refl)

reduce_taken : Job
unfolding after maps_done
reduce_taken = after maps_done (asked (seconds 22))

finished : Job
unfolding after reduce_taken
finished = after reduce_taken (reduce_reported 0 0 (omega arith) refl)

finished_done : done finished.last.coord ≡ true
unfolding finished done
finished_done = refl

done-all_completed_example :
    (all_completed finished.last.coord.map_tasks ≡ true)
    × (all_completed finished.last.coord.reduce_tasks ≡ true)
done-all_completed_example = done-all_completed finished.reach finished_done

reduce_after_maps_example : all_completed reduce_taken.last.coord.map_tasks ≡ true
unfolding reduce_taken
reduce_after_maps_example = reduce_after_maps reduce_taken.reach 0 0 (omega arith)

-- The slow worker reports after all.
map_report_example :
    let s = reassigned.last in
    (c : Coordinator) × (report_task_completion (map_done 1 0) s.coord ≡ some c)
    × Reported s.coord.map_tasks 1 0 s.coord c (map_next s.coord)
unfolding reassigned ask assign check_timeout one_reported
map_report_example = map_report reassigned.reach 1 0 (omega arith)

phase_forward_example : rank maps_done.last.coord.phase ≤ rank (ask 0 maps_done.last).coord.phase
phase_forward_example = phase_forward maps_done.reach (asked 0)

LongAgo-maps : LongAgo (seconds 20) two_taken.last.coord.map_tasks
unfolding two_taken ask assign find_idle init make_coordinator
LongAgo-maps zero t g = ground arith
LongAgo-maps (suc zero) t g = ground arith
LongAgo-maps (suc (suc id)) t g = cc

LongAgo-reduces : LongAgo (seconds 20) two_taken.last.coord.reduce_tasks
unfolding two_taken ask assign find_idle init make_coordinator
LongAgo-reduces zero t g = ground arith
LongAgo-reduces (suc id) t g = cc

work_available_example :
    let reply = (assign (seconds 20) (check_timeout (seconds 20) two_taken.last.coord).0).1 in
    (reply.task_type ≡ "map") ⊎ (reply.task_type ≡ "reduce")
unfolding two_taken ask assign find_idle init make_coordinator
work_available_example =
    work_available (seconds 20) two_taken.reach (λ e. cc) (omega arith) (omega arith) LongAgo-maps
      LongAgo-reduces
