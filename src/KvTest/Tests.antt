-- ===== src/KvTest/Tests.antt =====
-- Runs of the tests' library on concrete schedules, and instances of the theorems about it.
use mit_6_5840_distributed_s.KvSrv.Rpc.{next_version}
use mit_6_5840_distributed_s.KvTest.Counts.{numbers_of}
use mit_6_5840_distributed_s.KvTest.Appends.{Plausible, check_appends-Plausible}
use mit_6_5840_distributed_s.KvTest.AtLeastOnce.{
  Settled, put_at_least_once-Settled, put_at_least_once_returns,
}
use mit_6_5840_distributed_s.Base.Dict.{lookup, insert}
use mit_6_5840_distributed_s.KvTest.{
  put_at_least_once, EntryN, ClntRes, check_appends, returns, scan_entries, zeros, all_within,
  next_version,
}
use mit_6_5840_distributed_s.Base.{
  ℕ, ◌+◌, ◌<◌, ◌≡◌, refl, ◌↔◌, true, false, some, List, [], ◌∷◌, arith, get_elem?, inl, inr,
  string_eq, nat_eq,
}
use mit_6_5840_distributed_s.KvSrv.Server.{KvServer, put, put_found, store_entry}
use mit_6_5840_distributed_s.KvSrv.Clerk.{
  Attempt, request_lost, reply_lost, delivered, clerk_put, serve_puts, clerk_put_loop,
}

-- The first put is executed and its reply lost; the second comes through.
abbrev scheds : List (List Attempt)
scheds = (reply_lost [] ∷ delivered [] ∷ []) ∷ (request_lost [] ∷ delivered [] ∷ []) ∷ []

abbrev empty : KvServer
empty = record { kv_store = [] }

abbrev twice : KvServer
twice = record { kv_store = ("k", record { value = "v"; version = 2 }) ∷ [] }

two_puts : put_at_least_once "k" "v" scheds 0 empty ≡ (twice, returns 2)
unfolding put_at_least_once clerk_put clerk_put_loop serve_puts put put_found store_entry insert
    lookup next_version
two_puts = refl

put_at_least_once-Settled_example : Settled "k" "v" 0 2 (put_at_least_once "k" "v" scheds 0 empty)
unfolding lookup
put_at_least_once-Settled_example =
    put_at_least_once-Settled "k" "v" scheds 0 empty refl ((tt, (tt, tt)), ((tt, (tt, tt)), tt))
      (omega arith)

put_at_least_once_returns_example :
    (kv' : KvServer) × (v : ℕ) × (put_at_least_once "k" "v" scheds 0 empty ≡ (kv', returns v))
unfolding lookup
put_at_least_once_returns_example =
    put_at_least_once_returns "k" "v" scheds 0 empty refl ((tt, (tt, tt)), ((tt, (tt, tt)), tt))
      (omega arith) (tt, (tt, tt)) (inr (inl tt))

abbrev entry_of : ℕ → ℕ → EntryN
entry_of c n = record { id = c; n = n }

abbrev counted : ℕ → ℕ → ClntRes
counted a b = record { n_ok = a; n_maybe = b }

-- Client 1 has left out the number 0, which it may.
abbrev appended : List EntryN
appended = entry_of 0 0 ∷ entry_of 1 1 ∷ entry_of 0 1 ∷ []

abbrev results : List ClntRes
results = counted 2 0 ∷ counted 1 1 ∷ []

appends_pass : check_appends appended 2 results 4 ≡ true
unfolding check_appends scan_entries zeros insert lookup all_within
appends_pass = refl

appends_fail : check_appends appended 2 (counted 2 0 ∷ counted 2 0 ∷ []) 4 ≡ false
unfolding check_appends scan_entries zeros insert lookup all_within
appends_fail = refl

check_appends-Plausible_example : (check_appends appended 2 results 4 ≡ true) ↔ (
    (3 + 1 ≡ 4)
    × ((c : ℕ) (r : ClntRes)
        → c < 2
        → get_elem? results c ≡ some r
        → Plausible (numbers_of c appended) r))
check_appends-Plausible_example =
    check_appends-Plausible appended 2 results 4 (omega arith) (omega arith)
