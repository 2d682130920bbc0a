-- ===== src/KvTest.antt =====
-- src/kvtest1/kvtest.go: what the tests of the key/value services do and check. The clerk is the one of
-- src/kvsrv1, on schedules of the network: one schedule for each call. JSON is a parameter. A failed
-- test (`Fatalf`) ends the run.
pub mod AtLeastOnce
pub mod Appends
pub mod Counts
pub mod Scan
mod Tests
use mit_6_5840_distributed_s.Base.{
  ℕ, zero, suc, ◌+◌, ◌-◌, String, Bool, true, false, not, ◌&&◌, ◌||◌, Option, none, some, List, [],
  ◌∷◌, eqb, ltb, leb, if◌then◌else◌, get_elem?, length, nat_eq, string_eq, ◌==◌,
}
use mit_6_5840_distributed_s.Base.Dict.{Dict, insert, lookup}
use mit_6_5840_distributed_s.Mr.WordCount.{itoa}
use mit_6_5840_distributed_s.Annotate.Fault.{numbers, ◌+s◌}
use mit_6_5840_distributed_s.KvSrv.Rpc.{
  Err, is_ok, is_err_version, is_err_maybe, next_version, PutArgs, GetArgs, GetReply,
}
use mit_6_5840_distributed_s.KvSrv.Server.{KvServer}
use mit_6_5840_distributed_s.KvSrv.Clerk.{Attempt, clerk_put, clerk_get}

-- How a call of the tests ends: with a result, with a failed test, or not on these schedules.
pub data Result {ℓ} (A : Type ℓ) : Type ℓ where
  returns : A → Result A
  fatal waiting : Result A

-- What `PutAtLeastOnce` does with the error of one put; `again` is the rest of its loop.
abbrev pub settle_put :
    Option Err → ℕ → KvServer → (ℕ → KvServer → KvServer × Result ℕ) → KvServer × Result ℕ
settle_put none ver kv again = (kv, waiting)
settle_put (some err) ver kv again =
    if is_ok err
    then (kv, returns (next_version ver))
    else if is_err_maybe err || is_err_version err
    then again (next_version ver) kv
    else if not (eqb ver 0)
    then (kv, fatal)
    else again ver kv

unfoldable pub put_at_least_once :
    String → String → List (List Attempt) → ℕ → KvServer → KvServer × Result ℕ
put_at_least_once key value [] ver kv = (kv, waiting)
put_at_least_once key value (sched ∷ rest) ver kv =
    let (kv', err) = clerk_put (record { key = key; value = value; version = ver }) sched kv in
    settle_put err ver kv' (put_at_least_once key value rest)

-- `CheckGet`, on what the clerk's Get returns: whether the test goes on.
unfoldable pub check_get : String → ℕ → GetReply → Bool
check_get value version reply =
    if not (is_ok reply.err) then false else reply.value == value && eqb reply.version version

pub record ClntRes : Type 0 where
  pub n_ok : ℕ
  pub n_maybe : ℕ

unfoldable pub sum_results : List ClntRes → ClntRes → ClntRes
sum_results [] res = res
sum_results (r ∷ rs) res =
    sum_results rs (record { n_ok = res.n_ok + r.n_ok; n_maybe = res.n_maybe + r.n_maybe })

-- `CheckPutConcurrent`, with the version that GetJson returns.
unfoldable pub check_put_concurrent : ℕ → List ClntRes → ClntRes → Bool → ClntRes × Bool
check_put_concurrent ver0 rs res reliable =
    let res' = sum_results rs res in
    (res', if reliable then eqb ver0 res'.n_ok else leb ver0 (res'.n_ok + res'.n_maybe))

pub record EntryV : Type 0 where
  pub id : ℕ
  pub v : ℕ

-- `OnePut`, with the encoding of its values. A round is a put and a get.
module _ (encode : EntryV → String) (decode : String → Option EntryV) where
  -- `GetJson`: the version and the value.
  abbrev pub get_json : Option GetReply → Result (ℕ × EntryV)
  get_json none = waiting
  get_json (some reply) =
      if is_ok reply.err
      then elim (decode reply.value) [ none ↦ fatal | some e ↦ returns (reply.version, e) ]
      else fatal

  -- After the get: the value of a put that came through is checked, and the loop ends unless the put
  -- was refused.
  abbrev pub checked_get :
      ℕ
      → ℕ
      → Err
      → Result (ℕ × EntryV)
      → KvServer
      → (ℕ → KvServer → KvServer × Result (ℕ × Bool))
      → KvServer × Result (ℕ × Bool)
  checked_get me ver err waiting kv again = (kv, waiting)
  checked_get me ver err fatal kv again = (kv, fatal)
  checked_get me ver err (returns (ver0, e)) kv again =
      if is_ok err && eqb ver0 (next_version ver) && (not (eqb e.id me) && not (eqb e.v ver))
      then (kv, fatal)
      else if is_ok err || is_err_maybe err
      then (kv, returns (ver0, is_ok err))
      else again ver0 kv

  abbrev pub after_one_put :
      ℕ
      → String
      → ℕ
      → Option Err
      → List Attempt
      → KvServer
      → (ℕ → KvServer → KvServer × Result (ℕ × Bool))
      → KvServer × Result (ℕ × Bool)
  after_one_put me key ver none sched kv again = (kv, waiting)
  after_one_put me key ver (some err) sched kv again =
      if not (is_ok err || is_err_version err || is_err_maybe err)
      then (kv, fatal)
      else let (kv', reply) = clerk_get (record { key = key }) sched kv in
        checked_get me ver err (get_json reply) kv' again

  unfoldable pub one_put :
      ℕ → String → List (List Attempt × List Attempt) → ℕ → KvServer → KvServer × Result (ℕ × Bool)
  one_put me key [] ver kv = (kv, waiting)
  one_put me key ((sched, sched') ∷ rest) ver kv =
      let (kv', err) =
        clerk_put
          (record { key = key; value = encode (record { id = me; v = ver }); version = ver }) sched
          kv in
      after_one_put me key ver err sched' kv' (one_put me key rest)

  -- `OneClientPut`: one round for each key that is drawn, until the schedules end. A key that was not
  -- put before has the version 0.
  abbrev pub version_in : Dict String ℕ → String → ℕ
  version_in verm k = elim (lookup k verm) [ none ↦ 0 | some v ↦ v ]

  abbrev pub after_round :
      KvServer × Result (ℕ × Bool)
      → String
      → Dict String ℕ
      → ClntRes
      → (Dict String ℕ → KvServer → ClntRes → KvServer × Result ClntRes)
      → KvServer × Result ClntRes
  after_round (kv, waiting) k verm res again = (kv, waiting)
  after_round (kv, fatal) k verm res again = (kv, fatal)
  after_round (kv, returns (ver, true)) k verm res again =
      again (insert k ver verm) kv (record res { n_ok = res.n_ok + 1 })
  after_round (kv, returns (ver, false)) k verm res again =
      again (insert k ver verm) kv (record res { n_maybe = res.n_maybe + 1 })

  unfoldable pub one_client_put :
      ℕ
      → List (String × List (List Attempt × List Attempt))
      → Dict String ℕ
      → KvServer
      → ClntRes
      → KvServer × Result ClntRes
  one_client_put me [] verm kv res = (kv, returns res)
  one_client_put me ((k, scheds) ∷ rest) verm kv res =
      after_round (one_put me k scheds (version_in verm k) kv) k verm res (one_client_put me rest)

-- `MakeKeys`.
abbrev pub keys_of : List ℕ → List String
keys_of [] = []
keys_of (i ∷ is) = ("k" +s itoa i) ∷ keys_of is

unfoldable pub make_keys : ℕ → List String
make_keys n = keys_of (numbers 0 n)

pub record EntryN : Type 0 where
  pub id : ℕ
  pub n : ℕ

abbrev pub at_key : ℕ → Dict ℕ ℕ → ℕ
at_key k d = elim (lookup k d) [ none ↦ 0 | some v ↦ v ]

-- `CheckAppends`: first the maps, with an entry for each client.
unfoldable pub zeros : List ℕ → Dict ℕ ℕ → Dict ℕ ℕ
zeros [] d = d
zeros (i ∷ is) d = zeros is (insert i 0 d)

-- Then the loop over the entries, which gives `expect` and `skipped`; `none` is a failed test.
unfoldable pub scan_entries : List EntryN → Dict ℕ ℕ → Dict ℕ ℕ → Option (Dict ℕ ℕ × Dict ℕ ℕ)
scan_entries [] expect skipped = some (expect, skipped)
scan_entries (e ∷ es) expect skipped =
    let x = at_key e.id expect in
    let next = scan_entries es (insert e.id (x + 1) expect) skipped in
    let skip =
      scan_entries es (insert e.id (e.n + 1) expect)
        (insert e.id (at_key e.id skipped + (e.n - x)) skipped) in
    if ltb e.n x then none else if eqb x e.n then next else skip

-- And the comparison with what the clients have counted; a client that is not in `rs` is a panic,
-- which fails the test as well.
abbrev pub within : ℕ → ℕ → Option ClntRes → Bool
within skipped n none = false
within skipped n (some r) = leb skipped r.n_maybe && leb n (r.n_ok + r.n_maybe)

unfoldable pub all_within : Dict ℕ ℕ → Dict ℕ ℕ → List ClntRes → Bool
all_within [] skipped rs = true
all_within ((c, n) ∷ rest) skipped rs =
    within (at_key c skipped) n (get_elem? rs c) && all_within rest skipped rs

abbrev pub counts_match : Option (Dict ℕ ℕ × Dict ℕ ℕ) → ℕ → List ClntRes → ℕ → Bool
counts_match none len rs ver = false
counts_match (some (expect, skipped)) len rs ver = eqb (len + 1) ver && all_within expect skipped rs

unfoldable pub check_appends : List EntryN → ℕ → List ClntRes → ℕ → Bool
check_appends es nclnt rs ver =
    let start = zeros (numbers 0 nclnt) [] in
    counts_match (scan_entries es start start) (length es) rs ver
