-- ===== src/KvSrv/Refine.antt =====
-- The handlers of src/kvsrv1/server.go against the sequential model of src/models1/kv.go: the
-- operations that src/kvtest1/porcupine.go records, and the histories that the model accepts.
use mathlib.Core.Path.{subst}
use mathlib.Core.List.{append-nil, append_assoc}
use mit_6_5840_distributed_s.Base.{
  ◌∙◌, ap, sym, String, ◌≡◌, ◌≢◌, refl, Option, Option-cases, inl, inr, none, some, Bool, true,
  false, ◌&&◌, List, [], ◌∷◌, ◌++◌, All, ◌==◌, arith, str_eq_iff, string_eq, if◌then◌else◌, ap,
}
use mit_6_5840_distributed_s.Base.Dict.{Dict, lookup, insert, lookup-insert}
use mit_6_5840_distributed_s.KvSrv.Rpc.{err_no_key, PutArgs, GetArgs, next_version}
use mit_6_5840_distributed_s.KvSrv.Server.{KvStoreEntry, KvServer, get, put, make_kv_server}
use mit_6_5840_distributed_s.KvSrv.Laws.{entry, entry-put}
use mit_6_5840_distributed_s.KvSrv.Model.{KvInput, KvOutput, KvState, init, step}

-- An operation as the tests' log keeps it (its times and its client left out).
pub record Operation : Type 0 where
  pub input : KvInput
  pub output : KvOutput

pub data Request : Type 0 where
  get_request : GetArgs → Request
  put_request : PutArgs → Request

-- A request served, and what the log records of it.
unfoldable pub serve : Request → KvServer → KvServer × Operation
serve (get_request args) kv =
    let r = get args kv in
    (
      kv,
      record {
        input = record { op = 0; key = args.key; value = ""; version = 0 };
        output = record { value = r.value; version = r.version; err = r.err };
      },
    )
serve (put_request args) kv =
    let (kv', r) = put args kv in
    (
      kv',
      record {
        input = record { op = 1; key = args.key; value = args.value; version = args.version };
        output = record { value = ""; version = 0; err = r.err };
      },
    )

unfoldable pub history : List Request → KvServer → List Operation
history [] kv = []
history (r ∷ rs) kv = let (kv', op) = serve r kv in op ∷ history rs kv'

-- `Partition`: the operations of each key, in their order.
append_at : Option (List Operation) → Operation → List Operation
append_at none op = op ∷ []
append_at (some ops) op = ops ++ op ∷ []

partition_from : Dict String (List Operation) → List Operation → Dict String (List Operation)
unfolding append_at
partition_from m [] = m
partition_from m (v ∷ vs) =
    partition_from (insert v.input.key (append_at (lookup v.input.key m) v) m) vs

unfoldable pub partition : List Operation → Dict String (List Operation)
unfolding partition_from
partition ops = partition_from [] ops

-- The checker's run of `Step` over the operations of one key.
unfoldable pub accepts : Option KvState → List Operation → Bool
accepts none [] = true
accepts none (op ∷ ops) = false
accepts (some st) [] = true
accepts (some st) (op ∷ ops) =
    let r = step st op.input op.output in let rest = accepts r.1 ops in r.0 && rest

abbrev pub state_of : Option KvStoreEntry → KvState
state_of none = record { value = ""; version = 0 }
state_of (some e) = record { value = e.value; version = e.version }

serve-get-step :
    (args : GetArgs) (kv : KvServer)
    → let op = (serve (get_request args) kv).1 in
      step (state_of (entry kv args.key)) op.input op.output
      ≡ (true, some (state_of (entry kv args.key)))
unfolding serve step get
serve-get-step args kv = elim (Option-cases (lookup args.key kv.kv_store)) [
  | inl e ↦ rw (e, get) refl
  | inr (x, e) ↦ rw (e, get) (ground (arith, str_eq_iff x.value x.value))
]

serve-put-step :
    (args : PutArgs) (kv : KvServer)
    → (put args kv).1.err ≢ err_no_key
    → let op = (serve (put_request args) kv).1 in
      step (state_of (entry kv args.key)) op.input op.output
      ≡ (true, some (state_of (entry (put args kv).0 args.key)))
unfolding serve step next_version
serve-put-step args kv h = ground (arith, entry-put args kv args.key, str_eq_iff args.key args.key)

-- The operations of one key.
abbrev pub select : String → List Operation → List Operation
select k [] = []
select k (op ∷ ops) = if op.input.key == k then op ∷ select k ops else select k ops

abbrev joined : Option (List Operation) → List Operation → Option (List Operation)
joined none [] = none
joined none (op ∷ ops) = some (op ∷ ops)
joined (some a) ops = some (a ++ ops)

joined-append_at :
    (o : Option (List Operation)) (v : Operation) (vs : List Operation)
    → joined (some (append_at o v)) vs ≡ joined o (v ∷ vs)
unfolding append_at
joined-append_at none v vs = refl
joined-append_at (some a) v vs = ap some (append_assoc a (v ∷ []) vs)

joined-nil : (o : Option (List Operation)) → joined o [] ≡ o
joined-nil none = refl
joined-nil (some a) = ap some (append-nil a)

joined-none : (xs ops : List Operation) → joined none xs ≡ some ops → xs ≡ ops
joined-none [] ops h = cc
joined-none (x ∷ xs) ops h = cc

lookup-partition_from :
    (k : String) (m : Dict String (List Operation)) (ops : List Operation)
    → lookup k (partition_from m ops) ≡ joined (lookup k m) (select k ops)
unfolding partition_from
lookup-partition_from k m [] = sym (joined-nil (lookup k m))
lookup-partition_from k m (v ∷ vs) =
    let key = v.input.key in
    let new = append_at (lookup key m) v in
    ground (
      arith,
      lookup-partition_from k (insert key new m) vs,
      lookup-insert key k new m,
      joined-append_at (lookup key m) v (select k vs),
      str_eq_iff key k,
    )

-- Only a put that found no key, at a version other than 0, is left out.
abbrev pub IsJudged : Operation → Type 0
IsJudged op = op.input.op ≡ 1 → op.output.err ≢ err_no_key

pub accepts-select :
    (k : String) (rs : List Request) (kv : KvServer)
    → All IsJudged (select k (history rs kv))
    → accepts (some (state_of (entry kv k))) (select k (history rs kv)) ≡ true
unfolding history accepts serve
accepts-select k [] kv h = refl
accepts-select k (get_request args ∷ rs) kv h =
    ground (arith, serve-get-step args kv, str_eq_iff args.key k, accepts-select k rs kv)
accepts-select k (put_request args ∷ rs) kv h = ground (
  arith,
  serve-put-step args kv,
  str_eq_iff args.key k,
  entry-put args kv k,
  accepts-select k rs (put args kv).0,
)

-- Each key's part of the partitioned history of a fresh server is accepted by the sequential model
-- from its initial state, provided that no put of the part was answered with `err_no_key`.
pub partition_accepted :
    (rs : List Request) (k : String) (ops : List Operation)
    → lookup k (partition (history rs make_kv_server)) ≡ some ops
    → All IsJudged ops
    → accepts (some init) ops ≡ true
unfolding partition make_kv_server init lookup
partition_accepted rs k ops found judged =
    subst (λ sel. accepts (some init) sel ≡ true) same
      (accepts-select k rs make_kv_server (subst (All IsJudged) (sym same) judged))
  where
    same : select k (history rs make_kv_server) ≡ ops
    same = joined-none _ _ (sym (lookup-partition_from k [] (history rs make_kv_server)) ∙ found)
