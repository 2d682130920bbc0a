-- ===== src/KvSrv/Model.antt =====
-- src/models1/kv.go: the sequential specification of one key, by which histories are judged.
use mit_6_5840_distributed_s.Base.{
  ℕ, zero, suc, String, Bool, false, ◌||◌, Option, none, some, ◌==◌, eqb, string_eq, if◌then◌else◌,
}
use mit_6_5840_distributed_s.KvSrv.Rpc.{Err, is_ok, is_err_version, is_err_maybe, next_version}

pub record KvInput : Type 0 where
  pub op : ℕ
  pub key : String
  pub value : String
  pub version : ℕ

pub record KvOutput : Type 0 where
  pub value : String
  pub version : ℕ
  pub err : Err

pub record KvState : Type 0 where
  pub value : String
  pub version : ℕ

unfoldable pub init : KvState
init = record { value = ""; version = 0 }

step_get : KvState → KvOutput → Bool × Option KvState
step_get st out = (out.value == st.value, some st)

step_put : KvState → KvInput → KvOutput → Bool × Option KvState
step_put st inp out =
    if eqb st.version inp.version
    then (
      is_ok out.err || is_err_maybe out.err,
      some (record { value = inp.value; version = next_version st.version }),
    )
    else (is_err_version out.err || is_err_maybe out.err, some st)

step_op : ℕ → KvState → KvInput → KvOutput → Bool × Option KvState
unfolding step_get step_put
step_op zero st inp out = step_get st out
step_op (suc zero) st inp out = step_put st inp out
step_op (suc (suc n)) st inp out = (false, none)

-- `none` is the state "<invalid>", which no later step accepts.
unfoldable pub step : KvState → KvInput → KvOutput → Bool × Option KvState
unfolding step_op
step st inp out = step_op inp.op st inp out
