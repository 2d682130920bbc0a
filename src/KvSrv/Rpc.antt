-- ===== src/KvSrv/Rpc.antt =====
-- src/kvsrv1/rpc/rpc.go: the arguments and replies of the service's calls. `Tversion` is a uint64.
use mit_6_5840_distributed_s.Base.{ℕ, String, ◌+◌, ◌%◌, ◌^◌, Bool, true, false}

-- The values of the Go string type `Err` that the package names.
pub data Err : Type 0 where
  ok err_no_key err_version err_maybe err_wrong_leader err_wrong_group : Err

-- `==` on `Err`, at the constants that the callers compare with.
abbrev pub is_ok : Err → Bool
is_ok ok = true
is_ok _ = false

abbrev pub is_err_version : Err → Bool
is_err_version err_version = true
is_err_version _ = false

abbrev pub is_err_maybe : Err → Bool
is_err_maybe err_maybe = true
is_err_maybe _ = false

abbrev pub tversion_mod : ℕ
tversion_mod = 2 ^ 64

-- `version + 1` on a uint64.
unfoldable pub next_version : ℕ → ℕ
next_version v = (v + 1) % tversion_mod

pub record PutArgs : Type 0 where
  pub key : String
  pub value : String
  pub version : ℕ

pub record PutReply : Type 0 where
  pub err : Err

pub record GetArgs : Type 0 where
  pub key : String

pub record GetReply : Type 0 where
  pub value : String
  pub version : ℕ
  pub err : Err
