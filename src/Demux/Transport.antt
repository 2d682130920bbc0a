-- ===== src/Demux/Transport.antt =====
-- src/tester1/demux/transport.go: messages on a connection. A stream is the bytes that arrive until the
-- connection ends. gob is the parameter `marshall` with `unmarshall`, which is `none` for `log.Fatalf`.
-- Errors of writes are left out: a write that fails leaves a stream that ends early.
pub mod Frames
use mit_6_5840_distributed_s.Base.Bytes.{Bytes}
use mit_6_5840_distributed_s.Base.{
  ℕ, zero, suc, ◌+◌, ◌*◌, ◌/◌, ◌%◌, Bool, Option, none, some, List, [], ◌∷◌, ◌++◌, length, ◌>>=◌,
}

pub record Msg : Type 0 where
  pub tag : ℕ
  pub body : Bytes
  pub ok : Bool

-- `binary.LittleEndian` of a uint32, written and read.
unfoldable pub le32 : ℕ → Bytes
le32 n = n % 256 ∷ n / 256 % 256 ∷ n / 65536 % 256 ∷ n / 16777216 % 256 ∷ []

abbrev pub of_le32 : ℕ → ℕ → ℕ → ℕ → ℕ
of_le32 a b c d = a + b * 256 + c * 65536 + d * 16777216

-- `io.ReadFull`: the bytes and the rest of the stream, or `none` if the stream ends before.
unfoldable pub read_full : ℕ → Bytes → Option (Bytes × Bytes)
read_full zero s = some ([], s)
read_full (suc n) [] = none
read_full (suc n) (x ∷ s) = do r ← read_full n s; some (x ∷ r.0, r.1)

-- What `ReadCall` returns. `eof` is io.EOF, which ReadFull returns as well where nothing is left.
pub data Read : Type 0 where
  call : Msg → Bytes → Read
  eof short fatal : Read

module _ (marshall : Msg → Bytes) (unmarshall : Bytes → Option Msg) where
  unfoldable pub write_call : Msg → Bytes
  write_call m = let b = marshall m in le32 (length b) ++ b

  abbrev pub decoded : Bytes → Option Msg → Read
  decoded rest none = fatal
  decoded rest (some m) = call m rest

  abbrev pub full : Bytes → Option (Bytes × Bytes) → Read
  full [] none = eof
  full (x ∷ s) none = short
  full s (some (b, rest)) = decoded rest (unmarshall b)

  unfoldable pub read_call : Bytes → Read
  read_call [] = eof
  read_call (a ∷ b ∷ c ∷ d ∷ s) = full s (read_full (of_le32 a b c d) s)
  read_call _ = short

  -- The messages that `reader` reads until an error, and the error. Each of them takes four bytes at
  -- least of the stream; `none` is out of fuel.
  abbrev pub after_read : Read → (Bytes → Option (List Msg × Read)) → Option (List Msg × Read)
  after_read (call m rest) again = again rest >>= λ r. some (m ∷ r.0, r.1)
  after_read e again = some ([], e)

  unfoldable pub read_calls : ℕ → Bytes → Option (List Msg × Read)
  read_calls zero s = none
  read_calls (suc fuel) s = after_read (read_call s) (read_calls fuel)

  unfoldable pub write_calls : List Msg → Bytes
  write_calls [] = []
  write_calls (m ∷ ms) = write_call m ++ write_calls ms
