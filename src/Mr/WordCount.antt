-- ===== src/Mr/WordCount.antt =====
-- The word-count application src/mrapps/wc.go. File contents are the bytes of ASCII text, where a
-- rune is a byte.
pub mod Words
pub mod Count
mod Tests
use Prim.Native.String
use mit_6_5840_distributed_s.Base.Bytes.{Bytes}
use mit_6_5840_distributed_s.Base.{
  ℕ, zero, suc, ◌+◌, ◌/◌, ◌%◌, String, Bool, ◌&&◌, ◌||◌, List, [], ◌∷◌, ◌++◌, ltb, leb,
  if◌then◌else◌, length,
}
use mit_6_5840_distributed_s.Mr.Worker.{KeyValue}

-- `unicode.IsLetter`, on ASCII.
abbrev pub is_letter : ℕ → Bool
is_letter c = leb 65 c && leb c 90 || leb 97 c && leb c 122

-- `strings.FieldsFunc` at everything but letters, after the letters `word`.
abbrev pub flush : Bytes → List Bytes → List Bytes
flush [] words = words
flush (c ∷ cs) words = (c ∷ cs) ∷ words

fields_from : Bytes → Bytes → List Bytes
fields_from word [] = flush word []
fields_from word (c ∷ cs) =
    let more = fields_from (word ++ c ∷ []) cs in
    let next = fields_from [] cs in if is_letter c then more else flush word next

unfoldable pub fields_func : Bytes → List Bytes
unfolding fields_from
fields_func contents = fields_from [] contents

abbrev pub one_each : List Bytes → List KeyValue
one_each [] = []
one_each (w ∷ ws) = record { key = w; value = "1" } ∷ one_each ws

-- `Map`; it ignores the file's name.
unfoldable pub wc_map : Bytes → List KeyValue
unfolding fields_func
wc_map contents = one_each (fields_func contents)

-- A decimal digit.
abbrev digit : ℕ → String
digit d = String.slice "0123456789" d (d + 1)

-- `strconv.Itoa` of a number that is not negative, with its digits before `acc`.
unfoldable pub digits_from : ℕ → ℕ → String → String
digits_from zero n acc = acc
digits_from (suc fuel) n acc =
    let s = String.◌++◌ (digit (n % 10)) acc in
    let rest = digits_from fuel (n / 10) s in if ltb n 10 then s else rest

unfoldable pub itoa : ℕ → String
unfolding digits_from
itoa n = digits_from (n + 1) n ""

-- `Reduce`.
unfoldable pub wc_reduce : Bytes → List String → String
unfolding itoa
wc_reduce key values = itoa (length values)
