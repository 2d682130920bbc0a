-- ===== src/Mr/WordCount/Tests.antt =====
-- Jobs on concrete inputs, and instances of the theorems about them.
use mit_6_5840_distributed_s.Mr.Worker.Buckets.{Utf8}
use mit_6_5840_distributed_s.Base.Bytes.{Bytes, bytes_eq}
use mit_6_5840_distributed_s.Base.Dict.{lookup}
use mit_6_5840_distributed_s.Base.{
  ℕ, ◌%◌, ◌≡◌, refl, none, some, List, [], ◌∷◌, map, arith, eqb, if◌then◌else◌, zero, suc, true,
  ◌++◌, All,
}
use mit_6_5840_distributed_s.Mr.Worker.Sorting.{insert_by_key, sort_by_key, sort_by_key-Sorts}
use mit_6_5840_distributed_s.Mr.WordCount.{
  fields_func, wc_map, itoa, wc_reduce, fields_from, digits_from,
}
use mit_6_5840_distributed_s.Mr.WordCount.Count.{
  total, count_line, word_count, wc_reduce-IsUnordered,
}
use mit_6_5840_distributed_s.Mr.Worker.Same.{distributed-sequential}
use mit_6_5840_distributed_s.Base.Utf8.{json_text, json_from, rune_size, valid, valid_from, Ascii}
use mit_6_5840_distributed_s.Mr.Worker.{
  KeyValue, ihash, take_run, reduce_loop, reduce_helper, map_tasks, concat, reduce_task, sequential,
  other_name, File, publish_all, matching, contents,
}
use mathlib.Core.List.Permᴰ

-- "a b a" and "b c".
abbrev texts : List Bytes
texts = (97 ∷ 32 ∷ 98 ∷ 32 ∷ 97 ∷ []) ∷ (98 ∷ 32 ∷ 99 ∷ []) ∷ []

abbrev outputs : List (List KeyValue)
outputs = map wc_map texts

sequential_count :
    sequential sort_by_key wc_reduce outputs ≡ (97 ∷ [], "2") ∷ (98 ∷ [], "2") ∷ (99 ∷ [], "1") ∷ []
unfolding sequential reduce_helper reduce_loop take_run concat sort_by_key insert_by_key wc_map
    fields_func fields_from wc_reduce itoa digits_from
sequential_count = refl

twelve : itoa 12 ≡ "12"
unfolding itoa digits_from
twelve = refl

-- The output of an earlier run, without records, and a file of somebody else.
abbrev leftovers : List File
leftovers =
    record { name = other_name (some 0); records = [] }
    ∷ record { name = other_name none; records = record { key = 97 ∷ []; value = "1" } ∷ [] }
    ∷ []

leftovers_quiet : (r : ℕ) → contents (matching r leftovers) ≡ []
unfolding matching concat
leftovers_quiet zero = refl
leftovers_quiet (suc r) = ground arith

-- A byte that is not UTF-8 reads back as another text.
recoded_byte : json_text (97 ∷ 255 ∷ []) ≡ 97 ∷ 239 ∷ 191 ∷ 189 ∷ []
unfolding json_text json_from rune_size
recoded_byte = refl

-- "é" and "€" are UTF-8.
recoded_runes : valid (195 ∷ 169 ∷ 226 ∷ 130 ∷ 172 ∷ []) ≡ true
unfolding valid valid_from rune_size
recoded_runes = refl

Ascii-texts : All Ascii texts
Ascii-texts = ground arith

Utf8-outputs : All Utf8 outputs
unfolding wc_map fields_func fields_from valid valid_from rune_size
Utf8-outputs = ((refl, (refl, (refl, tt))), ((refl, (refl, tt)), tt))

distributed-sequential_example :
    (files : List (List (List KeyValue))) × (map_tasks 2 outputs ≡ some files)
    × ((r : ℕ) (k : Bytes)
        → lookup k
            (reduce_task sort_by_key wc_reduce (λ fs. fs) r (publish_all 0 files ++ leftovers))
          ≡ (if eqb (ihash k % 2) r
              then lookup k (sequential sort_by_key wc_reduce outputs)
              else none))
distributed-sequential_example =
    distributed-sequential sort_by_key sort_by_key-Sorts wc_reduce wc_reduce-IsUnordered (λ fs. fs)
      (λ fs. Permᴰ.refl fs) 2 outputs leftovers (omega arith) Utf8-outputs leftovers_quiet

word_count_example :
    (files : List (List (List KeyValue))) × (map_tasks 3 outputs ≡ some files)
    × ((r : ℕ) (k : Bytes)
        → lookup k
            (reduce_task sort_by_key wc_reduce (λ fs. fs) r (publish_all 0 files ++ leftovers))
          ≡ (if eqb (ihash k % 3) r then count_line (total k texts) else none))
word_count_example =
    word_count sort_by_key (λ fs. fs) 3 texts leftovers sort_by_key-Sorts (λ fs. Permᴰ.refl fs)
      (omega arith) Ascii-texts leftovers_quiet
