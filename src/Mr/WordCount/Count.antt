-- ===== src/Mr/WordCount/Count.antt =====
-- The distributed word count of src/mr/worker.go and src/mrapps/wc.go.
use mathlib.Core.List.{Permᴰ}
use mit_6_5840_distributed_s.Base.Bytes.{Bytes, bytes_eq}
use mit_6_5840_distributed_s.Base.Utf8.{Ascii, valid-Ascii}
use mit_6_5840_distributed_s.Base.Dict.{lookup}
use mit_6_5840_distributed_s.Base.{
  ℕ, zero, suc, ◌+◌, ◌%◌, ◌<◌, String, ◌≡◌, refl, ap, false, Option, none, some, List, [], ◌∷◌,
  ◌++◌, map, arith, eqb, if◌then◌else◌, length, All, string_eq,
}
use mit_6_5840_distributed_s.Mr.Worker.Buckets.{Utf8}
use mit_6_5840_distributed_s.Mr.Worker.Same.{
  values_of-append, same_length, Sorts, IsUnordered, lookup-sorted, distributed-sequential,
}
use mit_6_5840_distributed_s.Mr.Worker.Runs.{values_of, answer}
use mit_6_5840_distributed_s.Mr.WordCount.Words.{
  stands, occurrences, fields_func-stands, fields_func-Ascii,
}
use mit_6_5840_distributed_s.Mr.WordCount.{fields_func, one_each, wc_map, itoa, wc_reduce}
use mit_6_5840_distributed_s.Mr.Worker.{
  KeyValue, ihash, map_tasks, File, publish_all, matching, concat, contents, reduce_task,
  sequential,
}

pub wc_reduce-IsUnordered : IsUnordered wc_reduce
unfolding wc_reduce
wc_reduce-IsUnordered k vs ws d = ap itoa (same_length d)

-- How often a word stands in the texts.
abbrev pub total : Bytes → List Bytes → ℕ
total k [] = 0
total k (text ∷ texts) = stands k false text + total k texts

length-values_of-one_each :
    (k : Bytes) (ws : List Bytes) → length (values_of k (one_each ws)) ≡ occurrences k ws
length-values_of-one_each k [] = refl
length-values_of-one_each k (w ∷ ws) = ground (arith, length-values_of-one_each k ws)

length-append : (xs ys : List String) → length (xs ++ ys) ≡ length xs + length ys
length-append [] ys = omega arith
length-append (x ∷ xs) ys = omega (arith, length-append xs ys)

length-values_of-total :
    (k : Bytes) (texts : List Bytes)
    → length (values_of k (concat (map wc_map texts))) ≡ total k texts
unfolding concat wc_map
length-values_of-total k [] = refl
length-values_of-total k (text ∷ texts) =
    rw (values_of-append k (wc_map text) (concat (map wc_map texts))) (
      omega (
        arith,
        length-append (values_of k (wc_map text)) (values_of k (concat (map wc_map texts))),
        length-values_of-one_each k (fields_func text),
        fields_func-stands k text,
        length-values_of-total k texts,
      ))

-- The line of a word that stands `m` times in the texts.
abbrev pub count_line : ℕ → Option String
count_line zero = none
count_line (suc m) = some (itoa (suc m))

answer-count_line : (k : Bytes) (vs : List String) → answer wc_reduce k vs ≡ count_line (length vs)
unfolding wc_reduce
answer-count_line k [] = refl
answer-count_line k (v ∷ vs) = refl

-- The map outputs of ASCII texts have UTF-8 keys.
one_each-Utf8 : (ws : List Bytes) → All Ascii ws → Utf8 (one_each ws)
one_each-Utf8 [] h = tt
one_each-Utf8 (w ∷ ws) h = (valid-Ascii w h.0, one_each-Utf8 ws h.1)

wc_map-Utf8 : (texts : List Bytes) → All Ascii texts → All Utf8 (map wc_map texts)
unfolding wc_map
wc_map-Utf8 [] h = tt
wc_map-Utf8 (text ∷ texts) h =
    (one_each-Utf8 (fields_func text) (fields_func-Ascii text h.0), wc_map-Utf8 texts h.1)

-- With at least one reduce task, the map tasks of the distributed word count of some ASCII texts write
-- their files; and a reduce task gives for each word of its part of the hashes the number of places in
-- the texts where the word stands with no ASCII letter before it and none after it, no line for a word
-- that stands nowhere, and no line for a word of another part, in a directory whose other files hold no
-- records that match a reduce task's pattern, provided that the sort sorts and that Glob lists what
-- matches in some order.
pub word_count :
    (sort : List KeyValue → List KeyValue) (order : List File → List File) (n : ℕ)
    (texts : List Bytes) (others : List File)
    → Sorts sort
    → ((files : List File) → Permᴰ (order files) files)
    → 0 < n
    → All Ascii texts
    → ((r : ℕ) → contents (matching r others) ≡ [])
    → (files : List (List (List KeyValue))) × (map_tasks n (map wc_map texts) ≡ some files)
      × ((r : ℕ) (k : Bytes)
          → lookup k (reduce_task sort wc_reduce order r (publish_all 0 files ++ others))
            ≡ (if eqb (ihash k % n) r then count_line (total k texts) else none))
unfolding sequential
word_count sort order n texts others sorts listed h ascii quiet =
    let outputs = map wc_map texts in
    let (files, e, f) =
      distributed-sequential sort sorts wc_reduce wc_reduce-IsUnordered order listed n outputs
        others h (wc_map-Utf8 texts ascii) quiet in
    (
      files,
      e,
      λ r k.
          rw
            (
              f r k,
              lookup-sorted sort sorts wc_reduce wc_reduce-IsUnordered order listed k
                  (concat outputs),
              answer-count_line k (values_of k (concat outputs)),
              length-values_of-total k texts,
            )
            refl,
    )
