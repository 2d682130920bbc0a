-- ===== src/Mr/Worker/Same.antt =====
-- The distributed computation of src/mr/worker.go and the sequential one of
-- src/main/mrsequential.go.

use mit_6_5840_distributed_s.Base.Dict.{lookup}
use mathlib.Core.List.{append_assoc, Permᴰ}
use mathlib.Core.Path.{subst}
use mit_6_5840_distributed_s.Base.Bytes.{Bytes, bytes_eq}
use mit_6_5840_distributed_s.Base.{
  ℕ, ◌%◌, ◌<◌, ◌≡◌, refl, sym, ap, ◌∙◌, inl, inr, some, List, [], ◌∷◌, ◌++◌, arith, eqb,
  if◌then◌else◌, Bool-cases, ◌==◌, suc, String, none, length, string_eq, All,
}
use mit_6_5840_distributed_s.Mr.Worker.Buckets.{Utf8, file_at, map_task-bucket, values_of-bucket}
use mit_6_5840_distributed_s.Mr.Worker.Directory.{read_files, found_files}
use mit_6_5840_distributed_s.Mr.Worker.Runs.{values_of, IsSorted, answer, lookup-reduce_helper}
use mit_6_5840_distributed_s.Mr.Worker.{
  KeyValue, ihash, map_tasks, concat, push, reduce_helper, reduce_task, sequential, File, matching,
  contents, publish_all,
}
use mathlib.Core.List.Permᴰ

pub values_of-append :
    (k : Bytes) (xs ys : List KeyValue) → values_of k (xs ++ ys) ≡ values_of k xs ++ values_of k ys
values_of-append k [] ys = refl
values_of-append k (x ∷ xs) ys = elim (Bool-cases (x.key == k)) [
  | inl e ↦ rw e (ap (λ vs. x.value ∷ vs) (values_of-append k xs ys))
  | inr e ↦ rw e (values_of-append k xs ys)
]

swap_values :
    (k : Bytes) (x y : KeyValue) (rest : List KeyValue)
    → Permᴰ (values_of k (x ∷ y ∷ rest)) (values_of k (y ∷ x ∷ rest))
swap_values k x y rest = elim (Bool-cases (x.key == k)) [
  | inl i ↦ elim (Bool-cases (y.key == k)) [
    | inl j ↦ rw (i, j) (Permᴰ.swap refl refl)
    | inr j ↦ rw (i, j) (Permᴰ.refl _)
  ]
  | inr i ↦ rw i (Permᴰ.refl _)
]

values_of-Permᴰ :
    (k : Bytes) {xs ys : List KeyValue} → Permᴰ xs ys → Permᴰ (values_of k xs) (values_of k ys)
values_of-Permᴰ k Permᴰ.nil = Permᴰ.nil
values_of-Permᴰ k (Permᴰ.cons {a} {b} {l₁} {l₂} e d) = elim (Bool-cases (a.key == k)) [
  | inl y ↦
      rw (y, ap (λ x. x.key == k) (sym e) ∙ y)
        (Permᴰ.cons (ap (λ x. x.value) e) (values_of-Permᴰ k d))
  | inr n ↦ rw (n, ap (λ x. x.key == k) (sym e) ∙ n) (values_of-Permᴰ k d)
]
values_of-Permᴰ k (Permᴰ.swap {a} {b} {a'} {b'} {l} e e') = rw (e, e') (swap_values k b' a' l)
values_of-Permᴰ k (Permᴰ.trans d d') = Permᴰ.trans (values_of-Permᴰ k d) (values_of-Permᴰ k d')

-- The outputs of the map function in another order.
concat-Permᴰ : {xss yss : List (List KeyValue)} → Permᴰ xss yss → Permᴰ (concat xss) (concat yss)
unfolding concat
concat-Permᴰ Permᴰ.nil = Permᴰ.nil
concat-Permᴰ (Permᴰ.cons {a} {b} {l₁} {l₂} e d) = rw e (Permᴰ.append_left b (concat-Permᴰ d))
concat-Permᴰ (Permᴰ.swap {a} {b} {a'} {b'} {l} e e') =
    rw (e, e')
      (subst (λ zs. Permᴰ zs (a' ++ (b' ++ concat l))) (append_assoc b' a' (concat l))
        (subst (λ zs. Permᴰ ((b' ++ a') ++ concat l) zs) (append_assoc a' b' (concat l))
          (Permᴰ.append_right (concat l) (Permᴰ.append_comm b' a'))))
concat-Permᴰ (Permᴰ.trans d d') = Permᴰ.trans (concat-Permᴰ d) (concat-Permᴰ d')

contents-Permᴰ : {a b : List File} → Permᴰ a b → Permᴰ (contents a) (contents b)
contents-Permᴰ d = concat-Permᴰ (Permᴰ.map (λ (f : File). f.records) d)

map_tasks-read :
    (n : ℕ) (kvas : List (List KeyValue))
    → All Utf8 kvas
    → 0 < n
    → (files : List (List (List KeyValue))) × (map_tasks n kvas ≡ some files)
      × ((r : ℕ) (k : Bytes)
          → values_of k (read_files r files)
            ≡ (if eqb (ihash k % n) r then values_of k (concat kvas) else []))
unfolding map_tasks concat push
map_tasks-read n [] text h = ([], refl, λ r k. ground arith)
map_tasks-read n (kva ∷ rest) text h =
    let (files, e, f) = map_tasks-read n rest text.1 h in
    let (out, e', g) = map_task-bucket n kva text.0 h in
    (
      out ∷ files,
      rw (map_tasks, e', e) refl,
      λ r j.
          rw
            (
              values_of-append j (file_at r out) (read_files r files),
              g r,
              f r j,
              values_of-bucket n r j kva,
              values_of-append j kva (concat rest),
            )
            (ground arith),
    )

pub same_length : {vs ws : List String} → Permᴰ vs ws → length vs ≡ length ws
same_length Permᴰ.nil = refl
same_length (Permᴰ.swap _ _) = refl
same_length (Permᴰ.cons _ d) = ap suc (same_length d)
same_length (Permᴰ.trans d d') = same_length d ∙ same_length d'

-- What `sort.Sort(ByKey(…))` is relied on to do: its result is sorted by key and is a rearrangement
-- of its argument.
pub record Sorts (sort : List KeyValue → List KeyValue) : Type 0 where
  pub sorted : (kva : List KeyValue) → IsSorted (sort kva)
  pub rearranged : (kva : List KeyValue) → Permᴰ (sort kva) kva

-- A reduce function that does not depend on the order of the values.
abbrev pub IsUnordered : (Bytes → List String → String) → Type 0
IsUnordered reducef = (k : Bytes) (vs ws : List String) → Permᴰ vs ws → reducef k vs ≡ reducef k ws

module _ (sort : List KeyValue → List KeyValue) (sorts : Sorts sort)
    (reducef : Bytes → List String → String) (unordered : IsUnordered reducef)
    (order : List File → List File) (listed : (files : List File) → Permᴰ (order files) files) where
  answer-Permᴰ :
      (k : Bytes) (vs ws : List String) → Permᴰ vs ws → answer reducef k vs ≡ answer reducef k ws
  answer-Permᴰ k [] [] d = refl
  answer-Permᴰ k [] (w ∷ ws) d = absurd (omega (arith, same_length d))
  answer-Permᴰ k (v ∷ vs) [] d = absurd (omega (arith, same_length d))
  answer-Permᴰ k (v ∷ vs) (w ∷ ws) d = ap some (unordered k (v ∷ vs) (w ∷ ws) d)

  -- The output for sorted records, in terms of the records before they are sorted.
  pub lookup-sorted :
      (k : Bytes) (kva : List KeyValue)
      → lookup k (reduce_helper reducef (sort kva)) ≡ answer reducef k (values_of k kva)
  lookup-sorted k kva =
      lookup-reduce_helper reducef k (sort kva) (sorts.sorted kva)
      ∙ answer-Permᴰ k _ _ (values_of-Permᴰ k (sorts.rearranged kva))

  -- The output of a reduce task, in terms of the files of the map tasks.
  lookup-found :
      (r : ℕ) (k : Bytes) (files : List (List (List KeyValue))) (others : List File)
      → contents (matching r others) ≡ []
      → lookup k (reduce_task sort reducef order r (publish_all 0 files ++ others))
        ≡ answer reducef k (values_of k (read_files r files))
  unfolding reduce_task
  lookup-found r k files others quiet =
      let dir = publish_all 0 files ++ others in
      let found = contents-Permᴰ (listed (matching r dir)) in
      lookup-sorted k (contents (order (matching r dir)))
      ∙ (answer-Permᴰ k _ _ (values_of-Permᴰ k found)
          ∙ ap (λ kva. answer reducef k (values_of k kva)) (found_files r files others quiet))

  -- With at least one reduce task and UTF-8 keys, all map tasks of a job write their files; and reduce task
  -- `r` gives for each key of its part of the hashes what the sequential program gives for the key, and
  -- nothing for any other key, in a directory whose other files hold no records that match a reduce
  -- task's pattern, provided that the sort sorts, that Glob lists what matches in some order, and that
  -- the reduce function does not depend on the order of the values.
  pub distributed-sequential :
      (n : ℕ) (outputs : List (List KeyValue)) (others : List File)
      → 0 < n
      → All Utf8 outputs
      → ((r : ℕ) → contents (matching r others) ≡ [])
      → (files : List (List (List KeyValue))) × (map_tasks n outputs ≡ some files)
        × ((r : ℕ) (k : Bytes)
            → lookup k (reduce_task sort reducef order r (publish_all 0 files ++ others))
              ≡ (if eqb (ihash k % n) r then lookup k (sequential sort reducef outputs) else none))
  unfolding reduce_task sequential
  distributed-sequential n outputs others h text quiet =
      let (files, e, f) = map_tasks-read n outputs text h in
      (
        files,
        e,
        λ r k. lookup-found r k files others (quiet r) ∙ elim (Bool-cases (eqb (ihash k % n) r)) [
          | inl y ↦ rw (f r k, lookup-sorted k (concat outputs), y) refl
          | inr z ↦ rw (f r k, z) refl
        ],
      )
