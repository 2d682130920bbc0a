-- ===== src/Mr/Worker/Runs.antt =====
-- The loop of `reduceHelper` (src/mr/worker.go) over sorted records.
use mit_6_5840_distributed_s.Base.Bytes.{Bytes, lt_bytes, eq_bytes_iff, lt_bytes_total, bytes_eq}
use mit_6_5840_distributed_s.Base.Dict.{lookup}
use mit_6_5840_distributed_s.Base.{
  ℕ, zero, suc, ◌≤◌, String, ◌≡◌, refl, ap, ◌∙◌, inl, inr, true, false, Option, none, some, List,
  [], ◌∷◌, arith, if◌then◌else◌, Bool-cases, length, All, ◌==◌, string_eq,
}
use mit_6_5840_distributed_s.Mr.Worker.{KeyValue, take_run, reduce_loop, reduce_helper}

-- The values of a key, in their order.
abbrev pub values_of : Bytes → List KeyValue → List String
values_of k [] = []
values_of k (kv ∷ rest) = if kv.key == k then kv.value ∷ values_of k rest else values_of k rest

-- No record of the list is less than the key.
abbrev pub From : Bytes → List KeyValue → Type 0
From k kva = All (λ kv. lt_bytes kv.key k ≡ false) kva

abbrev pub IsSorted : List KeyValue → Type 0
IsSorted [] = Unit
IsSorted (kv ∷ rest) = From kv.key rest × IsSorted rest

-- What a key without values, or with some, comes to.
abbrev pub answer : (Bytes → List String → String) → Bytes → List String → Option String
answer reducef k [] = none
answer reducef k (v ∷ vs) = some (reducef k (v ∷ vs))

above_no_values :
    (k j : Bytes) (kva : List KeyValue) → lt_bytes k j ≡ true → From j kva → values_of k kva ≡ []
above_no_values k j [] h f = refl
above_no_values k j (kv ∷ rest) h f =
    ground (arith, above_no_values k j rest h f.1, f.0, eq_bytes_iff kv.key k)

-- What `take_run` splits off.
record Run (k : Bytes) (kva : List KeyValue) (p : List String × List KeyValue) : Type 0 where
  run : p.0 ≡ values_of k kva
  finished : values_of k p.1 ≡ []
  others : (j : Bytes) → (k == j) ≡ false → values_of j p.1 ≡ values_of j kva
  sorted : IsSorted p.1
  shorter : length p.1 ≤ length kva

take_run-Run :
    (k : Bytes) (kva : List KeyValue) → From k kva → IsSorted kva → Run k kva (take_run k kva)
unfolding take_run
take_run-Run k [] f s = record {
  run = refl;
  finished = refl;
  others = λ j d. refl;
  sorted = tt;
  shorter = omega arith;
}
take_run-Run k (kv ∷ rest) f s = elim (Bool-cases (kv.key == k)) [
  | inl e ↦
      let r = take_run-Run k rest f.1 s.1 in
      rw (take_run, e)
        (record {
          run = ground (arith, r.run, e);
          finished = ground (arith, r.finished, e);
          others = λ j d.
              ground (
                arith,
                r.others j d,
                eq_bytes_iff kv.key k,
                eq_bytes_iff kv.key j,
                eq_bytes_iff k j,
              );
          sorted = r.sorted;
          shorter = omega (arith, r.shorter);
        })
  | inr e ↦
      let none_left = above_no_values k kv.key rest (lt_bytes_total kv.key k f.0 e) s.0 in
      rw (take_run, e)
        (record {
          run = ground (arith, none_left, e);
          finished = ground (arith, none_left, e);
          others = λ j d. refl;
          sorted = s;
          shorter = omega arith;
        })
]

lookup-reduce_loop :
    (fuel : ℕ) (reducef : Bytes → List String → String) (k : Bytes) (kva : List KeyValue)
    → length kva ≤ fuel
    → IsSorted kva
    → lookup k (reduce_loop fuel reducef kva) ≡ answer reducef k (values_of k kva)
unfolding reduce_loop lookup
lookup-reduce_loop zero reducef k [] h s = refl
lookup-reduce_loop zero reducef k (kv ∷ rest) h s = absurd (omega (arith, h))
lookup-reduce_loop (suc fuel) reducef k [] h s = refl
lookup-reduce_loop (suc fuel) reducef k (kv ∷ rest) h s =
    let r = take_run-Run kv.key rest s.0 s.1 in
    let ih =
      lookup-reduce_loop fuel reducef k (take_run kv.key rest).1 (omega (arith, h, r.shorter))
        r.sorted in
    elim (Bool-cases (kv.key == k)) [
      | inl e ↦ rw e (ground (arith, r.run, eq_bytes_iff kv.key k, e))
      | inr e ↦ rw e (ih ∙ ap (answer reducef k) (r.others k e))
    ]

-- For sorted records, the output of `reduceHelper` has a line for a key exactly if the key has
-- values, and the first such line is the reduction of all of them in their order.
pub lookup-reduce_helper :
    (reducef : Bytes → List String → String) (k : Bytes) (kva : List KeyValue)
    → IsSorted kva
    → lookup k (reduce_helper reducef kva) ≡ answer reducef k (values_of k kva)
unfolding reduce_helper
lookup-reduce_helper reducef k kva s = lookup-reduce_loop (length kva) reducef k kva (omega arith) s
