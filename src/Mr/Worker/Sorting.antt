-- ===== src/Mr/Worker/Sorting.antt =====
-- A sort by key that has the properties that src/mr/worker.go relies on.
use mathlib.Core.List.{Permᴰ}
use mit_6_5840_distributed_s.Base.Bytes.{Bytes, lt_bytes}
use mit_6_5840_distributed_s.Base.{
  ◌≡◌, refl, inl, inr, true, false, List, [], ◌∷◌, arith, if◌then◌else◌, Bool-cases,
}
use mit_6_5840_distributed_s.Mr.Worker.Same.{Sorts}
use mit_6_5840_distributed_s.Mr.Worker.Runs.{From, IsSorted}
use mit_6_5840_distributed_s.Mr.Worker.{KeyValue}
use mathlib.Core.List.Permᴰ

unfoldable pub insert_by_key : KeyValue → List KeyValue → List KeyValue
insert_by_key kv [] = kv ∷ []
insert_by_key kv (x ∷ xs) = if lt_bytes x.key kv.key then x ∷ insert_by_key kv xs else kv ∷ x ∷ xs

unfoldable pub sort_by_key : List KeyValue → List KeyValue
unfolding insert_by_key
sort_by_key [] = []
sort_by_key (kv ∷ kva) = insert_by_key kv (sort_by_key kva)

lt_bytes_between :
    (a b c : Bytes) → lt_bytes a b ≡ false → lt_bytes b c ≡ false → lt_bytes a c ≡ false
lt_bytes_between [] [] c h h' = h'
lt_bytes_between [] (b ∷ bs) c h h' = absurd (cc)
lt_bytes_between (a ∷ xs) b [] h h' = refl
lt_bytes_between (a ∷ xs) [] (c ∷ cs) h h' = absurd (cc)
lt_bytes_between (a ∷ xs) (b ∷ bs) (c ∷ cs) h h' = ground (arith, lt_bytes_between xs bs cs)

lt_bytes_flip : (a b : Bytes) → lt_bytes a b ≡ true → lt_bytes b a ≡ false
lt_bytes_flip [] [] h = absurd (cc)
lt_bytes_flip (a ∷ xs) [] h = absurd (cc)
lt_bytes_flip [] (b ∷ bs) h = refl
lt_bytes_flip (a ∷ xs) (b ∷ bs) h = ground (arith, lt_bytes_flip xs bs)

From-below : (j k : Bytes) (kva : List KeyValue) → lt_bytes k j ≡ false → From k kva → From j kva
From-below j k [] h f = tt
From-below j k (kv ∷ rest) h f = (lt_bytes_between kv.key k j f.0 h, From-below j k rest h f.1)

From-insert_by_key :
    (k : Bytes) (kv : KeyValue) (kva : List KeyValue)
    → lt_bytes kv.key k ≡ false
    → From k kva
    → From k (insert_by_key kv kva)
unfolding insert_by_key
From-insert_by_key k kv [] h f = (h, tt)
From-insert_by_key k kv (x ∷ xs) h f = elim (Bool-cases (lt_bytes x.key kv.key)) [
  | inl e ↦ rw e (f.0, From-insert_by_key k kv xs h f.1)
  | inr e ↦ rw e (h, f)
]

insert_by_key-IsSorted :
    (kv : KeyValue) (kva : List KeyValue) → IsSorted kva → IsSorted (insert_by_key kv kva)
unfolding insert_by_key
insert_by_key-IsSorted kv [] s = (tt, tt)
insert_by_key-IsSorted kv (x ∷ xs) s = elim (Bool-cases (lt_bytes x.key kv.key)) [
  | inl e ↦ rw e (
    From-insert_by_key x.key kv xs (lt_bytes_flip x.key kv.key e) s.0,
    insert_by_key-IsSorted kv xs s.1,
  )
  | inr e ↦ rw e ((e, From-below kv.key x.key xs e s.0), s)
]

sort_by_key-IsSorted : (kva : List KeyValue) → IsSorted (sort_by_key kva)
unfolding sort_by_key
sort_by_key-IsSorted [] = tt
sort_by_key-IsSorted (kv ∷ kva) =
    insert_by_key-IsSorted kv (sort_by_key kva) (sort_by_key-IsSorted kva)

insert_by_key-Permᴰ :
    (kv : KeyValue) (kva : List KeyValue) → Permᴰ (insert_by_key kv kva) (kv ∷ kva)
unfolding insert_by_key
insert_by_key-Permᴰ kv [] = Permᴰ.refl _
insert_by_key-Permᴰ kv (x ∷ xs) = elim (Bool-cases (lt_bytes x.key kv.key)) [
  | inl e ↦ rw e (Permᴰ.trans (Permᴰ.cons refl (insert_by_key-Permᴰ kv xs)) (Permᴰ.swap refl refl))
  | inr e ↦ rw e (Permᴰ.refl _)
]

sort_by_key-Permᴰ : (kva : List KeyValue) → Permᴰ (sort_by_key kva) kva
unfolding sort_by_key
sort_by_key-Permᴰ [] = Permᴰ.nil
sort_by_key-Permᴰ (kv ∷ kva) =
    Permᴰ.trans (insert_by_key-Permᴰ kv (sort_by_key kva)) (Permᴰ.cons refl (sort_by_key-Permᴰ kva))

pub sort_by_key-Sorts : Sorts sort_by_key
sort_by_key-Sorts = record { sorted = sort_by_key-IsSorted; rearranged = sort_by_key-Permᴰ }
