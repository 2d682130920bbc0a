-- ===== src/Mr/Worker/Buckets.antt =====
-- The files that a map task writes and a reduce task reads (src/mr/worker.go).
use mathlib.Core.List.{append_assoc, append-nil}
use mit_6_5840_distributed_s.Base.Utf8.{valid, json_text-valid}
use mit_6_5840_distributed_s.Base.Bytes.{Bytes, eq_bytes_iff}
use mit_6_5840_distributed_s.Base.{
  ℕ, zero, suc, ◌%◌, ◌<◌, ◌≡◌, refl, sym, ap, ◌∙◌, inl, inr, some, List, [], ◌∷◌, ◌++◌, arith, eqb,
  if◌then◌else◌, Bool-cases, length, replicate, length-replicate, true, All,
}
use mit_6_5840_distributed_s.Mr.Worker.Runs.{values_of}
use mit_6_5840_distributed_s.Mr.Worker.{KeyValue, ihash, append_to, map_task, encode_loop, recoded}

-- The keys are UTF-8.
abbrev pub Utf8 : List KeyValue → Type 0
Utf8 kva = All (λ kv. valid kv.key ≡ true) kva

recoded-valid : (kv : KeyValue) → valid kv.key ≡ true → recoded kv ≡ kv
recoded-valid kv h = ap (λ k. record kv { key = k }) (json_text-valid kv.key h)

-- Entry `r` of a list of files.
abbrev pub file_at : ℕ → List (List KeyValue) → List KeyValue
file_at r [] = []
file_at zero (file ∷ files) = file
file_at (suc r) (file ∷ files) = file_at r files

-- The records that go to file `r` of `n`.
abbrev pub bucket : ℕ → ℕ → List KeyValue → List KeyValue
bucket n r [] = []
bucket n r (kv ∷ rest) = if eqb (ihash kv.key % n) r then kv ∷ bucket n r rest else bucket n r rest

length-append_to :
    (r : ℕ) (kv : KeyValue) (files : List (List KeyValue))
    → length (append_to r kv files) ≡ length files
unfolding append_to
length-append_to r kv [] = refl
length-append_to zero kv (file ∷ files) = refl
length-append_to (suc r) kv (file ∷ files) = ap suc (length-append_to r kv files)

file_at-append_to :
    (i r : ℕ) (kv : KeyValue) (files : List (List KeyValue))
    → i < length files
    → file_at r (append_to i kv files)
      ≡ (if eqb i r then file_at r files ++ kv ∷ [] else file_at r files)
unfolding append_to
file_at-append_to i r kv [] h = elim h [ ]
file_at-append_to zero zero kv (file ∷ files) h = refl
file_at-append_to zero (suc r) kv (file ∷ files) h = ground arith
file_at-append_to (suc i) zero kv (file ∷ files) h = ground arith
file_at-append_to (suc i) (suc r) kv (file ∷ files) h =
    ground (arith, file_at-append_to i r kv files)

file_at-replicate : (r n : ℕ) → file_at r (replicate n []) ≡ []
file_at-replicate r zero = refl
file_at-replicate zero (suc n) = refl
file_at-replicate (suc r) (suc n) = file_at-replicate r n

encode_loop-bucket :
    (m : ℕ) (kva : List KeyValue) (files : List (List KeyValue))
    → Utf8 kva
    → length files ≡ suc m
    → (out : List (List KeyValue)) × (encode_loop (suc m) kva files ≡ some out)
      × ((r : ℕ) → file_at r out ≡ file_at r files ++ bucket (suc m) r kva)
unfolding encode_loop
encode_loop-bucket m [] files text len = (files, refl, λ r. sym (append-nil (file_at r files)))
encode_loop-bucket m (kv ∷ kva) files text len =
    let i = ihash kv.key % suc m in
    let next = append_to i kv files in
    let (out, e, f) = encode_loop-bucket m kva next text.1 (length-append_to i kv files ∙ len) in
    let same = ap (λ x. encode_loop (suc m) kva (append_to i x files)) (recoded-valid kv text.0) in
    (out, same ∙ e, λ r. f r ∙ snoc r)
  where
    snoc :
        (r : ℕ)
        → file_at r (append_to (ihash kv.key % suc m) kv files) ++ bucket (suc m) r kva
          ≡ file_at r files ++ bucket (suc m) r (kv ∷ kva)
    snoc r =
        let small : ihash kv.key % suc m < length files = omega (arith, len) in
        elim (Bool-cases (eqb (ihash kv.key % suc m) r)) [
          | inl e ↦
              rw (file_at-append_to (ihash kv.key % suc m) r kv files small, e)
                (append_assoc (file_at r files) (kv ∷ []) (bucket (suc m) r kva))
          | inr e ↦ rw (file_at-append_to (ihash kv.key % suc m) r kv files small, e) refl
        ]

-- With at least one reduce task and UTF-8 keys, a map task writes its files, and file `r` has the records whose
-- hash leaves the remainder `r`, in their order.
pub map_task-bucket :
    (n : ℕ) (kva : List KeyValue)
    → Utf8 kva
    → 0 < n
    → (out : List (List KeyValue)) × (map_task n kva ≡ some out)
      × ((r : ℕ) → file_at r out ≡ bucket n r kva)
unfolding map_task
map_task-bucket zero kva text h = absurd (omega (arith, h))
map_task-bucket (suc m) kva text h =
    let (out, e, f) =
      encode_loop-bucket m kva (replicate (suc m) []) text (length-replicate (suc m) []) in
    (out, e, λ r. f r ∙ ap (λ xs. xs ++ bucket (suc m) r kva) (file_at-replicate r (suc m)))

-- The values of a key in a bucket.
pub values_of-bucket :
    (n r : ℕ) (k : Bytes) (kva : List KeyValue)
    → values_of k (bucket n r kva) ≡ (if eqb (ihash k % n) r then values_of k kva else [])
values_of-bucket n r k [] = ground arith
values_of-bucket n r k (kv ∷ rest) =
    ground (arith, values_of-bucket n r k rest, eq_bytes_iff kv.key k)
