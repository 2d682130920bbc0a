-- ===== src/Mr/Worker.antt =====
-- src/mr/worker.go: what a worker computes for a map task and for a reduce task, and the sequential
-- program of src/main/mrsequential.go. Keys are byte strings, and values are Unicode text. A file is the
-- list of the records that decode from its beginning; a record is kept as it reads back from JSON.
-- `sort.Sort(ByKey(…))`, which may order equal keys in any way, is a parameter `sort`, and so is the order
-- in which `filepath.Glob` lists what matches.
pub mod Runs
pub mod Buckets
pub mod Directory
pub mod Same
pub mod Sorting
use mit_6_5840_distributed_s.Base.Utf8.{json_text}
use mit_6_5840_distributed_s.Base.Bytes.{Bytes, bytes_eq}
use mit_6_5840_distributed_s.Base.Dict.{Dict}
use mit_6_5840_distributed_s.Base.Fnv.{sum32}
use mit_6_5840_distributed_s.Base.{
  ℕ, zero, suc, ◌%◌, ◌^◌, String, Option, none, some, List, [], ◌∷◌, ◌++◌, if◌then◌else◌, length,
  replicate, ◌==◌, string_eq, ◌+◌, Bool, false, map, eqb,
}

pub record KeyValue : Type 0 where
  pub key : Bytes
  pub value : String

-- `ihash`: the mask clears the top bit of 32.
unfoldable pub ihash : Bytes → ℕ
unfolding sum32
ihash key = sum32 key % 2 ^ 31

-- A run of records with the key `k`: its values, and the records after it.
unfoldable pub take_run : Bytes → List KeyValue → List String × List KeyValue
take_run k [] = ([], [])
take_run k (kv ∷ rest) =
    let (values, after) = take_run k rest in
    if kv.key == k then (kv.value ∷ values, after) else ([], kv ∷ rest)

-- The loop of `reduceHelper`, with the lines that it prints as pairs of a key and an output.
unfoldable pub reduce_loop : ℕ → (Bytes → List String → String) → List KeyValue → Dict Bytes String
unfolding take_run
reduce_loop zero reducef kva = []
reduce_loop (suc fuel) reducef [] = []
reduce_loop (suc fuel) reducef (kv ∷ rest) =
    let (values, after) = take_run kv.key rest in
    (kv.key, reducef kv.key (kv.value ∷ values)) ∷ reduce_loop fuel reducef after

unfoldable pub reduce_helper : (Bytes → List String → String) → List KeyValue → Dict Bytes String
unfolding reduce_loop
reduce_helper reducef kva = reduce_loop (length kva) reducef kva

-- The end of file `r`.
unfoldable pub append_to : ℕ → KeyValue → List (List KeyValue) → List (List KeyValue)
append_to r kv [] = []
append_to zero kv (file ∷ files) = (file ++ kv ∷ []) ∷ files
append_to (suc r) kv (file ∷ files) = file ∷ append_to r kv files

-- A record after `Encode` and `Decode`.
abbrev pub recoded : KeyValue → KeyValue
recoded kv = record kv { key = json_text kv.key }

-- The loop that encodes the output of a map function; `none` where the remainder by zero panics.
encode_loop : ℕ → List KeyValue → List (List KeyValue) → Option (List (List KeyValue))
unfolding ihash append_to
encode_loop n [] files = some files
encode_loop n (kv ∷ kva) files = elim n [
  | zero ↦ none
  | suc m ↦ encode_loop (suc m) kva (append_to (ihash kv.key % suc m) (recoded kv) files)
]

-- The intermediate files `mr-X-0`, `mr-X-1`, … of a map task.
unfoldable pub map_task : ℕ → List KeyValue → Option (List (List KeyValue))
unfolding encode_loop
map_task n_reduce kva = encode_loop n_reduce kva (replicate n_reduce [])

push :
    List (List KeyValue)
    → Option (List (List (List KeyValue)))
    → Option (List (List (List KeyValue)))
push files none = none
push files (some rest) = some (files ∷ rest)

-- All map tasks of a job, from the outputs of the map function.
unfoldable pub map_tasks : ℕ → List (List KeyValue) → Option (List (List (List KeyValue)))
unfolding map_task push
map_tasks n_reduce [] = some []
map_tasks n_reduce (kva ∷ rest) = elim (map_task n_reduce kva) [
  | none ↦ none
  | some files ↦ push files (map_tasks n_reduce rest)
]

-- The files of the working directory. Any other name than those of the map tasks matches the pattern of
-- one reduce task or of none: `mr-out-r`, and a temporary file whose random number is `r`, match `mr-*-r`.
pub data FileName : Type 0 where
  intermediate : ℕ → ℕ → FileName
  other_name : Option ℕ → FileName

pub record File : Type 0 where
  pub name : FileName
  pub records : List KeyValue

-- `os.Rename` to `mr-X-r`, from the file `r` on.
unfoldable pub publish : ℕ → ℕ → List (List KeyValue) → List File
publish x r [] = []
publish x r (kva ∷ files) =
    record { name = intermediate x r; records = kva } ∷ publish x (r + 1) files

-- The map tasks from `x` on.
unfoldable pub publish_all : ℕ → List (List (List KeyValue)) → List File
publish_all x [] = []
publish_all x (files ∷ rest) = publish x 0 files ++ publish_all (x + 1) rest

-- Whether a name matches `mr-*-r`.
abbrev pub matches : ℕ → FileName → Bool
matches r (intermediate x s) = eqb s r
matches r (other_name none) = false
matches r (other_name (some s)) = eqb s r

unfoldable pub matching : ℕ → List File → List File
matching r [] = []
matching r (f ∷ dir) = let rest = matching r dir in if matches r f.name then f ∷ rest else rest

unfoldable pub concat : List (List KeyValue) → List KeyValue
concat [] = []
concat (kva ∷ rest) = kva ++ concat rest

abbrev pub contents : List File → List KeyValue
contents files = concat (map (λ f. f.records) files)

module _ (sort : List KeyValue → List KeyValue) (reducef : Bytes → List String → String) where
  -- A reduce task, in a directory.
  unfoldable pub reduce_task : (List File → List File) → ℕ → List File → Dict Bytes String
  unfolding reduce_helper
  reduce_task order r dir = reduce_helper reducef (sort (contents (order (matching r dir))))

  -- The sequential program, from the outputs of the map function for each file.
  unfoldable pub sequential : List (List KeyValue) → Dict Bytes String
  unfolding concat reduce_helper
  sequential outputs = reduce_helper reducef (sort (concat outputs))
