-- ===== src/Mr/Worker/Directory.antt =====
-- The files that match the pattern of a reduce task of src/mr/worker.go.
use mathlib.Core.List.{append_assoc, append-nil}
use mit_6_5840_distributed_s.Base.{
  ℕ, zero, suc, ◌+◌, ◌<◌, ◌≡◌, refl, sym, ap, ◌∙◌, true, false, List, [], ◌∷◌, ◌++◌, map, arith,
  eqb,
}
use mit_6_5840_distributed_s.Mr.Worker.Buckets.{file_at}
use mit_6_5840_distributed_s.Mr.Worker.{
  KeyValue, File, publish, publish_all, matching, concat, contents,
}

-- Entry `r` of the files of every map task.
abbrev pub read_files : ℕ → List (List (List KeyValue)) → List KeyValue
read_files r [] = []
read_files r (files ∷ rest) = file_at r files ++ read_files r rest

pub concat-append : (a b : List (List KeyValue)) → concat (a ++ b) ≡ concat a ++ concat b
unfolding concat
concat-append [] b = refl
concat-append (x ∷ a) b =
    ap (λ l. x ++ l) (concat-append a b) ∙ sym (append_assoc x (concat a) (concat b))

map-append :
    (a b : List File)
    → map (λ f. f.records) (a ++ b) ≡ map (λ f. f.records) a ++ map (λ f. f.records) b
map-append [] b = refl
map-append (x ∷ a) b = ap (λ l. x.records ∷ l) (map-append a b)

contents-append : (a b : List File) → contents (a ++ b) ≡ contents a ++ contents b
contents-append a b =
    ap concat (map-append a b) ∙ concat-append (map (λ f. f.records) a) (map (λ f. f.records) b)

matching-append : (r : ℕ) (a b : List File) → matching r (a ++ b) ≡ matching r a ++ matching r b
unfolding matching
matching-append r [] b = refl
matching-append r (f ∷ a) b = ground (arith, matching-append r a b)

matched-append :
    (r : ℕ) (a b : List File)
    → contents (matching r (a ++ b)) ≡ contents (matching r a) ++ contents (matching r b)
matched-append r a b =
    ap contents (matching-append r a b) ∙ contents-append (matching r a) (matching r b)

matching_past :
    (r x j : ℕ) (files : List (List KeyValue)) → r < j → matching r (publish x j files) ≡ []
unfolding matching publish
matching_past r x j [] h = refl
matching_past r x j (kva ∷ files) h = ground (arith, h, matching_past r x (j + 1) files)

matching-publish :
    (r x j i : ℕ) (files : List (List KeyValue))
    → r ≡ j + i
    → contents (matching r (publish x j files)) ≡ file_at i files
unfolding matching publish concat
matching-publish r x j i [] h = refl
matching-publish r x j zero (kva ∷ files) h =
    let same : eqb j r ≡ true = ground (arith, h) in
    let past = matching_past r x (j + 1) files (omega (arith, h)) in
    rw (same, past) (append-nil kva)
matching-publish r x j (suc i) (kva ∷ files) h =
    let other : eqb j r ≡ false = ground (arith, h) in
    rw other (matching-publish r x (j + 1) i files (omega (arith, h)))

matching-publish_all :
    (r x : ℕ) (filess : List (List (List KeyValue)))
    → contents (matching r (publish_all x filess)) ≡ read_files r filess
unfolding publish_all matching concat
matching-publish_all r x [] = refl
matching-publish_all r x (files ∷ rest) =
    rw
      (
        matched-append r (publish x 0 files) (publish_all (x + 1) rest),
        matching-publish r x 0 r files (omega arith),
        matching-publish_all r (x + 1) rest,
      )
      refl

-- What a reduce task finds in a directory, if no other file has a record for it.
pub found_files :
    (r : ℕ) (filess : List (List (List KeyValue))) (others : List File)
    → contents (matching r others) ≡ []
    → contents (matching r (publish_all 0 filess ++ others)) ≡ read_files r filess
found_files r filess others quiet =
    matched-append r (publish_all 0 filess) others
    ∙ (ap (λ o. contents (matching r (publish_all 0 filess)) ++ o) quiet
        ∙ (append-nil _ ∙ matching-publish_all r 0 filess))
