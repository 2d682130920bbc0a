-- ===== src/Mr/WordCount/Words.antt =====
-- The words of a text, as src/mrapps/wc.go finds them.
use mit_6_5840_distributed_s.Base.Utf8.{Ascii}
use mit_6_5840_distributed_s.Base.Bytes.{Bytes, bytes_eq}
use mit_6_5840_distributed_s.Base.{
  ℕ, suc, ◌+◌, ◌≡◌, refl, ap, Bool, true, false, not, ◌&&◌, List, [], ◌∷◌, ◌++◌, arith, eqb,
  if◌then◌else◌, has, ◌==◌, ◌<◌, ◌∙◌, inl, inr, Bool-cases, All, sym,
}
use mit_6_5840_distributed_s.Mr.WordCount.{is_letter, flush, fields_func, fields_from}

-- The letters of ASCII.
abbrev pub letters : List ℕ
letters =
    65 ∷ 66 ∷ 67 ∷ 68 ∷ 69 ∷ 70 ∷ 71 ∷ 72 ∷ 73 ∷ 74 ∷ 75 ∷ 76 ∷ 77 ∷ 78 ∷ 79 ∷ 80 ∷ 81 ∷ 82 ∷ 83
    ∷ 84 ∷ 85 ∷ 86 ∷ 87 ∷ 88 ∷ 89 ∷ 90 ∷ 97 ∷ 98 ∷ 99 ∷ 100 ∷ 101 ∷ 102 ∷ 103 ∷ 104 ∷ 105 ∷ 106
    ∷ 107 ∷ 108 ∷ 109 ∷ 110 ∷ 111 ∷ 112 ∷ 113 ∷ 114 ∷ 115 ∷ 116 ∷ 117 ∷ 118 ∷ 119 ∷ 120 ∷ 121 ∷ 122
    ∷ []

abbrev pub letter : ℕ → Bool
letter c = has c letters

is_letter-letter : (c : ℕ) → is_letter c ≡ letter c
is_letter-letter c = ground arith

-- Whether a text begins with these letters and no letter follows them.
abbrev pub begins : Bytes → Bytes → Bool
begins [] [] = true
begins [] (c ∷ text) = not (letter c)
begins (a ∷ k) [] = false
begins (a ∷ k) (c ∷ text) = eqb a c && letter c && begins k text

-- How often a word stands in a text, with no letter before it and none after it; `inside` tells whether a
-- letter stands before the text.
abbrev pub stands : Bytes → Bool → Bytes → ℕ
stands k inside [] = 0
stands k inside (c ∷ text) =
    let more = stands k (letter c) text in
    if not inside && letter c && begins k (c ∷ text) then more + 1 else more

-- How often a word stands in a list.
abbrev pub occurrences : Bytes → List Bytes → ℕ
occurrences k [] = 0
occurrences k (w ∷ ws) = if w == k then suc (occurrences k ws) else occurrences k ws

-- Whether a word is these letters and what the text begins with.
abbrev goes_on : Bytes → Bytes → Bytes → Bool
goes_on k [] text = begins k text
goes_on [] (w ∷ word) text = false
goes_on (a ∷ k) (w ∷ word) text = eqb a w && goes_on k word text

goes_on-snoc :
    (k word : Bytes) (c : ℕ) (text : Bytes)
    → letter c ≡ true
    → goes_on k word (c ∷ text) ≡ goes_on k (word ++ c ∷ []) text
goes_on-snoc [] [] c text h = rw h refl
goes_on-snoc (a ∷ k) [] c text h = ground (arith, h)
goes_on-snoc [] (w ∷ word) c text h = refl
goes_on-snoc (a ∷ k) (w ∷ word) c text h = ap (λ b. eqb a w && b) (goes_on-snoc k word c text h)

-- A word that a text without a letter at its beginning ends.
goes_on-ended : (k word text : Bytes) → begins [] text ≡ true → goes_on k word text ≡ (word == k)
goes_on-ended [] [] text h = h
goes_on-ended (a ∷ k) [] [] h = refl
goes_on-ended (a ∷ k) [] (c ∷ text) h = ground (arith, h)
goes_on-ended [] (w ∷ word) text h = refl
goes_on-ended (a ∷ k) (w ∷ word) text h = ground (arith, goes_on-ended k word text h)

-- The word that has begun, if it is the one that is counted.
abbrev begun : Bytes → Bytes → Bytes → ℕ
begun k [] text = 0
begun k (w ∷ word) text = if goes_on k (w ∷ word) text then 1 else 0

abbrev some_letters : Bytes → Bool
some_letters [] = false
some_letters (w ∷ word) = true

some_letters-snoc : (word : Bytes) (c : ℕ) → some_letters (word ++ c ∷ []) ≡ true
some_letters-snoc [] c = refl
some_letters-snoc (w ∷ word) c = refl

begun-snoc :
    (k word : Bytes) (c : ℕ) (text : Bytes)
    → letter c ≡ true
    → begun k (word ++ c ∷ []) text + stands k true text
      ≡ begun k word (c ∷ text) + stands k (some_letters word) (c ∷ text)
begun-snoc k [] c text h = ground (arith, h, goes_on-snoc k [] c text h)
begun-snoc k (w ∷ word) c text h = ground (arith, h, goes_on-snoc k (w ∷ word) c text h)

flush-begun :
    (k word text : Bytes) (words : List Bytes)
    → begins [] text ≡ true
    → occurrences k (flush word words) ≡ begun k word text + occurrences k words
flush-begun k [] text words h = omega arith
flush-begun k (w ∷ word) text words h = ground (arith, goes_on-ended k (w ∷ word) text h)

stands-not_letter :
    (k : Bytes) (inside : Bool) (c : ℕ) (text : Bytes)
    → letter c ≡ false
    → stands k inside (c ∷ text) ≡ stands k false text
stands-not_letter k inside c text h = ground (arith, h)

empty_begun : (k text : Bytes) → begun k [] text + stands k false text ≡ stands k false text
empty_begun k text = omega arith

fields_from-letter :
    (word : Bytes) (c : ℕ) (text : Bytes)
    → letter c ≡ true
    → fields_from word (c ∷ text) ≡ fields_from (word ++ c ∷ []) text
unfolding fields_from
fields_from-letter word c text h =
    let yes : is_letter c ≡ true = is_letter-letter c ∙ h in rw yes refl

fields_from-other :
    (word : Bytes) (c : ℕ) (text : Bytes)
    → letter c ≡ false
    → fields_from word (c ∷ text) ≡ flush word (fields_from [] text)
unfolding fields_from
fields_from-other word c text h =
    let no : is_letter c ≡ false = is_letter-letter c ∙ h in rw no refl

fields_from-stands :
    (k word text : Bytes)
    → occurrences k (fields_from word text) ≡ begun k word text + stands k (some_letters word) text
unfolding fields_from
fields_from-stands k word [] = flush-begun k word [] [] refl
fields_from-stands k word (c ∷ text) = elim (Bool-cases (letter c)) [
  | inl y ↦
      ap (occurrences k) (fields_from-letter word c text y)
      ∙ (fields_from-stands k (word ++ c ∷ []) text
          ∙ (ap (λ b. begun k (word ++ c ∷ []) text + stands k b text) (some_letters-snoc word c)
              ∙ begun-snoc k word c text y))
  | inr n ↦
      let none_here : begins [] (c ∷ text) ≡ true = ap not n in
      ap (occurrences k) (fields_from-other word c text n)
      ∙ (flush-begun k word (c ∷ text) (fields_from [] text) none_here
          ∙ ap (λ m. begun k word (c ∷ text) + m)
              (fields_from-stands k [] text
                ∙ (empty_begun k text ∙ sym (stands-not_letter k (some_letters word) c text n))))
]

pub fields_func-stands : (k text : Bytes) → occurrences k (fields_func text) ≡ stands k false text
unfolding fields_func
fields_func-stands k text = omega (arith, fields_from-stands k [] text)

snoc-Ascii : (word : Bytes) (c : ℕ) → Ascii word → c < 128 → Ascii (word ++ c ∷ [])
snoc-Ascii [] c h d = (d, tt)
snoc-Ascii (w ∷ word) c h d = (h.0, snoc-Ascii word c h.1 d)

flush-Ascii :
    (word : Bytes) (words : List Bytes)
    → Ascii word
    → All Ascii words
    → All Ascii (flush word words)
flush-Ascii [] words h hs = hs
flush-Ascii (w ∷ word) words h hs = (h, hs)

fields_from-Ascii :
    (word text : Bytes) → Ascii word → Ascii text → All Ascii (fields_from word text)
unfolding fields_from
fields_from-Ascii word [] h d = flush-Ascii word [] h tt
fields_from-Ascii word (c ∷ text) h d = elim (Bool-cases (is_letter c)) [
  | inl y ↦ rw y (fields_from-Ascii (word ++ c ∷ []) text (snoc-Ascii word c h d.0) d.1)
  | inr n ↦ rw n (flush-Ascii word _ h (fields_from-Ascii [] text tt d.1))
]

pub fields_func-Ascii : (text : Bytes) → Ascii text → All Ascii (fields_func text)
unfolding fields_func
fields_func-Ascii text h = fields_from-Ascii [] text tt h
