-- ===== src/Labgob.antt =====
-- src/labgob/labgob.go: what `Encode`, `Decode` and `Register` check before they call gob. A type is its
-- number, which is the key of the map `checked`, and `types` says what reflect knows of it. The messages
-- are left out. A name is the list of its runes.
pub mod Belongs
pub mod Visits
pub mod Ends
mod Tests
use mit_6_5840_distributed_s.Base.Bytes.{Bytes}
use mit_6_5840_distributed_s.Base.{
  ℕ, zero, suc, ◌+◌, Bool, true, false, not, ◌&&◌, Option, none, some, List, [], ◌∷◌, ltb, leb,
  if◌then◌else◌, has, ◌>>=◌, ◌||◌,
}

pub record Field : Type 0 where
  pub name : List ℕ
  pub type : ℕ

-- `reflect.Kind`, with the parts of the type: a slice, an array and a pointer have an element.
pub data GoType : Type 0 where
  struct_of : List Field → GoType
  elem_of : ℕ → GoType
  map_of : ℕ → ℕ → GoType
  other : GoType

-- The global variables.
pub record Checks : Type 0 where
  pub error_count : ℕ
  pub checked : List ℕ

unfoldable pub no_checks : Checks
no_checks = record { error_count = 0; checked = [] }

-- The tables of the package unicode, for the runes from 128 on.
pub record Unicode : Type 0 where
  pub upper_above : ℕ → Bool

-- `unicode.IsUpper` of the first rune; a name without runes has none that is.
abbrev pub is_upper : ⦃u : Unicode⦄ → List ℕ → Bool
is_upper [] = false
is_upper ⦃u⦄ (c ∷ cs) = if ltb c 128 then leb 65 c && leb c 90 else u.upper_above c

abbrev pub complain : ⦃u : Unicode⦄ → List ℕ → Checks → Checks
complain name st = if is_upper name then st else record st { error_count = st.error_count + 1 }

-- The loop over a struct's fields, with `checkType` for the types of the fields.
unfoldable pub check_fields :
    ⦃u : Unicode⦄ → (ℕ → Checks → Option Checks) → List Field → Checks → Option Checks
check_fields check [] st = some st
check_fields check (f ∷ fs) st = do
  st' ← check f.type (complain f.name st)
  check_fields check fs st'

unfoldable pub check_kind :
    ⦃u : Unicode⦄ → (ℕ → Checks → Option Checks) → GoType → Checks → Option Checks
check_kind check (struct_of fs) st = check_fields check fs st
check_kind check (elem_of e) st = check e st
check_kind check (map_of k e) st = do st' ← check e st; check k st'
check_kind check other st = some st

-- `checkType`; `none` is out of fuel.
unfoldable pub check_type : ⦃u : Unicode⦄ → (ℕ → GoType) → ℕ → ℕ → Checks → Option Checks
check_type types zero t st = none
check_type types (suc fuel) t st =
    let seen = record st { checked = t ∷ st.checked } in
    let rest = check_kind (check_type types fuel) (types t) seen in
    if has t st.checked then some st else rest

-- What reflect shows of a value. A value of a basic kind is its type's zero value or not.
mutual
  pub data GoValue : Type 0 where
    struct_value : GoFields → GoValue
    nil_pointer : GoValue
    pointer : GoValue → GoValue
    basic : Bool → GoValue
    other_value : GoValue

  pub data GoFields : Type 0 where
    no_fields : GoFields
    field : GoValue → GoFields → GoFields

-- `checkDefault1`.
unfoldable mutual
  pub check_default1 : GoValue → ℕ → Checks → Checks
  check_default1 (struct_value fs) depth st =
      let deeper = check_defaults fs (depth + 1) st in if ltb 3 depth then st else deeper
  check_default1 nil_pointer depth st = st
  check_default1 (pointer v) depth st =
      let deeper = check_default1 v (depth + 1) st in if ltb 3 depth then st else deeper
  check_default1 (basic is_zero) depth st =
      if ltb 3 depth || is_zero then st else record st { error_count = st.error_count + 1 }
  check_default1 other_value depth st = st

  pub check_defaults : GoFields → ℕ → Checks → Checks
  check_defaults no_fields depth st = st
  check_defaults (field v fs) depth st = check_defaults fs depth (check_default1 v depth st)

unfoldable pub check_default : Option GoValue → Checks → Checks
check_default none st = st
check_default (some v) st = check_default1 v 1 st

-- What `Decode` checks of a value and its type.
unfoldable pub decode_checks :
    ⦃u : Unicode⦄ → (ℕ → GoType) → ℕ → ℕ → GoValue → Checks → Option Checks
decode_checks types fuel t v st = do
  st' ← check_type types fuel t st
  some (check_default (some v) st')
