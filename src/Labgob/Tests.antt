-- ===== src/Labgob/Tests.antt =====
-- Checks of concrete types and values, and an instance of the theorem about them.
use mit_6_5840_distributed_s.Base.{
  ℕ, ◌≡◌, refl, ◌↔◌, true, false, none, some, [], ◌∷◌, arith, has, zero, suc, ◌+◌, ◌⊎◌,
}
use mit_6_5840_distributed_s.Labgob.Belongs.{Belongs, lower_all, Distinct, parts, has_only}
use mit_6_5840_distributed_s.Labgob.Ends.{Closed, check_type-Belongs, Whole}
use mit_6_5840_distributed_s.Labgob.{
  GoType, struct_of, elem_of, other, Checks, no_checks, check_fields, check_kind, check_type,
  check_default1, check_default, decode_checks, pointer, struct_value, field, basic, nil_pointer,
  no_fields, Unicode,
}

-- No capitals beyond ASCII.
instance abbrev ascii : Unicode
ascii = record { upper_above = λ c. false }

-- A list of a struct with a lower-case name, a value and a pointer to the next one.
abbrev node_types : ℕ → GoType
node_types zero =
    struct_of (record { name = 110 ∷ []; type = 2 } ∷ record { name = 78 ∷ []; type = 1 } ∷ [])
node_types (suc zero) = elem_of 0
node_types _ = other

node_checked :
    check_type node_types 4 1 no_checks
    ≡ some (record { error_count = 1; checked = 2 ∷ 0 ∷ 1 ∷ [] })
unfolding check_type check_kind check_fields no_checks
node_checked = refl

node_fuel : check_type node_types 2 1 no_checks ≡ none
unfolding check_type check_kind check_fields no_checks
node_fuel = refl

node_decoded :
    decode_checks node_types 4 1
      (pointer (struct_value (field (basic false) (field nil_pointer no_fields))))
      no_checks
    ≡ some (record { error_count = 2; checked = 2 ∷ 0 ∷ 1 ∷ [] })
unfolding decode_checks check_default check_default1 check_type check_kind check_fields no_checks
node_decoded = refl

node_Closed : Closed node_types 3
node_Closed zero lt x h = ground (arith, h)
node_Closed (suc zero) lt x h = ground (arith, h)
node_Closed (suc (suc t)) lt x h = cc

-- The type 2 was checked before, and a value has been complained of.
abbrev earlier : Checks
earlier = record { error_count = 5; checked = 2 ∷ [] }

nothing : (x y : ℕ) → x ≡ 2 → has y (parts (node_types x)) ≡ false
nothing x y e = rw e refl

earlier-Whole : Whole node_types earlier.checked
earlier-Whole x y p q = absurd (cc (nothing x y (has_only x 2 p), q))

check_type-Belongs_example :
    (st : Checks) × (check_type node_types 4 1 earlier ≡ some st)
    × ((x : ℕ) → (has x st.checked ≡ true) ↔ ∥ (has x (2 ∷ []) ≡ true) ⊎ Belongs node_types 1 x ∥₁)
    × Distinct st.checked
    × Whole node_types st.checked
    × (st.error_count + lower_all node_types (2 ∷ []) ≡ 5 + lower_all node_types st.checked)
    × ((x : ℕ) → Belongs node_types 1 x → check_type node_types 1 x st ≡ some st)
check_type-Belongs_example =
    check_type-Belongs node_types 3 1 earlier node_Closed (omega arith) earlier-Whole (refl, tt)
