-- ===== src/Base/Fnv.antt =====
-- hash/fnv: the 32-bit FNV-1a hash of a list of bytes.
use Prim.Native.Nat.{ℕ, ◌*◌, ◌%◌, ◌^◌, bit_xor}
use mathlib.Core.List.{List, [], ◌∷◌}

unfoldable pub sum32_from : ℕ → List ℕ → ℕ
sum32_from h [] = h
sum32_from h (b ∷ bs) = sum32_from (bit_xor h b * 16777619 % 2 ^ 32) bs

-- `h := fnv.New32a(); h.Write(bytes); h.Sum32()`.
unfoldable pub sum32 : List ℕ → ℕ
unfolding sum32_from
sum32 bytes = sum32_from 2166136261 bytes
