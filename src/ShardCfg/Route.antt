-- ===== src/ShardCfg/Route.antt =====
-- From a key to its servers: `Key2Shard`, `GidServers` and `IsMember` of
-- src/shardkv1/shardcfg/shardcfg.go. A key is the list of its bytes; an index out of range is `none`.
use mathlib.Core.Logic.{∥∥₁_elim}
use mathlib.Core.Bool.{So-prop}
use mit_6_5840_distributed_s.Base.Int.{ℤ, eq_int_iff, int_eq}
use mit_6_5840_distributed_s.Base.Dict.{lookup}
use mit_6_5840_distributed_s.Base.Fnv.{sum32, sum32_from}
use mit_6_5840_distributed_s.Base.{
  ℕ, zero, suc, ◌%◌, ◌<◌, String, ◌≡◌, refl, ◌∙◌, inl, inr, Bool, true, false, Option, none, some,
  List, [], ◌∷◌, arith, if◌then◌else◌, Option-cases, length, get_elem?, ◌==◌, string_eq, sym, ap,
  ◌↔◌, Bool-cases, some_inj,
}
use mit_6_5840_distributed_s.ShardCfg.Counts.{elem}
use mit_6_5840_distributed_s.ShardCfg.Balance.{IsAssigned}
use mit_6_5840_distributed_s.ShardCfg.{n_shards, ShardConfig}

unfoldable pub key2shard : List ℕ → ℕ
unfolding sum32
key2shard key = sum32 key % n_shards

-- `gid, srvs, ok`, where a missing group has no servers.
servers_of : ℤ → Option (List String) → ℤ × List String × Bool
servers_of gid none = (gid, [], false)
servers_of gid (some srvs) = (gid, srvs, true)

unfoldable pub gid_servers : ℕ → ShardConfig → Option (ℤ × List String × Bool)
unfolding servers_of lookup
gid_servers sh c = elim (get_elem? c.shards sh) [
  | none ↦ none
  | some gid ↦ some (servers_of gid (lookup gid c.groups))
]

is_member_in : ℤ → List ℤ → Bool
is_member_in gid [] = false
is_member_in gid (g ∷ gs) = if g == gid then true else is_member_in gid gs

unfoldable pub is_member : ℤ → ShardConfig → Bool
unfolding is_member_in
is_member gid c = is_member_in gid c.shards

elem-get_elem? :
    (xs : List ℤ) (i : ℕ) → i < length xs → (g : ℤ) × (get_elem? xs i ≡ some g) × (elem g xs ≡ true)
elem-get_elem? [] i h = elim h [ ]
elem-get_elem? (x ∷ xs) zero h = (x, refl, ground (arith, eq_int_iff x x))
elem-get_elem? (x ∷ xs) (suc i) h =
    let (g, e, m) = elem-get_elem? xs i (omega arith) in (g, e, ground (arith, m))

gid_servers_found :
    (sh : ℕ) (c : ShardConfig) (g : ℤ) (srvs : List String)
    → get_elem? c.shards sh ≡ some g
    → lookup g c.groups ≡ some srvs
    → gid_servers sh c ≡ some (g, srvs, true)
unfolding gid_servers servers_of
gid_servers_found sh c g srvs e found = rw (gid_servers, e) (rw (servers_of, found) refl)

abbrev from_option : Option ℕ → List ℕ
from_option none = []
from_option (some b) = b ∷ []

-- A key of each shard: "m", "b", "c", "t", "a", "f", "g", "d", "e", "n", "o" and "l".
key_of : ℕ → List ℕ
key_of sh =
    from_option
      (get_elem? (109 ∷ 98 ∷ 99 ∷ 116 ∷ 97 ∷ 102 ∷ 103 ∷ 100 ∷ 101 ∷ 110 ∷ 111 ∷ 108 ∷ []) sh)

key2shard-key_of : (sh : ℕ) → sh < n_shards → key2shard (key_of sh) ≡ sh
unfolding key2shard key_of sum32 sum32_from
key2shard-key_of zero h = refl
key2shard-key_of (suc zero) h = refl
key2shard-key_of (suc (suc zero)) h = refl
key2shard-key_of (suc (suc (suc zero))) h = refl
key2shard-key_of (suc (suc (suc (suc zero)))) h = refl
key2shard-key_of (suc (suc (suc (suc (suc zero))))) h = refl
key2shard-key_of (suc (suc (suc (suc (suc (suc zero)))))) h = refl
key2shard-key_of (suc (suc (suc (suc (suc (suc (suc zero))))))) h = refl
key2shard-key_of (suc (suc (suc (suc (suc (suc (suc (suc zero)))))))) h = refl
key2shard-key_of (suc (suc (suc (suc (suc (suc (suc (suc (suc zero))))))))) h = refl
key2shard-key_of (suc (suc (suc (suc (suc (suc (suc (suc (suc (suc zero)))))))))) h = refl
key2shard-key_of (suc (suc (suc (suc (suc (suc (suc (suc (suc (suc (suc zero))))))))))) h = refl
key2shard-key_of (suc (suc (suc (suc (suc (suc (suc (suc (suc (suc (suc (suc sh)))))))))))) h =
    absurd (omega (arith, h))

-- A member has a shard.
shard_of :
    (g : ℤ) (xs : List ℤ)
    → is_member_in g xs ≡ true
    → (sh : ℕ) × (sh < length xs) × (get_elem? xs sh ≡ some g)
unfolding is_member_in
shard_of g [] h = absurd (cc)
shard_of g (x ∷ xs) h = elim (Bool-cases (x == g)) [
  | inl y ↦ (0, omega arith, ap some ((eq_int_iff x g).0 y))
  | inr n ↦
      let (sh, lt, e) = shard_of g xs (rw (is_member_in, n) at h) in (suc sh, omega (arith, lt), e)
]

gid_servers_member :
    (sh : ℕ) (c : ShardConfig) (g : ℤ) (srvs : List String)
    → gid_servers sh c ≡ some (g, srvs, true)
    → get_elem? c.shards sh ≡ some g
unfolding gid_servers servers_of
gid_servers_member sh c g srvs h = elim (Option-cases (get_elem? c.shards sh)) [
  | inl n ↦ absurd (cc (rw (gid_servers, n) at h))
  | inr (g', e) ↦ elim (Option-cases (lookup g' c.groups)) [
    | inl n ↦ absurd (cc (rw (gid_servers, e, servers_of, n) at h))
    | inr (s, found) ↦
        e ∙ ap some (ap (λ r. r.0) (some_inj (rw (gid_servers, e, servers_of, found) at h)))
  ]
]

member_at : (g : ℤ) (xs : List ℤ) (sh : ℕ) → get_elem? xs sh ≡ some g → is_member_in g xs ≡ true
unfolding is_member_in
member_at g [] sh h = absurd (cc)
member_at g (x ∷ xs) zero h = ground (arith, eq_int_iff x g, some_inj h)
member_at g (x ∷ xs) (suc sh) h = ground (arith, member_at g xs sh h)

-- Some key is routed to the group.
abbrev pub Routed : ShardConfig → ℤ → Type 0
Routed c gid =
    (key : List ℕ) × (srvs : List String) × (gid_servers (key2shard key) c ≡ some (gid, srvs, true))

module _ (c : ShardConfig) (twelve : length c.shards ≡ n_shards) (a : IsAssigned c) where
  -- What a shard's group serves.
  shard_served :
      (sh : ℕ)
      → sh < n_shards
      → (gid : ℤ) × (srvs : List String) × (get_elem? c.shards sh ≡ some gid)
        × (lookup gid c.groups ≡ some srvs)
        × (gid_servers sh c ≡ some (gid, srvs, true))
  shard_served sh h =
      let (g, e, m) = elem-get_elem? c.shards sh (omega (arith, twelve, h)) in
      elim (Option-cases (lookup g c.groups)) [
        | inl out ↦ absurd (cc (out, a g m))
        | inr (srvs, found) ↦ (g, srvs, e, found, gid_servers_found sh c g srvs e found)
      ]

  member_key :
      (gid : ℤ)
      → is_member gid c ≡ true
      → (key : List ℕ) × (srvs : List String) × (gid_servers (key2shard key) c
          ≡ some (gid, srvs, true))
  unfolding is_member
  member_key gid m =
      let (sh, lt, e) = shard_of gid c.shards m in
      let small : sh < n_shards = omega (arith, lt, twelve) in
      let (g, srvs, e', found, served) = shard_served sh small in
      let same : g ≡ gid = some_inj (sym e' ∙ e) in
      (
        key_of sh,
        srvs,
        ap (λ i. gid_servers i c) (key2shard-key_of sh small)
            ∙ (served ∙ ap (λ g. some (g, srvs, true)) same),
      )

  key_member :
      (gid : ℤ) (key : List ℕ) (srvs : List String)
      → gid_servers (key2shard key) c ≡ some (gid, srvs, true)
      → is_member gid c ≡ true
  unfolding is_member
  key_member gid key srvs h =
      member_at gid c.shards (key2shard key) (gid_servers_member (key2shard key) c gid srvs h)

  -- In a configuration of twelve shards, every one of them in a group, each key is routed to the group that
  -- has the key's shard, with the servers of that group; and a group is a member exactly if some key is
  -- routed to it.
  pub key_served :
      ((key : List ℕ)
        → (gid : ℤ) × (srvs : List String) × (get_elem? c.shards (key2shard key) ≡ some gid)
          × (lookup gid c.groups ≡ some srvs)
          × (gid_servers (key2shard key) c ≡ some (gid, srvs, true)))
      × ((gid : ℤ) → (is_member gid c ≡ true) ↔ ∥ Routed c gid ∥₁)
  unfolding key2shard
  key_served = (
    λ key. shard_served (key2shard key) (omega arith),
    λ gid.
        (λ m. ∣ member_key gid m ∣₁, λ s. ∥∥₁_elim s (So-prop _) (λ k. key_member gid k.0 k.1 k.2)),
  )
