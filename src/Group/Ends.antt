-- ===== src/Group/Ends.antt =====
-- Which ends of a group's servers are enabled (src/tester1/group.go, srv.go).
use mit_6_5840_distributed_s.Group.{
  enable_if, connect_out, disconnect_out, Srv, connect_in, disconnect_in, end_name,
}
use mit_6_5840_distributed_s.Base.Dict.{lookup, lookup-insert}
use mit_6_5840_distributed_s.Base.{
  ℕ, ◌<◌, String, ◌≡◌, refl, ◌∙◌, sym, Bool, true, false, ◌&&◌, some, List, [], ◌∷◌, arith, eqb,
  if◌then◌else◌, get_elem?, has, In, string_eq, str_eq_iff, Option-cases, inl, inr,
}
use mit_6_5840_distributed_s.LabRpc.{Network, enable, or_false}

abbrev pub is_on : List Bool → ℕ → Bool
is_on connected i = or_false (get_elem? connected i)

-- The names of the ends in a group of `n` servers: `name i j` is server i's end to server j.
module _ (n : ℕ) (name : ℕ → ℕ → String) where
  -- No two ends have one name.
  abbrev pub Distinct : Type 0
  Distinct = (a b c d : ℕ) → a < n → b < n → c < n → d < n → name a b ≡ name c d → (a ≡ c) × (b ≡ d)

  abbrev pub is_up : Network → ℕ → ℕ → Bool
  is_up net a b = or_false (lookup (name a b) net.enabled)

  is_up-enable :
      (distinct : Distinct) (i j a b : ℕ) (v : Bool) (net : Network)
      → i < n
      → j < n
      → a < n
      → b < n
      → is_up (enable (name i j) v net) a b ≡ (if eqb i a && eqb j b then v else is_up net a b)
  unfolding enable
  is_up-enable distinct i j a b v net li lj la lb =
      rw (lookup-insert (name i j) (name a b) v net.enabled)
        (ground (arith, str_eq_iff (name i j) (name a b), distinct i j a b li lj la lb))

  -- The ends of one server, as `endNames` has them.
  abbrev pub Ends : ℕ → List String → Type 0
  Ends i names = (j : ℕ) → j < n → get_elem? names j ≡ some (name i j)

  abbrev pub Range : List Bool → Type 0
  Range connected = (j : ℕ) → j < n → get_elem? connected j ≡ some (is_on connected j)

  enable_if-up :
      (distinct : Distinct) (i j : ℕ) (c : Bool) (net : Network)
      → i < n
      → j < n
      → (net' : Network) × (enable_if c (some (name i j)) net ≡ some net')
        × ((a b : ℕ)
            → a < n
            → b < n
            → is_up net' a b ≡ (if eqb i a && eqb j b && c then true else is_up net a b))
  enable_if-up distinct i j false net li lj = (net, refl, λ a b la lb. ground arith)
  enable_if-up distinct i j true net li lj = (
    enable (name i j) true net,
    refl,
    λ a b la lb. rw (is_up-enable distinct i j a b true net li lj la lb) (ground arith),
  )

  pub connect_out-up :
      (distinct : Distinct) (i : ℕ) (names : List String) (connected : List Bool) (to : List ℕ)
      (net : Network)
      → i < n
      → Ends i names
      → Range connected
      → In n to
      → (net' : Network) × (connect_out names connected to net ≡ some net')
        × ((a b : ℕ)
            → a < n
            → b < n
            → is_up net' a b
              ≡ (if eqb i a && has b to && is_on connected b then true else is_up net a b))
  unfolding connect_out
  connect_out-up distinct i names connected [] net li ends range h =
      (net, refl, λ a b la lb. ground arith)
  connect_out-up distinct i names connected (j ∷ to) net li ends range h =
      let (n1, e1, u1) = enable_if-up distinct i j (is_on connected j) net li h.0 in
      let (n2, e2, u2) = connect_out-up distinct i names connected to n1 li ends range h.1 in
      (
        n2,
        rw (range j h.0, ends j h.0, e1) e2,
        λ a b la lb. ground (arith, u1 a b la lb, u2 a b la lb),
      )

  pub disconnect_out-up :
      (distinct : Distinct) (i : ℕ) (names : List String) (from : List ℕ) (net : Network)
      → i < n
      → Ends i names
      → In n from
      → (net' : Network) × (disconnect_out names from net ≡ some net')
        × ((a b : ℕ)
            → a < n
            → b < n
            → is_up net' a b ≡ (if eqb i a && has b from then false else is_up net a b))
  unfolding disconnect_out
  disconnect_out-up distinct i names [] net li ends h = (net, refl, λ a b la lb. ground arith)
  disconnect_out-up distinct i names (j ∷ from) net li ends h =
      let n1 = enable (name i j) false net in
      let (n2, e2, u2) = disconnect_out-up distinct i names from n1 li ends h.1 in
      (
        n2,
        rw (ends j h.0) e2,
        λ a b la lb.
            ground (arith, is_up-enable distinct i j a b false net li h.0 la lb, u2 a b la lb),
      )

  module _ {P D : Type 0} where
    -- Every server has its ends to all the servers.
    abbrev pub Wired : List (Srv P D) → Type 0
    Wired srvs = (i j : ℕ) → i < n → j < n → end_name srvs i j ≡ some (name i j)

    pub Wired-Ends :
        (srvs : List (Srv P D)) (i : ℕ)
        → i < n
        → Wired srvs
        → (s : Srv P D) × (get_elem? srvs i ≡ some s) × Ends i s.end_names
    Wired-Ends srvs i li wired = elim (Option-cases (get_elem? srvs i)) [
      | inl e ↦
          let w : end_name srvs i i ≡ some (name i i) = wired i i li li in
          absurd (cc (rw (e, end_name) at w))
      | inr (s, e) ↦ (s, e, λ j lj. sym (rw e refl) ∙ wired i j li lj)
    ]

    pub connect_in-up :
        (distinct : Distinct) (i : ℕ) (srvs : List (Srv P D)) (connected : List Bool) (to : List ℕ)
        (net : Network)
        → i < n
        → Wired srvs
        → Range connected
        → In n to
        → (net' : Network) × (connect_in i srvs connected to net ≡ some net')
          × ((a b : ℕ)
              → a < n
              → b < n
              → is_up net' a b
                ≡ (if eqb i b && has a to && is_on connected a then true else is_up net a b))
    unfolding connect_in
    connect_in-up distinct i srvs connected [] net li wired range h =
        (net, refl, λ a b la lb. ground arith)
    connect_in-up distinct i srvs connected (j ∷ to) net li wired range h =
        let (n1, e1, u1) = enable_if-up distinct j i (is_on connected j) net h.0 li in
        let (n2, e2, u2) = connect_in-up distinct i srvs connected to n1 li wired range h.1 in
        (
          n2,
          rw (range j h.0, wired j i h.0 li, e1) e2,
          λ a b la lb. ground (arith, u1 a b la lb, u2 a b la lb),
        )

    pub disconnect_in-up :
        (distinct : Distinct) (i : ℕ) (srvs : List (Srv P D)) (from : List ℕ) (net : Network)
        → i < n
        → Wired srvs
        → In n from
        → (net' : Network) × (disconnect_in i srvs from net ≡ some net')
          × ((a b : ℕ)
              → a < n
              → b < n
              → is_up net' a b ≡ (if eqb i b && has a from then false else is_up net a b))
    unfolding disconnect_in
    disconnect_in-up distinct i srvs [] net li wired h = (net, refl, λ a b la lb. ground arith)
    disconnect_in-up distinct i srvs (j ∷ from) net li wired h =
        let n1 = enable (name j i) false net in
        let (n2, e2, u2) = disconnect_in-up distinct i srvs from n1 li wired h.1 in
        (
          n2,
          rw (wired j i h.0 li) e2,
          λ a b la lb.
              ground (arith, is_up-enable distinct j i a b false net h.0 li la lb, u2 a b la lb),
        )
