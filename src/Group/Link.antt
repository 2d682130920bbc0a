-- ===== src/Group/Link.antt =====
-- Connecting and disconnecting a server of a group (src/tester1/group.go).
use mit_6_5840_distributed_s.Base.{
  ℕ, ◌<◌, String, ◌≡◌, refl, Bool, true, false, ◌&&◌, ◌||◌, some, List, arith, eqb, if◌then◌else◌,
  set, length, has, In, length_of_get_elem?, get_elem?-set,
}
use mit_6_5840_distributed_s.Group.Ends.{
  is_on, Distinct, is_up, Range, Wired, Wired-Ends, connect_out-up, connect_in-up,
  disconnect_out-up, disconnect_in-up,
}
use mit_6_5840_distributed_s.Group.{ServerGrp, connect_to, disconnect_from}

Range-set :
    (n : ℕ) (name : ℕ → ℕ → String) (connected : List Bool) (i : ℕ) (v : Bool)
    → i < n
    → Range n name connected
    → ((k : ℕ) → k < n → is_on (set connected i v) k ≡ (if eqb i k then v else is_on connected k))
      × Range n name (set connected i v)
Range-set n name connected i v li range =
    let within : i < length connected = length_of_get_elem? connected i (range i li) in
    (
      λ k lk. ground (arith, get_elem?-set connected i k v within),
      λ k lk. ground (arith, get_elem?-set connected i k v within, range k lk),
    )

module _ {P D : Type 0} (n : ℕ) (name : ℕ → ℕ → String) where
  -- A group of `n` servers, with its ends.
  pub record Good (sg : ServerGrp P D) : Type 0 where
    pub range : Range n name sg.connected
    pub wired : Wired n name sg.srvs

  abbrev pub on : ServerGrp P D → ℕ → Bool
  on sg k = is_on sg.connected k

  abbrev pub up : ServerGrp P D → ℕ → ℕ → Bool
  up sg a b = is_up n name sg.net a b

  pub disconnect_from-up :
      (distinct : Distinct n name) (i : ℕ) (from : List ℕ) (sg : ServerGrp P D)
      → Good sg
      → i < n
      → In n from
      → (sg' : ServerGrp P D) × (disconnect_from i from sg ≡ some sg')
        × Good sg'
        × (sg'.srvs ≡ sg.srvs)
        × (sg'.gid ≡ sg.gid)
        × ((k : ℕ) → k < n → on sg' k ≡ (if eqb i k then false else on sg k))
        × ((a b : ℕ)
            → a < n
            → b < n
            → up sg' a b
              ≡ (if eqb i a && has b from || eqb i b && has a from then false else up sg a b))
  unfolding disconnect_from
  disconnect_from-up distinct i from sg good li h =
      let (s, es, ends) = Wired-Ends n name sg.srvs i li good.wired in
      let (net1, e1, u1) = disconnect_out-up n name distinct i s.end_names from sg.net li ends h in
      let (net2, e2, u2) = disconnect_in-up n name distinct i sg.srvs from net1 li good.wired h in
      let (o, range) = Range-set n name sg.connected i false li good.range in
      (
        record sg { net = net2; connected = set sg.connected i false },
        rw (good.range i li, es, e1, e2) refl,
        record { range = range; wired = good.wired },
        refl,
        refl,
        o,
        λ a b la lb. ground (arith, u1 a b la lb, u2 a b la lb),
      )

  pub connect_to-up :
      (distinct : Distinct n name) (i : ℕ) (to : List ℕ) (sg : ServerGrp P D)
      → Good sg
      → i < n
      → In n to
      → (sg' : ServerGrp P D) × (connect_to i to sg ≡ some sg')
        × Good sg'
        × ((k : ℕ) → k < n → on sg' k ≡ (if eqb i k then true else on sg k))
        × ((a b : ℕ)
            → a < n
            → b < n
            → up sg' a b ≡ (
                if eqb i a && (has b to && on sg' b) || eqb i b && (has a to && on sg' a)
                then true
                else up sg a b))
  unfolding connect_to
  connect_to-up distinct i to sg good li h =
      let (s, es, ends) = Wired-Ends n name sg.srvs i li good.wired in
      let connected = set sg.connected i true in
      let (o, range) = Range-set n name sg.connected i true li good.range in
      let (net1, e1, u1) =
        connect_out-up n name distinct i s.end_names connected to sg.net li ends range h in
      let (net2, e2, u2) =
        connect_in-up n name distinct i sg.srvs connected to net1 li good.wired range h in
      (
        record sg { net = net2; connected = connected },
        rw (good.range i li, es, e1, e2) refl,
        record { range = range; wired = good.wired },
        o,
        λ a b la lb. ground (arith, u1 a b la lb, u2 a b la lb),
      )
