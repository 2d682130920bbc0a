-- ===== src/Clients/Ends.antt =====
-- Which servers a client of src/tester1/clnts.go reaches.
use mathlib.Core.Path.{subst}
use mit_6_5840_distributed_s.Base.Dict.{Dict, insert, lookup, lookup-insert, same_self}
use mit_6_5840_distributed_s.Base.{
  String, ◌≡◌, ◌≢◌, refl, ◌∙◌, ap, sym, Bool, true, false, some, List, [], ◌∷◌, arith,
  if◌then◌else◌, ◌==◌, string_eq, str_eq_iff, All, Bool-cases, inl, inr, some_inj,
}
use mit_6_5840_distributed_s.LabRpc.{Network, among, enable, or_false}
use mit_6_5840_distributed_s.Clients.{Clnt, allowed, enable_each}

-- The end is enabled, and the server that it leads to.
abbrev pub is_up : Network → String → Bool
is_up net name = or_false (lookup name net.enabled)

pub is_up-enable :
    (name other : String) (v : Bool) (net : Network)
    → is_up (enable name v net) other ≡ (if name == other then v else is_up net other)
unfolding enable
is_up-enable name other v net =
    rw (lookup-insert name other v net.enabled) (ground (arith, str_eq_iff name other))

-- The name is none of the ends'.
abbrev pub Free : String → Dict String String → Type 0
Free name ends = All (λ (e : String × String). e.1 ≢ name) ends

-- No two ends have one name.
abbrev pub DistinctNames : Dict String String → Type 0
DistinctNames [] = Unit
DistinctNames ((server, name) ∷ rest) = Free name rest × DistinctNames rest

-- A loop over the ends does not touch other names.
enable_each-Free :
    (test : String → Bool) (v : Bool) (ends : Dict String String) (net : Network) (name : String)
    → Free name ends
    → is_up (enable_each test v ends net) name ≡ is_up net name
unfolding enable_each
enable_each-Free test v [] net name f = refl
enable_each-Free test v ((server, n) ∷ rest) net name f =
    enable_each-Free test v rest (if test server then enable n v net else net) name f.1
    ∙ ground (arith, is_up-enable n name v net, str_eq_iff n name, f.0)

-- And sets the ends of the servers for which the test holds.
pub Free-lookup :
    (name server other : String) (ends : Dict String String)
    → Free name ends
    → lookup server ends ≡ some other
    → other ≢ name
unfolding lookup
Free-lookup name server other [] f e h = cc
Free-lookup name server other ((s, n) ∷ rest) f e h = elim (Bool-cases (s == server)) [
  | inl y ↦ f.0 (some_inj (rw (lookup, y) at e) ∙ h)
  | inr y ↦ Free-lookup name server other rest f.1 (rw (lookup, y) at e) h
]

pub enable_each-up :
    (test : String → Bool) (v : Bool) (ends : Dict String String) (net : Network)
    (server name : String)
    → DistinctNames ends
    → lookup server ends ≡ some name
    → is_up (enable_each test v ends net) name ≡ (if test server then v else is_up net name)
unfolding enable_each lookup
enable_each-up test v [] net server name d e = cc
enable_each-up test v ((s, n) ∷ rest) net server name d e =
    let net1 = if test s then enable n v net else net in
    elim (Bool-cases (s == server)) [
      | inl y ↦
          let nn : n ≡ name = some_inj (rw (lookup, y) at e) in
          let ss : s ≡ server = (str_eq_iff s server).0 y in
          enable_each-Free test v rest net1 name (subst (λ k. Free k rest) nn d.0)
          ∙ ground (arith, is_up-enable n name v net, str_eq_iff n name)
      | inr y ↦
          let e' : lookup server rest ≡ some name = rw (lookup, y) at e in
          let other : name ≢ n = Free-lookup n server name rest d.0 e' in
          enable_each-up test v rest net1 server name d.1 e'
          ∙ ground (arith, is_up-enable n name v net, str_eq_iff n name)
    ]

pub enable_each-ends :
    (test : String → Bool) (v : Bool) (ends : Dict String String) (net : Network)
    → (enable_each test v ends net).ends ≡ net.ends
unfolding enable_each enable
enable_each-ends test v [] net = refl
enable_each-ends test v ((s, n) ∷ rest) net =
    enable_each-ends test v rest (if test s then enable n v net else net)
    ∙ elim (Bool-cases (test s)) [ inl y ↦ rw y refl | inr y ↦ rw y refl ]

abbrev pub Known : List String → Dict String String → Type 0
Known names ends = All (λ (e : String × String). among e.1 names ≡ true) ends

-- The client's ends have different names, which the network knows, and exactly the ends of the servers
-- that the client may reach are enabled.
pub record Reaches (clnt : Clnt) (net : Network) : Type 0 where
  pub distinct : DistinctNames clnt.ends
  pub known : Known net.ends clnt.ends
  pub up :
      (server name : String)
      → lookup server clnt.ends ≡ some name
      → is_up net name ≡ allowed clnt server

pub Known-Free :
    (names : List String) (ends : Dict String String) (name : String)
    → Known names ends
    → among name names ≡ false
    → Free name ends
Known-Free names [] name k f = tt
Known-Free names ((s, n) ∷ rest) name k f =
    ((λ e. cc (ap (λ m. among m names) e, k.0, f)), Known-Free names rest name k.1 f)

Known-more :
    (names : List String) (ends : Dict String String) (name : String)
    → Known names ends
    → Known (name ∷ names) ends
Known-more names [] name k = tt
Known-more names ((s, n) ∷ rest) name k = ((ground (arith, k.0)), Known-more names rest name k.1)

Free-insert :
    (name server new : String) (ends : Dict String String)
    → Free name ends
    → new ≢ name
    → Free name (insert server new ends)
unfolding insert
Free-insert name server new [] f d = (d, tt)
Free-insert name server new ((s, n) ∷ rest) f d = elim (Bool-cases (s == server)) [
  | inl y ↦ rw y (d, f.1)
  | inr y ↦ rw y (f.0, Free-insert name server new rest f.1 d)
]

pub insert_new :
    (names : List String) (server name : String) (ends : Dict String String)
    → Free name ends
    → DistinctNames ends
    → Known names ends
    → DistinctNames (insert server name ends) × Known (name ∷ names) (insert server name ends)
unfolding insert
insert_new names server name [] f d k = ((tt, tt), (rw (same_self name) refl, tt))
insert_new names server name ((s, n) ∷ rest) f d k = elim (Bool-cases (s == server)) [
  | inl y ↦ rw y ((f.1, d.1), (rw (same_self name) refl, Known-more names rest name k.1))
  | inr y ↦
      let (a, b) = insert_new names server name rest f.1 d.1 k.1 in
      rw y ((Free-insert n server name rest d.0 (λ e. f.0 (sym e)), a), ((ground (arith, k.0)), b))
]
