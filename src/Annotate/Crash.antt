-- ===== src/Annotate/Crash.antt =====
-- What a crash of running servers and their restart do (src/tester1/annotation.go).
use mathlib.Core.Path.{subst}
use mit_6_5840_distributed_s.Base.Dict.{lookup}
use mit_6_5840_distributed_s.Base.{
  ℕ, ◌≡◌, refl, ◌∙◌, ap, sym, true, false, none, some, List, ◌∷◌, arith, length, replicate,
  string_eq, Bool-cases, inl, inr, length-replicate, String, get_elem?, In, has-lt,
  get_elem?-replicate,
}
use mit_6_5840_distributed_s.Annotate.Marks.{
  Mark, annotate_continuous_color, annotate_continuous_end, color_fault, tag_partition,
}
use mit_6_5840_distributed_s.Annotate.Fault.{
  Servers, Globals, classify, fault_text, annotate_fault, annotate_shutdown, annotate_restart,
  equal, all_well,
}
use mit_6_5840_distributed_s.Annotate.Flags.{
  flags, equal-eq, length-flags, get_elem?-flags, list_ext, set_flags-flips, equal_self,
}

-- The flags of running servers, after a crash and a restart of some of them.
flags-flags :
    (n : ℕ) (ids : List ℕ)
    → In n ids
    → flags false ids (flags true ids (replicate n false)) ≡ replicate n false
flags-flags n ids h =
    list_ext _ _
      (length-flags false ids (flags true ids (replicate n false))
        ∙ length-flags true ids (replicate n false))
      λ j. pointwise j
  where
    ok : In (length (replicate n false)) ids
    ok = rw (length-replicate n false) h

    pointwise :
        (j : ℕ)
        → get_elem? (flags false ids (flags true ids (replicate n false))) j
          ≡ get_elem? (replicate n false) j
    pointwise j = ground (
      arith,
      get_elem?-flags false ids (flags true ids (replicate n false)) j
          (rw (length-flags true ids (replicate n false)) ok),
      get_elem?-flags true ids (replicate n false) j ok,
      has-lt n j ids h,
      get_elem?-replicate n j false,
    )

-- All servers run, are connected, and no fault is marked.
pub record AllWell (g : Globals) : Type 0 where
  pub connected : g.finfo.connected ≡ replicate g.finfo.nservers true
  pub crashed : g.finfo.crashed ≡ replicate g.finfo.nservers false
  pub unmarked : lookup tag_partition g.annotation.continuous ≡ none

abbrev pub fault_mark : String → ℕ → ℕ → Mark
fault_mark text t t' = record {
  tag = tag_partition;
  start = t;
  end = t';
  description = text;
  details = text;
  background_color = color_fault;
}

-- The state after a crash of some servers, all of which ran.
abbrev pub down : List ℕ → Servers → ℕ → Globals → Globals
down ids s t g = record {
  annotation =
      annotate_continuous_color tag_partition (fault_text s) (fault_text s) color_fault t
        g.annotation;
  finfo = record g.finfo { crashed = flags true ids g.finfo.crashed };
}

crash_seen :
    (n id : ℕ) (ids : List ℕ)
    → In n (id ∷ ids)
    → equal (replicate n false) (flags true (id ∷ ids) (replicate n false)) ≡ false
crash_seen n id ids h =
    let ok : In (length (replicate n false)) (id ∷ ids) =
      subst (λ k. In k (id ∷ ids)) (sym (length-replicate n false)) h in
    elim (Bool-cases (equal (replicate n false) (flags true (id ∷ ids) (replicate n false)))) [
      | inr e ↦ e
      | inl e ↦ ground (
        arith,
        equal-eq (replicate n false) (flags true (id ∷ ids) (replicate n false)) e,
        get_elem?-flags true (id ∷ ids) (replicate n false) id ok,
        get_elem?-replicate n id false h.0,
      )
    ]

-- The flags of running servers reach over the same numbers as the servers.
pub crashed-In :
    (ids : List ℕ) (g : Globals)
    → AllWell g
    → In g.finfo.nservers ids
    → In (length g.finfo.crashed) ids
crashed-In ids g w h =
    let e : length g.finfo.crashed ≡ g.finfo.nservers =
      ap length w.crashed ∙ length-replicate g.finfo.nservers false in
    subst (λ k. In k ids) (sym e) h

well : (g : Globals) → AllWell g → all_well g.finfo ≡ true
well g w =
    rw (w.connected, w.crashed, equal_self (replicate g.finfo.nservers true))
      (equal_self (replicate g.finfo.nservers false))

-- What a crash of running servers does.
pub shutdown_lem :
    (id : ℕ) (ids : List ℕ) (s : Servers) (t : ℕ) (g : Globals)
    → AllWell g
    → In g.finfo.nservers (id ∷ ids)
    → classify 0 g.finfo.connected (flags true (id ∷ ids) g.finfo.crashed) ≡ some s
    → annotate_shutdown (id ∷ ids) t g ≡ some (down (id ∷ ids) s t g)
unfolding annotate_shutdown annotate_fault
shutdown_lem id ids s t g w h cl =
    rw (set_flags-flips true id ids g.finfo.crashed (crashed-In (id ∷ ids) g w h) up, unwell)
      (elim (Bool-cases (equal (replicate g.finfo.nservers true) g.finfo.connected)) [
        | inl e ↦ rw (e, cl) refl
        | inr e ↦ rw (e, cl) refl
      ])
  where
    up : get_elem? g.finfo.crashed id ≡ some false
    up = ap (λ ks. get_elem? ks id) w.crashed ∙ get_elem?-replicate g.finfo.nservers id false h.0

    unwell :
        equal (replicate g.finfo.nservers false) (flags true (id ∷ ids) g.finfo.crashed) ≡ false
    unwell = rw w.crashed (crash_seen g.finfo.nservers id ids h)

-- What the restart of the crashed servers does.
pub restart_lem :
    (id : ℕ) (ids : List ℕ) (s : Servers) (t t' : ℕ) (g : Globals)
    → AllWell g
    → In g.finfo.nservers (id ∷ ids)
    → annotate_restart (id ∷ ids) t' (down (id ∷ ids) s t g)
      ≡ some (record {
        annotation = annotate_continuous_end tag_partition t' (down (id ∷ ids) s t g).annotation;
        finfo = g.finfo;
      })
unfolding annotate_restart annotate_fault
restart_lem id ids s t t' g w h =
    rw
      (
        set_flags-flips false id ids (flags true (id ∷ ids) g.finfo.crashed) known up,
        back,
        well g w,
      )
      refl
  where
    ok : In (length g.finfo.crashed) (id ∷ ids)
    ok = crashed-In (id ∷ ids) g w h

    known : In (length (flags true (id ∷ ids) g.finfo.crashed)) (id ∷ ids)
    known = subst (λ k. In k (id ∷ ids)) (sym (length-flags true (id ∷ ids) g.finfo.crashed)) ok

    up : get_elem? (flags true (id ∷ ids) g.finfo.crashed) id ≡ some true
    up = ground (arith, get_elem?-flags true (id ∷ ids) g.finfo.crashed id ok)

    back : flags false (id ∷ ids) (flags true (id ∷ ids) g.finfo.crashed) ≡ g.finfo.crashed
    back =
        ap (λ ks. flags false (id ∷ ids) (flags true (id ∷ ids) ks)) w.crashed
        ∙ flags-flags g.finfo.nservers (id ∷ ids) h
        ∙ sym w.crashed
