-- ===== src/Demux/Ends.antt =====
-- The end of the reader of src/tester1/demux/dmxclnt.go, and the calls that are still waiting.
use mathlib.Core.Path.{subst}
use mit_6_5840_distributed_s.Base.Dict.{Dict, insert, delete, lookup, lookup-delete}
use mit_6_5840_distributed_s.Base.{
  ℕ, ◌<◌, ◌≡◌, refl, ◌∙◌, ◌⊎◌, inl, inr, Bool, true, false, not, ◌&&◌, ◌||◌, none, some, List, [],
  ◌∷◌, arith, eqb, eqb_iff, Bool-cases, Option-cases, nat_eq,
}
use mit_6_5840_distributed_s.Demux.Answers.{answers, Inv, answer_on, Inv-answer_on}
use mit_6_5840_distributed_s.Demux.{Reply, DemuxClnt, remove, reply, tags, reply_fail, fail_all}

abbrev pub mem : ℕ → List ℕ → Bool
mem t [] = false
mem t (u ∷ us) = eqb u t || mem t us

abbrev pub Distinct : List ℕ → Type 0
Distinct [] = Unit
Distinct (t ∷ ts) = (mem t ts ≡ false) × Distinct ts

mem-insert :
    (u t c : ℕ) (calls : Dict ℕ ℕ)
    → mem u (tags (insert t c calls)) ≡ (eqb t u || mem u (tags calls))
unfolding insert
mem-insert u t c [] = refl
mem-insert u t c ((v, d) ∷ calls) = ground (arith, mem-insert u t c calls)

mem-delete :
    (u t : ℕ) (calls : Dict ℕ ℕ)
    → mem u (tags (delete t calls)) ≡ (not (eqb t u) && mem u (tags calls))
unfolding delete
mem-delete u t [] = ground arith
mem-delete u t ((v, d) ∷ calls) = ground (arith, mem-delete u t calls)

pub mem-lookup : (t c : ℕ) (calls : Dict ℕ ℕ) → lookup t calls ≡ some c → mem t (tags calls) ≡ true
unfolding lookup
mem-lookup t c [] h = cc
mem-lookup t c ((v, d) ∷ calls) h = ground (arith, mem-lookup t c calls, h)

pub lookup-mem :
    (t : ℕ) (calls : Dict ℕ ℕ) → mem t (tags calls) ≡ true → (c : ℕ) × (lookup t calls ≡ some c)
unfolding lookup
lookup-mem t [] h = absurd (cc)
lookup-mem t ((v, d) ∷ calls) h = elim (Bool-cases (eqb v t)) [
  | inl e ↦ (d, rw e refl)
  | inr e ↦ let (c, f) = lookup-mem t calls (ground (arith, h, e)) in (c, rw e f)
]

pub Distinct-insert :
    (t c : ℕ) (calls : Dict ℕ ℕ) → Distinct (tags calls) → Distinct (tags (insert t c calls))
unfolding insert
Distinct-insert t c [] d = (refl, tt)
Distinct-insert t c ((v, w) ∷ calls) d = elim (Bool-cases (eqb v t)) [
  | inl e ↦ rw e (subst (λ u. mem u (tags calls) ≡ false) ((eqb_iff v t).0 e) d.0, d.1)
  | inr e ↦ rw e (ground (arith, mem-insert v t c calls, d.0, e), Distinct-insert t c calls d.1)
]

pub Distinct-delete :
    (t : ℕ) (calls : Dict ℕ ℕ) → Distinct (tags calls) → Distinct (tags (delete t calls))
unfolding delete
Distinct-delete t [] d = tt
Distinct-delete t ((v, w) ∷ calls) d = elim (Bool-cases (eqb v t)) [
  | inl e ↦ rw e (Distinct-delete t calls d.1)
  | inr e ↦ rw e (ground (arith, mem-delete v t calls, d.0), Distinct-delete t calls d.1)
]

-- Every channel was answered, or its call is outstanding.
abbrev pub Accounted : DemuxClnt → Type 0
Accounted dmx =
    (c : ℕ)
    → c < dmx.chans
    → (answers c dmx.answered ≡ 1) ⊎ ((t : ℕ) × (lookup t dmx.calls ≡ some c))

pub Accounted-answer_on :
    (t c : ℕ) (r : Reply) (dmx : DemuxClnt)
    → lookup t dmx.calls ≡ some c
    → Inv dmx
    → Accounted dmx
    → Accounted (answer_on t c r dmx)
Accounted-answer_on t c r dmx g inv acc d h = elim (Bool-cases (eqb c d)) [
  | inl e ↦ inl (ground (arith, e, inv.waiting t c g))
  | inr e ↦ elim (acc d h) [
    | inl done ↦ inl (rw e done)
    | inr (u, f) ↦ inr (u, ground (arith, lookup-delete t u dmx.calls, f, g, e))
  ]
]

pub reply-answer_on :
    (t c : ℕ) (r : Reply) (dmx : DemuxClnt)
    → lookup t dmx.calls ≡ some c
    → reply t r dmx ≡ some (answer_on t c r dmx)
unfolding reply remove
reply-answer_on t c r dmx g = rw (reply, g) refl

fail_all-step :
    (t c : ℕ) (ts : List ℕ) (dmx : DemuxClnt)
    → lookup t dmx.calls ≡ some c
    → fail_all (t ∷ ts) dmx ≡ fail_all ts (answer_on t c reply_fail dmx)
unfolding fail_all
fail_all-step t c ts dmx g = rw (fail_all, reply-answer_on t c reply_fail dmx g) refl

-- What the failure of all outstanding calls leaves.
pub record AllFailed (dmx dmx' : DemuxClnt) : Type 0 where
  pub same_chans : dmx'.chans ≡ dmx.chans
  pub inv : Inv dmx'
  pub no_calls : (t : ℕ) → lookup t dmx'.calls ≡ none
  pub all_answered : (c : ℕ) → c < dmx.chans → answers c dmx'.answered ≡ 1

pub fail_all-AllFailed :
    (ts : List ℕ) (dmx : DemuxClnt)
    → Inv dmx
    → Accounted dmx
    → Distinct ts
    → ((t : ℕ) → mem t ts ≡ true → (c : ℕ) × (lookup t dmx.calls ≡ some c))
    → ((t c : ℕ) → lookup t dmx.calls ≡ some c → mem t ts ≡ true)
    → (dmx' : DemuxClnt) × (fail_all ts dmx ≡ some dmx') × AllFailed dmx dmx'
unfolding fail_all
fail_all-AllFailed [] dmx inv acc d sub sup = (
  dmx,
  refl,
  record {
    same_chans = refl;
    inv = inv;
    no_calls = λ t. elim (Option-cases (lookup t dmx.calls)) [
      | inl e ↦ e
      | inr (c, e) ↦ absurd (cc (sup t c e))
    ];
    all_answered = λ c h. elim (acc c h) [ inl e ↦ e | inr (t, e) ↦ absurd (cc (sup t c e)) ];
  },
)
fail_all-AllFailed (t ∷ ts) dmx inv acc d sub sup =
    let (c, g) = sub t (ground (arith)) in
    let next = answer_on t c reply_fail dmx in
    let (dmx', run, a) =
      fail_all-AllFailed ts next (Inv-answer_on t c reply_fail dmx g inv)
        (Accounted-answer_on t c reply_fail dmx g inv acc) d.1
        (λ u m.
          let (e, f) = sub u (ground (arith, m)) in
          (e, ground (arith, lookup-delete t u dmx.calls, f, m, d.0, eqb_iff t u)))
        (λ u e f. ground (arith, lookup-delete t u dmx.calls, f, sup u e)) in
    (
      dmx',
      fail_all-step t c ts dmx g ∙ run,
      record {
        same_chans = a.same_chans;
        inv = a.inv;
        no_calls = a.no_calls;
        all_answered = a.all_answered;
      },
    )
