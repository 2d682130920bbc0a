-- ===== src/Demux/Srv/Counts.antt =====
-- How many messages, and how many requests, have a tag (src/tester1/demux/dmxsrv.go).

use mit_6_5840_distributed_s.Base.Bytes.{Bytes}
use mit_6_5840_distributed_s.Base.{
  ℕ, zero, suc, ◌+◌, ◌≡◌, some, List, [], ◌∷◌, ◌++◌, arith, eqb, if◌then◌else◌, get_elem?,
}
use mit_6_5840_distributed_s.Demux.Transport.{Msg}
use mit_6_5840_distributed_s.Demux.Srv.{without}

-- How many messages, and how many requests, have a tag.
abbrev pub tagged : ℕ → List Msg → ℕ
tagged t [] = 0
tagged t (m ∷ ms) = if eqb m.tag t then tagged t ms + 1 else tagged t ms

abbrev pub at_work : ℕ → List (ℕ × Bytes) → ℕ
at_work t [] = 0
at_work t ((u, req) ∷ ws) = if eqb u t then at_work t ws + 1 else at_work t ws

pub tagged-append : (t : ℕ) (a b : List Msg) → tagged t (a ++ b) ≡ tagged t a + tagged t b
tagged-append t [] b = omega arith
tagged-append t (m ∷ a) b = ground (arith, tagged-append t a b)

pub at_work-append :
    (t : ℕ) (a b : List (ℕ × Bytes)) → at_work t (a ++ b) ≡ at_work t a + at_work t b
at_work-append t [] b = omega arith
at_work-append t (w ∷ a) b = ground (arith, at_work-append t a b)

pub one_request :
    (t : ℕ) (m : Msg) (more : List Msg)
    → at_work t ((m.tag, m.body) ∷ []) + tagged t more ≡ tagged t (m ∷ more)
one_request t m more = ground arith

pub at_work-without :
    (t k u : ℕ) (req : Bytes) (ws : List (ℕ × Bytes))
    → get_elem? ws k ≡ some (u, req)
    → at_work t ws ≡ (if eqb u t then at_work t (without k ws) + 1 else at_work t (without k ws))
at_work-without t k u req [] g = absurd (cc)
at_work-without t zero u req ((v, r) ∷ ws) g = let same : v ≡ u = cc in ground (arith, same)
at_work-without t (suc k) u req ((v, r) ∷ ws) g = ground (arith, at_work-without t k u req ws g)
