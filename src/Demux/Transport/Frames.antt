-- ===== src/Demux/Transport/Frames.antt =====
-- What a reader gets from the messages that src/tester1/demux/transport.go writes.
use mit_6_5840_distributed_s.Base.Bytes.{Bytes}
use mit_6_5840_distributed_s.Base.{
  ℕ, zero, suc, ◌/◌, ◌%◌, ◌^◌, ◌<◌, ◌≡◌, refl, ◌⊎◌, inl, inr, none, some, [], ◌∷◌, ◌++◌, arith,
  length, Option, List, ◌+◌, ap, ◌∙◌, All,
}
use mit_6_5840_distributed_s.Demux.Transport.{
  Msg, le32, of_le32, read_full, Read, call, eof, write_call, decoded, full, read_call, after_read,
  read_calls, write_calls,
}

-- The length of a message survives its encoding, if it is a uint32.
of_le32-le32 :
    (n : ℕ)
    → n < 2 ^ 32
    → of_le32 (n % 256) (n / 256 % 256) (n / 65536 % 256) (n / 16777216 % 256) ≡ n
of_le32-le32 n h = omega (arith, h)

read_full-append : (b s : Bytes) → read_full (length b) (b ++ s) ≡ some (b, s)
unfolding read_full
read_full-append [] s = refl
read_full-append (x ∷ b) s = simp (read_full-append b s)

read_full-short : (n : ℕ) (s : Bytes) → length s < n → read_full n s ≡ none
unfolding read_full
read_full-short zero s h = absurd (omega arith)
read_full-short (suc n) [] h = refl
read_full-short (suc n) (x ∷ s) h = simp (read_full-short n s (omega arith))

-- A stream that starts like another one is the whole first part and more, or ends within it.
cut :
    (p q f s : Bytes)
    → p ++ q ≡ f ++ s
    → ((r : Bytes) × (p ≡ f ++ r) × (r ++ q ≡ s)) ⊎ ((x : ℕ) × (r : Bytes) × (f ≡ p ++ x ∷ r))
cut p q [] s h = inl (p, refl, h)
cut [] q (y ∷ f) s h = inr (y, f, refl)
cut (x ∷ p) q (y ∷ f) s h = elim (cut p q f s cc) [
  | inl (r, e, e') ↦ inl (r, cc, e')
  | inr (z, r, e) ↦ inr (z, r, cc)
]

length-append : (a b : Bytes) → length (a ++ b) ≡ length a + length b
length-append [] b = omega arith
length-append (x ∷ a) b = omega (arith, length-append a b)

-- If a stream ends within a part, then bytes are missing.
missing :
    (p q : Bytes) (x : ℕ) (r s : Bytes)
    → p ++ q ≡ (p ++ x ∷ r) ++ s
    → (y : ℕ) × (t : Bytes) × (q ≡ y ∷ t)
missing [] q x r s e = (x, r ++ s, e)
missing (z ∷ p) q x r s e = missing p q x r s cc

-- The first four bytes of a message tell that the rest is longer than what has come.
head_lem :
    (body : Bytes) (a b c d : ℕ) (p : Bytes) (x : ℕ) (r : Bytes)
    → length body < 2 ^ 32
    → le32 (length body) ++ body ≡ (a ∷ b ∷ c ∷ d ∷ p) ++ x ∷ r
    → length p < of_le32 a b c d
unfolding le32
head_lem body a b c d p x r h e =
    let n = length body in
    let ea : n % 256 ≡ a = cc in
    let eb : n / 256 % 256 ≡ b = cc in
    let ec : n / 65536 % 256 ≡ c = cc in
    let ed : n / 16777216 % 256 ≡ d = cc in
    let eq : body ≡ p ++ x ∷ r = cc in
    let size : n ≡ length p + suc (length r) = ap length eq ∙ length-append p (x ∷ r) in
    omega (arith, ea, eb, ec, ed, size, h, of_le32-le32 n h)

module _ (marshall : Msg → Bytes) (unmarshall : Bytes → Option Msg) where
  -- gob gives back what was written, and the length of the message is a uint32.
  abbrev pub Sendable : Msg → Type 0
  Sendable m = (unmarshall (marshall m) ≡ some m) × (length (marshall m) < 2 ^ 32)

  full-some :
      (s : Bytes) (b rest : Bytes)
      → full marshall unmarshall s (some (b, rest))
        ≡ decoded marshall unmarshall rest (unmarshall b)
  full-some [] b rest = refl
  full-some (x ∷ s) b rest = refl

  pub read_call-write_call :
      (m : Msg) (s : Bytes)
      → Sendable m
      → read_call marshall unmarshall (write_call marshall unmarshall m ++ s) ≡ call m s
  unfolding read_call write_call le32
  read_call-write_call m s h =
      let b = marshall m in
      rw (of_le32-le32 (length b) h.1, read_full-append b s, full-some, h.0) refl

  abbrev pub Stops : Read → Type 0
  Stops e =
      (again : Bytes → Option (List Msg × Read))
      → after_read marshall unmarshall e again ≡ some ([], e)

  full-none : (s : Bytes) → Stops (full marshall unmarshall s none)
  full-none [] again = refl
  full-none (x ∷ s) again = refl

  -- A stream that ends within a message.
  read_call_cut :
      (m : Msg) (p : Bytes) (x : ℕ) (r : Bytes)
      → Sendable m
      → write_call marshall unmarshall m ≡ p ++ x ∷ r
      → Stops (read_call marshall unmarshall p)
  unfolding read_call write_call le32
  read_call_cut m [] x r h e again = refl
  read_call_cut m (a ∷ []) x r h e again = refl
  read_call_cut m (a ∷ b ∷ []) x r h e again = refl
  read_call_cut m (a ∷ b ∷ c ∷ []) x r h e again = refl
  read_call_cut m (a ∷ b ∷ c ∷ d ∷ p) x r h e again =
      rw (read_full-short (of_le32 a b c d) p (head_lem (marshall m) a b c d p x r h.1 e))
        (full-none p again)

  -- What is known of a stream that is the beginning of what was written.
  pub record ReadSome (ms : List Msg) (p q : Bytes) (fuel : ℕ) : Type 0 where
    pub got : List Msg
    pub rest : List Msg
    pub end : Read
    pub parts : got ++ rest ≡ ms
    pub runs : read_calls marshall unmarshall fuel p ≡ some (got, end)
    pub whole : ((rest ≡ []) × (end ≡ eof) × (q ≡ [])) ⊎ ((y : ℕ) × (t : Bytes) × (q ≡ y ∷ t))

  read_more :
      (m : Msg) (ms : List Msg) (p q r : Bytes) (fuel : ℕ)
      → Sendable m
      → p ≡ write_call marshall unmarshall m ++ r
      → ReadSome ms r q fuel
      → ReadSome (m ∷ ms) p q (suc fuel)
  unfolding read_calls
  read_more m ms p q r fuel h e some_read = record {
    got = m ∷ some_read.got;
    rest = some_read.rest;
    end = some_read.end;
    parts = ap (λ ms. m ∷ ms) some_read.parts;
    runs = rw (e, read_call-write_call m r h) (simp some_read.runs);
    whole = some_read.whole;
  }

  -- If gob gives back every message, and each is shorter than 2^32 bytes, then a reader of any beginning of
  -- the written stream gets the first messages, whole and in their order, and then an error; the error is
  -- io.EOF, after all messages, if the stream is whole.
  pub read_calls-write_calls :
      (ms : List Msg) (p q : Bytes) (fuel : ℕ)
      → All Sendable ms
      → p ++ q ≡ write_calls marshall unmarshall ms
      → length ms < fuel
      → ReadSome ms p q fuel
  unfolding read_calls write_calls read_call
  read_calls-write_calls ms p q zero h e lt = absurd (omega arith)
  read_calls-write_calls [] [] q (suc fuel) h e lt = record {
    got = [];
    rest = [];
    end = eof;
    parts = refl;
    runs = refl;
    whole = inl (refl, refl, e);
  }
  read_calls-write_calls [] (x ∷ p) q (suc fuel) h e lt = absurd (cc)
  read_calls-write_calls (m ∷ ms) p q (suc fuel) h e lt =
      elim (cut p q (write_call marshall unmarshall m) (write_calls marshall unmarshall ms) e) [
        | inl (r, e1, e2) ↦
            read_more m ms p q r fuel h.0 e1
              (read_calls-write_calls ms r q fuel h.1 e2 (omega (arith, lt)))
        | inr (x, r, e1) ↦ record {
          got = [];
          rest = m ∷ ms;
          end = read_call marshall unmarshall p;
          parts = refl;
          runs = read_call_cut m p x r h.0 e1 (read_calls marshall unmarshall fuel);
          whole = inr (
              missing p q x r (write_calls marshall unmarshall ms)
                (e ∙ ap (λ f. f ++ write_calls marshall unmarshall ms) e1));
        }
      ]
