-- ===== src/Dnsmasq/Skip/Laws.antt =====
-- The walk of src/rfc1035.c in http1.0/src/dnsmasq/dnsmasq-2.45 returns on every packet and ends
-- inside it, and skips the names that src/util.c writes.
use mydns.Prelude.{
  ℕ, zero, suc, ◌+◌, ◌≤◌, ◌<◌, ◌≡◌, refl, List, [], ◌∷◌, arith, length, Option, none, some, Outcome,
  ◌>>=◌, read, ntohs_at, Returns, Returns->>=, Returns-if, Returns-weaken, true, false, leb, ltb,
  ◌==◌, if◌then◌else◌, Bool, All,
}
use mydns.Dnsmasq.Skip.{
  skip_label, skip_name, SkipStep, stop, goes_on, questions_loop, behind_name, within,
  skip_questions, skip_section, bit_bytes,
}

-- What a round of the walk gives: an end behind `ansp` by two bytes of `plen` at most, or a label
-- further on.
abbrev Skips : ℕ → ℕ → SkipStep → Type 0
Skips plen ansp (stop none) = Unit
Skips plen ansp (stop (some p)) = (ansp < p) × (p ≤ plen + 1)
Skips plen ansp (goes_on p) = (ansp < plen) × (ansp < p) × (p ≤ plen + 63)

abbrev pub Ends : ℕ → Option ℕ → Type 0
Ends n none = Unit
Ends n (some p) = p ≤ n

-- An end that is also behind `i`.
abbrev pub EndsBehind : ℕ → ℕ → Option ℕ → Type 0
EndsBehind i n none = Unit
EndsBehind i n (some p) = (i < p) × (p ≤ n)

EndsBehind-weaken : (i j n : ℕ) (o : Option ℕ) → i < j → EndsBehind j n o → EndsBehind i n o
EndsBehind-weaken i j n none h e = tt
EndsBehind-weaken i j n (some p) h e = (omega (arith, e.0), e.1)

pub read-byte :
    {B : Type 0} (P : B → Type 0) (packet : List ℕ) (i : ℕ) (f : ℕ → Outcome B)
    → All (λ b. b < 256) packet
    → i < length packet
    → ((b : ℕ) → b < 256 → Returns P (f b))
    → Returns P (read packet i >>= f)
read-byte P [] i f bytes h k = absurd (omega arith)
read-byte P (x ∷ xs) zero f bytes h k = k x bytes.0
read-byte P (x ∷ xs) (suc i) f bytes h k = read-byte P xs i f bytes.1 (omega arith) k

bit_bytes-le : (count : ℕ) → count < 256 → bit_bytes count ≤ 32
bit_bytes-le count h = ground arith

-- The packet's block reaches 64 bytes behind `plen`.
module _ (packet : List ℕ) (plen : ℕ) (room : plen + 64 ≤ length packet)
    (bytes : All (λ b. b < 256) packet) where
  skip_label-Returns :
      (ansp : ℕ) → ansp ≤ plen + 63 → Returns (Skips plen ansp) (skip_label packet plen ansp)
  unfolding skip_label
  skip_label-Returns ansp h = read-byte _ packet ansp _ bytes (omega (arith, room)) (λ b byte.
      Returns-if _ (leb plen ansp) _ _ (λ e. tt)
        (λ inside.
          Returns-if _ (leb 192 b) _ _ (λ e. (omega arith, ground (arith, inside)))
            (λ e.
              Returns-if _ (leb 128 b) _ _ (λ e'. tt)
                (λ e'.
                  Returns-if _ (leb 64 b) _ _
                    (λ bits.
                      Returns-if _ (b == 65) _ _
                        (λ one.
                          read-byte _ packet (ansp + 1) _ bytes (ground (arith, inside, room))
                            (λ count small. (
                              ground (arith, inside),
                              omega arith,
                              ground (arith, inside, bit_bytes-le count small),
                            )))
                        (λ other. tt))
                    (λ plain.
                      Returns-if _ (b == 0) _ _ (λ e'. (omega arith, ground (arith, inside)))
                        (λ more.
                          (ground (arith, inside), omega arith, ground (arith, inside, plain))))))))

  pub skip_name-Returns :
      (fuel ansp : ℕ)
      → ansp ≤ plen + 63
      → plen + 64 ≤ ansp + fuel
      → Returns (EndsBehind ansp (plen + 1)) (skip_name packet plen fuel ansp)
  unfolding skip_name
  skip_name-Returns zero ansp h enough = absurd (omega arith)
  skip_name-Returns (suc fuel) ansp h enough =
      Returns->>= (Skips plen ansp) _ (skip_label packet plen ansp) _ (skip_label-Returns ansp h)
        (elim [
          | stop none ↦ λ s. tt
          | stop (some p) ↦ λ s. s
          | goes_on p ↦ λ s.
              Returns-weaken (EndsBehind p (plen + 1)) _ (skip_name packet plen fuel p)
                (λ o e. EndsBehind-weaken ansp p (plen + 1) o s.1 e)
                (skip_name-Returns fuel p s.2 (omega (arith, s.1, enough)))
        ])

  behind_name-Returns :
      (P : Option ℕ → Type 0) (f : ℕ → Outcome (Option ℕ)) (i : ℕ) (o : Option ℕ)
      → P none
      → EndsBehind i (plen + 1) o
      → ((p : ℕ) → p ≤ plen + 1 → Returns P (f p))
      → Returns P (behind_name f o)
  behind_name-Returns P f i none given e k = given
  behind_name-Returns P f i (some p) given e k = k p e.1

  pub ntohs_at-Returns :
      (i : ℕ) → i + 1 < length packet → Returns (λ n. Unit {0}) (ntohs_at packet i)
  unfolding ntohs_at
  ntohs_at-Returns i h =
      read-byte _ packet i _ bytes (omega arith)
        (λ hi b. read-byte _ packet (i + 1) _ bytes h (λ lo b'. tt))

  module _ (fuel : ℕ) (enough : plen + 64 ≤ fuel) where
    questions_loop-Returns :
        (q ansp : ℕ)
        → ansp ≤ plen + 63
        → Returns (Ends (plen + 63)) (questions_loop packet plen fuel q ansp)
    unfolding questions_loop
    questions_loop-Returns zero ansp h = h
    questions_loop-Returns (suc q) ansp h =
        Returns->>= (EndsBehind ansp (plen + 1)) _ (skip_name packet plen fuel ansp) _
          (skip_name-Returns fuel ansp h (omega (arith, enough)))
          (λ o e.
            behind_name-Returns (Ends (plen + 63)) _ ansp o tt e
              (λ p k. questions_loop-Returns q (p + 4) (omega (arith, k))))

    within-Ends : (o : Option ℕ) → Ends plen (within plen o)
    within-Ends none = tt
    within-Ends (some ansp) = by_test (ltb plen ansp) (λ e. ground (arith, e))
      where
        by_test : (b : Bool) → (b ≡ false → ansp ≤ plen) → Ends plen (if b then none else some ansp)
        by_test true h = tt
        by_test false h = h refl

    -- On every packet with room for its header, `skip_questions` returns, and where it does not give
    -- up it ends inside the packet.
    pub skip_questions-Returns : 12 ≤ plen → Returns (Ends plen) (skip_questions packet plen fuel)
    unfolding skip_questions
    skip_questions-Returns header =
        Returns->>= (λ n. Unit {0}) _ (ntohs_at packet 4) _
          (ntohs_at-Returns 4 (omega (arith, header, room)))
          (λ qdcount u.
            Returns->>= (Ends (plen + 63)) _ (questions_loop packet plen fuel qdcount 12) _
              (questions_loop-Returns qdcount 12 (omega (arith, header))) (λ o e. within-Ends o))

    -- From a place in the packet, or not far behind it, `skip_section` returns, and where it does not
    -- give up it ends no further.
    pub skip_section-Returns :
        (n count ansp : ℕ)
        → plen ≤ n
        → n ≤ plen + 63
        → ansp ≤ n
        → Returns (Ends n) (skip_section packet plen fuel ansp count)
    unfolding skip_section
    skip_section-Returns n zero ansp low high h = h
    skip_section-Returns n (suc count) ansp low high h =
        Returns->>= (EndsBehind ansp (plen + 1)) _ (skip_name packet plen fuel ansp) _
          (skip_name-Returns fuel ansp (omega arith) (omega (arith, enough)))
          (λ o e. behind_name-Returns (Ends n) _ ansp o tt e (λ p k.
            Returns->>= (λ n. Unit {0}) (Ends n) (ntohs_at packet (p + 8)) _
              (ntohs_at-Returns (p + 8) (omega (arith, k, room)))
              (λ rdlen u.
                Returns-if (Ends n) (ltb plen (p + 10 + rdlen)) _ _ (λ far. tt)
                  (λ inside.
                    skip_section-Returns n count (p + 10 + rdlen) low high
                      (ground (arith, inside, low))))))
