-- ===== src/Dnsmasq/Extract/Rounds.antt =====
-- One round of the loop in `extract_name`, of src/rfc1035.c in http1.0/src/dnsmasq/dnsmasq-2.45:
-- what it reads and writes, and how far it comes.
use mydns.Prelude.{
  ℕ, zero, suc, ◌+◌, ◌-◌, ◌*◌, ◌/◌, ◌%◌, ◌≤◌, ◌<◌, ◌≡◌, refl, List, [], ◌∷◌, ◌++◌, arith, length,
  length-append, get_elem?, Option, none, some, Bool, true, false, Bool-cases, ◌==◌, ltb, leb,
  lt→ltb, if◌then◌else◌, Outcome, done, ◌>>=◌, read, Returns, Returns->>=, Returns-if,
  Returns-weaken, decimal, inl, inr, ◌⊎◌,
}
use mydns.Dnsmasq.Names.{legal_char, max_dname}
use mydns.Dnsmasq.Extract.{
  Cursor, push, push_all, follow, digits_loop, bit_count, bit_string, extract_label, compare_label,
  label_out, label_compared, round_of, Compared, compare_byte,
}

pub read-Returns :
    (P : ℕ → Type 0) (packet : List ℕ) (i : ℕ)
    → i < length packet
    → ((b : ℕ) → get_elem? packet i ≡ some b → P b)
    → Returns P (read packet i)
read-Returns P [] i h f = absurd (omega arith)
read-Returns P (x ∷ xs) zero h f = f x refl
read-Returns P (x ∷ xs) (suc i) h f = read-Returns P xs i (omega arith) f

push-Returns :
    (name : List ℕ) (c : ℕ)
    → length name < 1025
    → Returns (λ next. length next ≡ length name + 1) (push name c)
unfolding push
push-Returns name c h =
    rw (lt→ltb (length name) max_dname h) (omega (arith, length-append name (c ∷ [])))

push_all-Returns :
    (name cs : List ℕ)
    → length name + length cs ≤ 1025
    → Returns (λ next. length next ≡ length name + length cs) (push_all name cs)
unfolding push_all
push_all-Returns name [] h = omega arith
push_all-Returns name (c ∷ cs) h =
    Returns->>= _ _ (push name c) _ (push-Returns name c (omega arith)) (λ next e.
      Returns-weaken _ _ (push_all next cs) (λ last f. omega (arith, e, f))
        (push_all-Returns next cs (omega (arith, e))))

-- A round left a label or bit string behind, or followed one more pointer.
abbrev pub Moved : ℕ → Cursor → Cursor → Type 0
Moved plen c d = ((d.hops ≡ c.hops) × (c.p ≤ d.p)) ⊎ ((d.hops ≡ c.hops + 1) × (d.hops ≤ 255))

-- What holds behind a round that did not give up.
abbrev pub AfterRound : ℕ → Cursor → Option Cursor → Type 0
AfterRound plen c none = Unit
AfterRound plen c (some d) = Moved plen c d × (length d.name ≤ 1024)

AfterRound-if :
    (plen : ℕ) (c : Cursor) (b : Bool) (o : Option Cursor)
    → (b ≡ false → AfterRound plen c o)
    → AfterRound plen c (if b then none else o)
AfterRound-if plen c true o h = tt
AfterRound-if plen c false o h = h refl

-- A label that was read out.
abbrev HasGrown : ℕ → Option (List ℕ) → Type 0
HasGrown n none = Unit
HasGrown n (some name) = length name ≡ n

length-decimal : (fuel n : ℕ) → length (decimal fuel n) ≤ fuel
unfolding decimal
length-decimal zero n = omega arith
length-decimal (suc fuel) n = elim (Bool-cases (ltb n 10)) [
  | inl one ↦ rw one (omega arith)
  | inr more ↦ rw more (
      omega (
        arith,
        length-decimal fuel (n / 10),
        length-append (decimal fuel (n / 10)) ((b'0' + n % 10) ∷ []),
      ))
]

module _ (packet : List ℕ) (plen : ℕ) (room : plen + 64 ≤ length packet) where
  pub read-any :
      {B : Type 0} (P : B → Type 0) (i : ℕ) (f : ℕ → Outcome B)
      → i < length packet
      → ((b : ℕ) → get_elem? packet i ≡ some b → Returns P (f b))
      → Returns P (read packet i >>= f)
  read-any P i f h k =
      Returns->>= (λ b. get_elem? packet i ≡ some b) P (read packet i) f
        (read-Returns _ packet i h (λ b e. e)) k

  follow-Returns :
      (l : ℕ) (c : Cursor)
      → length c.name ≤ 1024
      → Returns (AfterRound plen c) (follow packet plen l c)
  unfolding follow
  follow-Returns l c h =
      Returns-if _ (leb plen c.p) _ _ (λ e. tt)
        (λ e. read-any _ c.p _ (ground (arith, e, room)) (λ low at.
          AfterRound-if plen c (leb plen (l % 64 * 256 + low)) _ (λ inside.
            AfterRound-if plen c (ltb 255 (c.hops + 1)) _
              (λ few. (inr (refl, ground (arith, few)), h)))))

  extract_label-Returns :
      (n p : ℕ) (name : List ℕ)
      → length name + n ≤ 1024
      → p + n ≤ length packet
      → Returns (HasGrown (length name + n)) (extract_label packet n p name)
  unfolding extract_label
  extract_label-Returns zero p name h k = omega arith
  extract_label-Returns (suc n) p name h k = read-any _ p _ (omega arith) (λ b at.
      by_byte b (legal_char b) (λ next e.
        let count : length next + n ≡ length name + suc n = omega (arith, e) in
        rw count at (extract_label-Returns n (p + 1) next (omega (arith, e)) (omega arith))))
    where
      by_byte :
          (b : ℕ) (legal : Bool)
          → ((next : List ℕ)
              → length next ≡ length name + 1
              → Returns (HasGrown (length name + suc n)) (extract_label packet n (p + 1) next))
          → Returns (HasGrown (length name + suc n)) (elim legal [
            | true ↦ (do next ← push name b; extract_label packet n (p + 1) next)
            | false ↦ done none
          ])
      by_byte b true ih =
          Returns->>= _ _ (push name b) _ (push-Returns name b (omega (arith, h))) ih
      by_byte b false ih = tt

  label_out-Returns :
      (l : ℕ) (c : Cursor) → l < 64 → Returns (AfterRound plen c) (label_out packet plen l c)
  unfolding label_out
  label_out-Returns l c short =
      Returns-if _ (leb max_dname (length c.name + l + 1)) _ _ (λ e. tt)
        (λ fits.
          Returns-if _ (leb plen c.p) _ _ (λ e. tt)
            (λ inside.
              Returns->>= (HasGrown (length c.name + l)) _ (extract_label packet l c.p c.name) _
                (extract_label-Returns l c.p c.name (ground (arith, fits))
                  (ground (arith, inside, room, short)))
                (elim [
                  | none ↦ λ g. tt
                  | some name ↦ λ g.
                      Returns->>= _ _ (push name b'.') _
                        (push-Returns name b'.' (ground (arith, fits, g)))
                        (λ ended e. (inl (refl, omega arith), ground (arith, fits, g, e)))
                ])))

  compare_label-Returns :
      (n p : ℕ) (s : Compared)
      → p + n ≤ length packet
      → Returns (λ t. Unit {0}) (compare_label packet n p s)
  unfolding compare_label
  compare_label-Returns zero p s k = tt
  compare_label-Returns (suc n) p s k =
      read-any _ p _ (omega arith) (λ b at.
        compare_label-Returns n (p + 1) (compare_byte b s.cp s.rest s.differs) (omega arith))

  label_compared-Returns :
      (l : ℕ) (c : Cursor)
      → l < 64
      → length c.name ≤ 1024
      → Returns (AfterRound plen c) (label_compared packet plen l c)
  unfolding label_compared
  label_compared-Returns l c short h =
      Returns-if _ (leb max_dname (c.cp + l + 1)) _ _ (λ e. tt)
        (λ fits.
          Returns-if _ (leb plen c.p) _ _ (λ e. tt)
            (λ inside.
              Returns->>= (λ t. Unit {0}) _ (compare_label packet l c.p _) _
                (compare_label-Returns l c.p _ (ground (arith, inside, room, short)))
                (λ t u. (inl (refl, omega arith), h))))

  -- What the digits add to the name, and where they leave `p`.
  abbrev HasDigits : ℕ → ℕ → List ℕ × ℕ → Type 0
  HasDigits n p x = (length x.0 ≡ n) × (p ≤ x.1)

  digits_loop-Returns :
      (n j p : ℕ) (name : List ℕ)
      → length name + n ≤ 1024
      → p + (n + j % 2) / 2 < length packet
      → Returns (HasDigits (length name + n) p) (digits_loop packet n j p name)
  unfolding digits_loop
  digits_loop-Returns zero j p name h k = (omega arith, omega arith)
  digits_loop-Returns (suc n) j p name h k = read-any _ p _ (omega arith) (λ b at.
      Returns->>= _ _ (push name _) _ (push-Returns name _ (omega (arith, h))) (λ next e.
        by_parity next e (Bool-cases (j % 2 == 0)) (digits_loop-Returns n (j + 1) p next)
          (digits_loop-Returns n (j + 1) (p + 1) next)))
    where
      by_parity :
          (next : List ℕ)
          → length next ≡ length name + 1
          → ((j % 2 == 0) ≡ true) ⊎ ((j % 2 == 0) ≡ false)
          → (length next + n ≤ 1024
              → p + (n + (j + 1) % 2) / 2 < length packet
              → Returns (HasDigits (length next + n) p) (digits_loop packet n (j + 1) p next))
          → (length next + n ≤ 1024
              → p + 1 + (n + (j + 1) % 2) / 2 < length packet
              → Returns
                  (HasDigits (length next + n) (p + 1))
                  (digits_loop packet n (j + 1) (p + 1) next))
          → Returns
              (HasDigits (length name + suc n) p)
              (digits_loop packet n (j + 1) (if j % 2 == 0 then p else p + 1) next)
      by_parity next e (inl even) stay move = rw even (
          Returns-weaken (HasDigits (length next + n) p) (HasDigits (length name + suc n) p) _
            (λ x d. (omega (arith, e, d.0), d.1))
            (stay (omega (arith, e)) (ground (arith, even, k))))
      by_parity next e (inr odd) stay move = rw odd (
          Returns-weaken (HasDigits (length next + n) (p + 1)) (HasDigits (length name + suc n) p) _
            (λ x d. (omega (arith, e, d.0), omega (arith, d.1)))
            (move (omega (arith, e)) (ground (arith, odd, k))))

  bit_string-Returns :
      (c : Cursor) → c.p < plen + 1 → Returns (AfterRound plen c) (bit_string packet plen c)
  unfolding bit_string
  bit_string-Returns c h = read-any _ c.p _ (omega (arith, room)) (λ b at. go (bit_count b))
    where
      go :
          (count : ℕ)
          → Returns (AfterRound plen c) (
              let digs = (count - 1) / 4 + 1 in
              if leb max_dname (length c.name + digs + 9)
              then done none
              else if leb plen (c.p + 1 + (count - 1) / 8)
              then done none
              else (do
                opened ← push_all c.name (0x5c ∷ b'[' ∷ b'x' ∷ [])
                (name, p) ← digits_loop packet digs 0 (c.p + 1) opened
                closed ← push_all name (b'/' ∷ (decimal 3 count ++ b']' ∷ []))
                ended ← push closed b'.'
                done (some (record c { p = p; name = ended }))))
      go count =
          let digs = (count - 1) / 4 + 1 in
          Returns-if _ (leb max_dname (length c.name + digs + 9)) _ _ (λ e. tt)
            (λ fits.
              Returns-if _ (leb plen (c.p + 1 + (count - 1) / 8)) _ _ (λ e. tt)
                (λ inside.
                  Returns->>= _ _ (push_all c.name _) _
                    (push_all-Returns c.name _ (ground (arith, fits)))
                    (λ opened e.
                      Returns->>= (HasDigits (length opened + digs) (c.p + 1)) _
                        (digits_loop packet digs 0 (c.p + 1) opened) _
                        (digits_loop-Returns digs 0 (c.p + 1) opened (ground (arith, fits, e))
                          (ground (arith, inside, room)))
                        (λ x d.
                          Returns->>= _ _ (push_all x.0 _) _
                            (push_all-Returns x.0 (b'/' ∷ (decimal 3 count ++ b']' ∷ [])) (
                              ground (
                                arith,
                                fits,
                                e,
                                d,
                                length-decimal 3 count,
                                length-append (decimal 3 count) (b']' ∷ []),
                              )))
                            (λ closed f.
                              Returns->>= _ _ (push closed b'.') _
                                (push-Returns closed b'.' (
                                  ground (
                                    arith,
                                    fits,
                                    e,
                                    d,
                                    f,
                                    length-decimal 3 count,
                                    length-append (decimal 3 count) (b']' ∷ []),
                                  )))
                                (λ ended g. (
                                  inl (refl, omega (arith, d.1)),
                                  ground (
                                    arith,
                                    fits,
                                    e,
                                    d,
                                    f,
                                    g,
                                    length-decimal 3 count,
                                    length-append (decimal 3 count) (b']' ∷ []),
                                  ),
                                )))))))

  pub round_of-Returns :
      (is_extract : Bool) (l : ℕ) (c : Cursor)
      → c.p < plen + 1
      → length c.name ≤ 1024
      → Returns (AfterRound plen c) (round_of is_extract packet plen l c)
  unfolding round_of
  round_of-Returns is_extract l c h k =
      Returns-if _ (leb 192 l) _ _ (λ e. follow-Returns l c k)
        (λ e.
          Returns-if _ (leb 128 l) _ _ (λ e'. tt)
            (λ e'.
              Returns-if _ (leb 64 l) _ _
                (λ bits.
                  Returns-if _ (l == 65) _ _
                    (λ one. Returns-if _ is_extract _ _ (λ out. bit_string-Returns c h) (λ cmp. tt))
                    (λ other. tt))
                (λ plain.
                  Returns-if _ is_extract _ _ (λ out. label_out-Returns l c (ground (arith, plain)))
                    (λ cmp. label_compared-Returns l c (ground (arith, plain)) k))))
