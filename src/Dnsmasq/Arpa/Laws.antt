-- ===== src/Dnsmasq/Arpa/Laws.antt =====
-- The addresses that `in_arpa_name_2_addr` of src/rfc1035.c in http1.0/src/dnsmasq/dnsmasq-2.45 reads.
use mydns.Prelude.{
  ℕ, zero, suc, ◌+◌, ◌*◌, ◌/◌, ◌%◌, ◌≤◌, ◌<◌, ◌≡◌, refl, ap, sym, append-nil, Bool-cases, inl, inr,
  All-append, ◌∙◌, List, [], ◌∷◌, ◌++◌, map, arith, length, take, replicate, codes, append_assoc,
  some, true, false, All, ltb, ◌==◌, decimal, u8,
}
use mydns.Dns.Labels.{dotted}
use mydns.Dnsmasq.Names.{hostname_isequal, to_lower}
use mydns.Dnsmasq.Hex.{hex_digit}
use mydns.Dnsmasq.Arpa.{
  f_ipv4, f_ipv6, is_digit, is_xdigit, digit_of, chunks_loop, last_loop, last_two, all_digits,
  octets_loop, shift_from, one_digit, nibbles_loop, ip6_addr, by_ends, in_arpa_name_2_addr,
}

-- No byte is a dot.
abbrev IsDotless : List ℕ → Type 0
IsDotless = All (λ c. (c == b'.') ≡ false)

chunks_loop-label :
    (chunk l rest : List ℕ)
    → IsDotless l
    → chunks_loop chunk (l ++ b'.' ∷ rest) ≡ (chunk ++ l) ∷ chunks_loop [] rest
unfolding chunks_loop
chunks_loop-label chunk [] rest plain = ap (λ t. t ∷ chunks_loop [] rest) (sym (append-nil chunk))
chunks_loop-label chunk (c ∷ l) rest plain = rw plain.0 (
    chunks_loop-label (chunk ++ c ∷ []) l rest plain.1
    ∙ ap (λ t. t ∷ chunks_loop [] rest) (append_assoc chunk (c ∷ []) l))

chunks_loop-dotted :
    (ls : List (List ℕ)) (rest : List ℕ)
    → All IsDotless ls
    → chunks_loop [] (dotted ls ++ rest) ≡ ls ++ chunks_loop [] rest
unfolding dotted
chunks_loop-dotted [] rest plain = refl
chunks_loop-dotted (l ∷ ls) rest plain = rw (
  append_assoc l (b'.' ∷ dotted ls) rest,
  chunks_loop-label [] l (dotted ls ++ rest) plain.0,
  chunks_loop-dotted ls rest plain.1,
)

last_loop-append :
    (front : List (List ℕ)) (x y : List ℕ) (cs : List (List ℕ)) (p l : List ℕ)
    → last_loop front x y (cs ++ p ∷ l ∷ []) ≡ (front ++ x ∷ y ∷ cs, p, l)
unfolding last_loop
last_loop-append front x y [] p l = ap (λ t. (t, p, l)) (append_assoc front (x ∷ []) (y ∷ []))
last_loop-append front x y (c ∷ cs) p l =
    last_loop-append (front ++ x ∷ []) y c cs p l
    ∙ ap (λ t. (t, p, l)) (append_assoc front (x ∷ []) (y ∷ c ∷ cs))

last_two-append :
    (a : List ℕ) (ls : List (List ℕ)) (p l : List ℕ)
    → last_two ((a ∷ ls) ++ p ∷ l ∷ []) ≡ some (a ∷ ls, p, l)
unfolding last_two last_loop
last_two-append a [] p l = refl
last_two-append a (b ∷ []) p l = refl
last_two-append a (b ∷ (c ∷ ls)) p l = ap some (last_loop-append (a ∷ []) b c ls p l)

-- The elements in reverse, in front of others.
abbrev pub reversed_onto : List ℕ → List ℕ → List ℕ
reversed_onto [] ys = ys
reversed_onto (x ∷ xs) ys = reversed_onto xs (x ∷ ys)

-- `atoi` reads the decimal text of a byte.
abbrev pub ReadsDecimal : (List ℕ → ℕ) → Type 0
ReadsDecimal atoi = (n : ℕ) → n < 256 → atoi (decimal 3 n) ≡ n

decimal-digits : (fuel n : ℕ) → All (λ c. is_digit c ≡ true) (decimal fuel n)
unfolding decimal is_digit
decimal-digits zero n = tt
decimal-digits (suc fuel) n = elim (Bool-cases (ltb n 10)) [
  | inl one ↦ rw one (ground (arith, one), tt)
  | inr more ↦
      rw more
        (All-append _ (decimal fuel (n / 10)) _ (decimal-digits fuel (n / 10)) (ground arith, tt))
]

all_digits-All : (l : List ℕ) → All (λ c. is_digit c ≡ true) l → all_digits l ≡ true
unfolding all_digits
all_digits-All [] h = refl
all_digits-All (c ∷ l) h = rw (h.0, all_digits-All l h.1)

is_digit-IsDotless : (l : List ℕ) → All (λ c. is_digit c ≡ true) l → IsDotless l
unfolding is_digit
is_digit-IsDotless [] h = tt
is_digit-IsDotless (c ∷ l) h = (ground (arith, h.0), is_digit-IsDotless l h.1)

octets_loop-decimal :
    (atoi : List ℕ → ℕ) (os : List ℕ) (a b c d : ℕ) (more rest : List ℕ)
    → ReadsDecimal atoi
    → All (λ o. o < 256) os
    → octets_loop atoi (map (decimal 3) os) (a ∷ b ∷ c ∷ d ∷ rest)
      ≡ record { flags = f_ipv4; addr = take 4 (reversed_onto os (a ∷ b ∷ c ∷ d ∷ more)) ++ rest }
unfolding octets_loop
octets_loop-decimal atoi [] a b c d more rest reads bytes = refl
octets_loop-decimal atoi (o ∷ os) a b c d more rest reads bytes =
    let value : u8 (atoi (decimal 3 o)) ≡ o = omega (arith, reads o bytes.0) in
    rw (all_digits-All (decimal 3 o) (decimal-digits 3 o), value)
      (octets_loop-decimal atoi os o a b c (d ∷ more) rest reads bytes.1)

-- The names of the texts in front of the two last.
abbrev pub octet_texts : List ℕ → List (List ℕ)
octet_texts = map (decimal 3)

octet_texts-IsDotless : (os : List ℕ) → All IsDotless (octet_texts os)
octet_texts-IsDotless [] = tt
octet_texts-IsDotless (o ∷ os) =
    (is_digit-IsDotless (decimal 3 o) (decimal-digits 3 o), octet_texts-IsDotless os)

-- A name of at most 75 bytes is split into its texts, of which the last two decide.
by_ends_lem :
    (atoi : List ℕ → ℕ) (l : List ℕ) (ls : List (List ℕ)) (p e suffix addrp : List ℕ)
    → All IsDotless (l ∷ ls)
    → chunks_loop [] suffix ≡ p ∷ e ∷ []
    → length (dotted (l ∷ ls) ++ suffix) ≤ 75
    → in_arpa_name_2_addr atoi (dotted (l ∷ ls) ++ suffix) addrp
      ≡ by_ends atoi (some (l ∷ ls, p, e))
unfolding in_arpa_name_2_addr
by_ends_lem atoi l ls p e suffix addrp plain split short =
    let fits : ltb 75 (length (dotted (l ∷ ls) ++ suffix)) ≡ false = ground (arith, short) in
    rw (fits, chunks_loop-dotted (l ∷ ls) suffix plain, split, last_two-append l ls p e)

-- The name in-addr.arpa below the octets of an address in decimal, the last one first, if it has at
-- most 75 bytes, is read as that address: the octets that are missing are 0, and of more than four
-- the last four count. `atoi` reads the decimal text of a byte.
pub in_arpa_name_2_addr-octets :
    (atoi : List ℕ → ℕ) (o : ℕ) (os addrp : List ℕ)
    → ReadsDecimal atoi
    → All (λ b. b < 256) (o ∷ os)
    → length (dotted (octet_texts (o ∷ os)) ++ codes "in-addr.arpa") ≤ 75
    → in_arpa_name_2_addr atoi (dotted (octet_texts (o ∷ os)) ++ codes "in-addr.arpa") addrp
      ≡ record {
        flags = f_ipv4;
        addr = take 4 (reversed_onto (o ∷ os) (replicate 4 0)) ++ replicate 12 0;
      }
unfolding chunks_loop by_ends hostname_isequal to_lower
in_arpa_name_2_addr-octets atoi o os addrp reads bytes short =
    by_ends_lem atoi (decimal 3 o) (octet_texts os) (codes "in-addr") (codes "arpa")
      (codes "in-addr.arpa") addrp (octet_texts-IsDotless (o ∷ os)) refl short
    ∙ octets_loop-decimal atoi (o ∷ os) 0 0 0 0 [] (replicate 12 0) reads bytes

-- Two digits to a byte, `k` bytes.
abbrev pub packed : ℕ → List ℕ → List ℕ
packed zero ns = []
packed (suc k) (h ∷ (l ∷ ns)) = (h * 16 + l) ∷ packed k ns
packed (suc k) _ = []

shift_from-packed :
    (k b n : ℕ) (ns : List ℕ)
    → b % 16 ≡ n
    → All (λ d. d < 16) ns
    → 2 * k ≤ length ns
    → shift_from b (packed k ns) ≡ packed k (n ∷ ns)
unfolding shift_from
shift_from-packed zero b n ns e small room = refl
shift_from-packed (suc k) b n [] e small room = absurd (omega arith)
shift_from-packed (suc k) b n (h ∷ []) e small room = absurd (omega arith)
shift_from-packed (suc k) b n (h ∷ (l ∷ ns)) e small room =
    let byte : (h * 16 + l) / 16 + b * 16 % 256 ≡ n * 16 + h =
      omega (arith, e, small.0, small.1.0) in
    rw (
      byte,
      shift_from-packed k (h * 16 + l) l ns (omega (arith, small.1.0)) small.1.1
          (omega (arith, room)),
    )

hex_digit-is_xdigit : (n : ℕ) → n < 16 → is_xdigit (hex_digit n) ≡ true
unfolding hex_digit is_xdigit is_digit
hex_digit-is_xdigit n h = ground arith

digit_of-hex_digit : (n : ℕ) → n < 16 → digit_of (hex_digit n) ≡ n
unfolding hex_digit digit_of is_digit
digit_of-hex_digit n h = ground arith

one_digit-hex_digit : (n : ℕ) → n < 16 → one_digit (hex_digit n ∷ []) ≡ some n
unfolding one_digit
one_digit-hex_digit n h = rw (hex_digit-is_xdigit n h, digit_of-hex_digit n h)

nibbles_loop-one_digit :
    (c : List ℕ) (cs : List (List ℕ)) (d : ℕ) (addr : List ℕ)
    → one_digit c ≡ some d
    → nibbles_loop (c ∷ cs) addr ≡ nibbles_loop cs (shift_from d addr)
unfolding nibbles_loop
nibbles_loop-one_digit c cs d addr e = rw (nibbles_loop, e)

hex_digit-dot : (n : ℕ) → n < 16 → (hex_digit n == b'.') ≡ false
unfolding hex_digit
hex_digit-dot n h = ground arith

abbrev pub digit_texts : List ℕ → List (List ℕ)
digit_texts = map (λ n. hex_digit n ∷ [])

digit_texts-IsDotless : (ns : List ℕ) → All (λ n. n < 16) ns → All IsDotless (digit_texts ns)
digit_texts-IsDotless [] small = tt
digit_texts-IsDotless (n ∷ ns) small =
    ((hex_digit-dot n small.0, tt), digit_texts-IsDotless ns small.1)

nibbles_loop-digits :
    (ns old : List ℕ)
    → All (λ n. n < 16) ns
    → All (λ n. n < 16) old
    → 32 ≤ length old
    → nibbles_loop (digit_texts ns) (packed 16 old)
      ≡ record { flags = f_ipv6; addr = packed 16 (reversed_onto ns old) }
unfolding nibbles_loop
nibbles_loop-digits [] old small h room = refl
nibbles_loop-digits (n ∷ ns) old small h room =
    nibbles_loop-one_digit (hex_digit n ∷ []) (digit_texts ns) n (packed 16 old)
      (one_digit-hex_digit n small.0)
    ∙ ap (nibbles_loop (digit_texts ns))
        (shift_from-packed 16 n n old (omega (arith, small.0)) h room)
    ∙ nibbles_loop-digits ns (n ∷ old) small.1 (small.0, h) (omega (arith, room))

-- The name ip6.arpa below hexadecimal digits, the last one first, if it has at most 75 bytes, is read
-- as the address of 32 digits that they end: digits that are missing are 0.
pub in_arpa_name_2_addr-digits :
    (atoi : List ℕ → ℕ) (n : ℕ) (ns addrp : List ℕ)
    → All (λ d. d < 16) (n ∷ ns)
    → length (dotted (digit_texts (n ∷ ns)) ++ codes "ip6.arpa") ≤ 75
    → in_arpa_name_2_addr atoi (dotted (digit_texts (n ∷ ns)) ++ codes "ip6.arpa") addrp
      ≡ record { flags = f_ipv6; addr = packed 16 (reversed_onto (n ∷ ns) (replicate 32 0)) }
unfolding chunks_loop by_ends hostname_isequal to_lower ip6_addr
in_arpa_name_2_addr-digits atoi n ns addrp small short =
    by_ends_lem atoi (hex_digit n ∷ []) (digit_texts ns) (codes "ip6") (codes "arpa")
      (codes "ip6.arpa") addrp (digit_texts-IsDotless (n ∷ ns) small) refl short
    ∙ nibbles_loop-digits (n ∷ ns) (replicate 32 0) small (omega arith) (omega arith)
