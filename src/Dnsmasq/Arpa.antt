-- ===== src/Dnsmasq/Arpa.antt =====
-- `in_arpa_name_2_addr` of src/rfc1035.c in http1.0/src/dnsmasq/dnsmasq-2.45, which reads an address
-- from a name under in-addr.arpa or ip6.arpa. HAVE_IPV6 is defined, so an address has 16 bytes.
pub mod Laws
use mydns.Prelude.{
  ℕ, zero, suc, ◌+◌, ◌-◌, ◌*◌, ◌/◌, ◌%◌, List, [], ◌∷◌, ◌++◌, ltb, ◌==◌, ◌&&◌, ◌||◌, if◌then◌else◌,
  Bool, true, false, Option, none, some, take, drop, replicate, length, codes, u8,
}
use mydns.Dnsmasq.Names.{between, hostname_isequal}

abbrev pub f_ipv4 : ℕ
f_ipv4 = 128

abbrev pub f_ipv6 : ℕ
f_ipv6 = 256

-- The result, and what `addrp` points to.
pub record Arpa : Type 0 where
  pub flags : ℕ
  pub addr : List ℕ

-- `isdigit` and `isxdigit`, as they are documented.
unfoldable pub is_digit : ℕ → Bool
is_digit c = between b'0' b'9' c

unfoldable pub is_xdigit : ℕ → Bool
is_xdigit c = is_digit c || (between b'a' b'f' c || between b'A' b'F' c)

-- `strtol` of one such digit with base 16.
unfoldable pub digit_of : ℕ → ℕ
digit_of c = if is_digit c then c - b'0' else if ltb c b'a' then c - 55 else c - 87

-- The series of texts in `name`, from what was copied of the first.
unfoldable pub chunks_loop : List ℕ → List ℕ → List (List ℕ)
chunks_loop chunk [] = chunk ∷ []
chunks_loop chunk (c ∷ namein) =
    let next = chunks_loop [] namein in
    let longer = chunks_loop (chunk ++ c ∷ []) namein in if c == b'.' then chunk ∷ next else longer

-- The texts in front of `penchunk`, it and `lastchunk`, as each further text moves them.
unfoldable pub last_loop :
    List (List ℕ) → List ℕ → List ℕ → List (List ℕ) → List (List ℕ) × List ℕ × List ℕ
last_loop front penchunk lastchunk [] = (front, penchunk, lastchunk)
last_loop front penchunk lastchunk (c ∷ cs) = last_loop (front ++ penchunk ∷ []) lastchunk c cs

-- `none` is `j < 3`.
unfoldable pub last_two : List (List ℕ) → Option (List (List ℕ) × List ℕ × List ℕ)
last_two (a ∷ (b ∷ (c ∷ cs))) = some (last_loop (a ∷ []) b c cs)
last_two _ = none

unfoldable pub all_digits : List ℕ → Bool
all_digits [] = true
all_digits (c ∷ cs) = is_digit c && all_digits cs

-- `addr[3] = addr[2]` and the lines below it.
abbrev pub shift_octet : ℕ → List ℕ → List ℕ
shift_octet x addr = x ∷ (take 3 addr ++ drop 4 addr)

-- The loop for IPv4, with the texts left.
unfoldable pub octets_loop : (List ℕ → ℕ) → List (List ℕ) → List ℕ → Arpa
octets_loop atoi [] addr = record { flags = f_ipv4; addr = addr }
octets_loop atoi (c ∷ cs) addr =
    let rest = octets_loop atoi cs (shift_octet (u8 (atoi c)) addr) in
    if all_digits c then rest else record { flags = 0; addr = addr }

-- `addr[j] = (addr[j] >> 4) | (addr[j-1] << 4)`, `b` being the byte in front.
unfoldable pub shift_from : ℕ → List ℕ → List ℕ
shift_from b [] = []
shift_from b (a ∷ addr) = (a / 16 + b * 16 % 256) ∷ shift_from a addr

-- `*(cp1+1) || !isxdigit((int)*cp1)` gives `none`.
unfoldable pub one_digit : List ℕ → Option ℕ
one_digit (c ∷ []) = if is_xdigit c then some (digit_of c) else none
one_digit _ = none

-- The loop for IPv6, with the texts left.
unfoldable pub nibbles_loop : List (List ℕ) → List ℕ → Arpa
nibbles_loop [] addr = record { flags = f_ipv6; addr = addr }
nibbles_loop (c ∷ cs) addr = elim (one_digit c) [
  | none ↦ record { flags = 0; addr = addr }
  | some d ↦ nibbles_loop cs (shift_from d addr)
]

-- `addr[j/2] |= d` for an odd `j`, where the lower half is 0, and `addr[j/2] = d << 4` otherwise.
unfoldable pub put_digit : ℕ → ℕ → List ℕ → List ℕ
put_digit j d [] = []
put_digit zero d (a ∷ addr) = (d * 16) ∷ addr
put_digit (suc zero) d (a ∷ addr) = (a + d) ∷ addr
put_digit (suc (suc j)) d (a ∷ addr) = a ∷ put_digit j d addr

-- The digits of a bit string from the `j`th on, and the test behind them.
unfoldable pub bits_loop : ℕ → List ℕ → List ℕ → Arpa
bits_loop j [] addr = record { flags = 0; addr = addr }
bits_loop j (c ∷ cs) addr =
    let rest = bits_loop (j + 1) cs (put_digit j (digit_of c) addr) in
    if is_xdigit c && ltb j 32
    then rest
    else record { flags = if c == b'/' && j == 32 then f_ipv6 else 0; addr = addr }

-- What is behind `\[x` or `\[X`.
abbrev pub bits_of : List ℕ → Option (List ℕ)
bits_of (a ∷ (b ∷ (c ∷ cs))) =
    if (a == 92 && b == b'[') && (c == b'x' || c == b'X') then some cs else none
bits_of _ = none

abbrev pub first_of : List (List ℕ) → List ℕ
first_of [] = []
first_of (c ∷ cs) = c

-- The branch for ip6.int and ip6.arpa.
unfoldable pub ip6_addr : List (List ℕ) → List ℕ → Arpa
ip6_addr front addr = elim (bits_of (first_of front)) [
  | none ↦ nibbles_loop front addr
  | some cs ↦ bits_loop 0 cs addr
]

abbrev pub zero_addr : List ℕ
zero_addr = replicate 16 0

-- What follows from the texts.
unfoldable pub by_ends : (List ℕ → ℕ) → Option (List (List ℕ) × List ℕ × List ℕ) → Arpa
by_ends atoi none = record { flags = 0; addr = zero_addr }
by_ends atoi (some (front, penchunk, lastchunk)) =
    if hostname_isequal lastchunk (codes "arpa") && hostname_isequal penchunk (codes "in-addr")
    then octets_loop atoi front zero_addr
    else if hostname_isequal penchunk (codes "ip6")
        && (hostname_isequal lastchunk (codes "int") || hostname_isequal lastchunk (codes "arpa"))
    then ip6_addr front zero_addr
    else record { flags = 0; addr = zero_addr }

-- `in_arpa_name_2_addr`, from what `addrp` points to before it. MAXARPANAME is 75.
unfoldable pub in_arpa_name_2_addr : (List ℕ → ℕ) → List ℕ → List ℕ → Arpa
in_arpa_name_2_addr atoi namein addrp =
    if ltb 75 (length namein)
    then record { flags = 0; addr = addrp }
    else by_ends atoi (last_two (chunks_loop [] namein))
