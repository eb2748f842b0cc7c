-- ===== src/Dnsmasq/Hex.antt =====
-- `print_mac`, `parse_hex` and `memcmp_masked` in src/util.c of http1.0/src/dnsmasq/dnsmasq-2.45:
-- hardware addresses as text, and their comparison under a mask of wildcards.
pub mod Laws
pub mod Masked
use mydns.Prelude.{
  ℕ, zero, suc, ◌+◌, ◌-◌, ◌*◌, ◌/◌, ◌%◌, List, [], ◌∷◌, ◌++◌, ltb, ◌==◌, ◌&&◌, ◌||◌, if◌then◌else◌,
  Bool, true, false, Option, none, some, Outcome, done, ◌>>=◌, read, write, codes, u8, u32,
}

-- One digit of `%x`.
unfoldable pub hex_digit : ℕ → ℕ
hex_digit d = if ltb d 10 then d + b'0' else d - 10 + b'a'

-- `%.2x` of a byte.
abbrev pub hex2 : ℕ → List ℕ
hex2 b = hex_digit (b / 16) ∷ hex_digit (b % 16) ∷ []

unfoldable pub print_loop : List ℕ → List ℕ
print_loop [] = []
print_loop (m ∷ []) = hex2 m
print_loop (m ∷ (n ∷ mac)) = hex2 m ++ b':' ∷ print_loop (n ∷ mac)

-- `print_mac`
unfoldable pub print_mac : List ℕ → List ℕ
print_mac [] = codes "<null>"
print_mac (m ∷ mac) = print_loop (m ∷ mac)

-- The variables of `parse_hex`: `out` is the block, and `wants` says that `mac_type` is not null.
pub record Hex : Type 0 where
  pub i : ℕ
  pub mask : ℕ
  pub out : List ℕ
  pub mac_type : ℕ
  pub wants : Bool

-- `strcmp(in, "*") == 0`
abbrev pub is_star : List ℕ → Bool
is_star (c ∷ []) = c == b'*'
is_star _ = false

-- What is done with the text in front of a separator, or of the end, where `sep` is 0. `strtol` is
-- that of the C library with base 16, its result cut to 64 bits.
unfoldable pub hex_chunk : (List ℕ → ℕ) → List ℕ → ℕ → Hex → Outcome Hex
hex_chunk strtol [] sep s = done s
hex_chunk strtol (c ∷ cs) sep s =
    if (sep == b'-' && s.i == 0) && s.wants
    then done (record s { mac_type = u32 (strtol (c ∷ cs)); wants = false })
    else if is_star (c ∷ cs)
    then done (record s { i = s.i + 1; mask = u32 (s.mask * 2) + 1 })
    else (do
      next ← write s.out s.i (u8 (strtol (c ∷ cs)))
      done (record s { i = s.i + 1; mask = u32 (s.mask * 2); out = next }))

-- `maxlen == -1 || i < maxlen`, where -1 is `none`.
abbrev pub has_room : Option ℕ → ℕ → Bool
has_room none i = true
has_room (some maxlen) i = ltb i maxlen

-- The loops, with the bytes read since the last separator and those to come.
unfoldable pub hex_loop : (List ℕ → ℕ) → Option ℕ → List ℕ → List ℕ → Hex → Outcome Hex
hex_loop strtol maxlen chunk [] s = hex_chunk strtol chunk 0 s
hex_loop strtol maxlen chunk (c ∷ cs) s =
    let next = λ (t : Hex). hex_loop strtol maxlen [] cs t in
    let longer = hex_loop strtol maxlen (chunk ++ c ∷ []) cs s in
    if c == b':' || c == b'-'
    then (do t ← hex_chunk strtol chunk c s; if has_room maxlen t.i then next t else done t)
    else longer

-- `parse_hex`: the state at its end, whose `i` is the result.
unfoldable pub parse_hex : (List ℕ → ℕ) → List ℕ → List ℕ → Option ℕ → Bool → Outcome Hex
parse_hex strtol text out maxlen wants =
    let s : Hex = record { i = 0; mask = 0; out = out; mac_type = 0; wants = wants } in
    if has_room maxlen 0 then hex_loop strtol maxlen [] text s else done s

-- `for (i = len - 1; i >= 0; i--, mask = mask >> 1)`, with the bytes left.
unfoldable pub masked_loop : List ℕ → List ℕ → ℕ → ℕ → Outcome Bool
masked_loop a b zero mask = done true
masked_loop a b (suc i) mask =
    let rest = masked_loop a b i (mask / 2) in
    if mask % 2 == 0
    then (do x ← read a i; y ← read b i; if x == y then rest else done false)
    else rest

-- `memcmp_masked`
unfoldable pub memcmp_masked : List ℕ → List ℕ → ℕ → ℕ → Outcome Bool
memcmp_masked a b len mask = masked_loop a b len mask
