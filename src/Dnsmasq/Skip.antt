-- ===== src/Dnsmasq/Skip.antt =====
-- The walk over the sections of a message in src/rfc1035.c of http1.0/src/dnsmasq/dnsmasq-2.45:
-- `skip_name`, `skip_questions`, `skip_section`, `questions_crc` and `resize_packet`. Pointers are indices of the packet, and `none` is a null pointer.
pub mod Laws
pub mod Crc
pub mod Resize
use mydns.Prelude.{
  ℕ, zero, suc, ◌+◌, ◌-◌, ◌*◌, ◌/◌, ◌%◌, ◌^◌, List, [], ◌∷◌, ltb, leb, ◌==◌, ◌&&◌, ◌||◌,
  if◌then◌else◌, Bool, true, false, Option, none, some, Outcome, done, no_fuel, ◌>>=◌, read, store,
  ntohs_at, bit_xor, u32, take, drop,
}
use mydns.Dnsmasq.Names.{to_lower}
use mydns.Dnsmasq.Extract.{Extracted, extract_name}

-- The bytes of a bit string behind its count.
abbrev pub bit_bytes : ℕ → ℕ
bit_bytes count = if count == 0 then 32 else (count - 1) / 8 + 1

-- How one round of `skip_name` ends: with a result, or at the next label.
pub data SkipStep : Type 0 where
  stop : Option ℕ → SkipStep
  goes_on : ℕ → SkipStep

-- `while (1)` of `skip_name`, one round. The byte is read before its place is tested.
unfoldable pub skip_label : List ℕ → ℕ → ℕ → Outcome SkipStep
skip_label packet plen ansp = do
  b ← read packet ansp
  if leb plen ansp
      then done (stop none)
      else if leb 192 b
      then done (stop (some (ansp + 2)))
      else if leb 128 b
      then done (stop none)
      else if leb 64 b
      then (if b == 65
          then (do count ← read packet (ansp + 1); done (goes_on (ansp + 2 + bit_bytes count)))
          else done (stop none))
      else if b == 0
      then done (stop (some (ansp + 1)))
      else done (goes_on (ansp + 1 + b))

abbrev pub skip_next : (ℕ → Outcome (Option ℕ)) → SkipStep → Outcome (Option ℕ)
skip_next loop (stop o) = done o
skip_next loop (goes_on ansp) = loop ansp

unfoldable pub skip_name : List ℕ → ℕ → ℕ → ℕ → Outcome (Option ℕ)
skip_name packet plen zero ansp = no_fuel
skip_name packet plen (suc fuel) ansp = do
  step ← skip_label packet plen ansp
  skip_next (skip_name packet plen fuel) step

-- What follows a name that was skipped.
abbrev pub behind_name : (ℕ → Outcome (Option ℕ)) → Option ℕ → Outcome (Option ℕ)
behind_name f none = done none
behind_name f (some ansp) = f ansp

-- `for (q = ntohs(header->qdcount); q != 0; q--)`, with the rounds left.
unfoldable pub questions_loop : List ℕ → ℕ → ℕ → ℕ → ℕ → Outcome (Option ℕ)
questions_loop packet plen fuel zero ansp = done (some ansp)
questions_loop packet plen fuel (suc q) ansp = do
  o ← skip_name packet plen fuel ansp
  behind_name (λ p. questions_loop packet plen fuel q (p + 4)) o

abbrev pub within : ℕ → Option ℕ → Option ℕ
within plen none = none
within plen (some ansp) = if ltb plen ansp then none else some ansp

-- `skip_questions`; the header has 12 bytes, with `qdcount` at the fifth.
unfoldable pub skip_questions : List ℕ → ℕ → ℕ → Outcome (Option ℕ)
skip_questions packet plen fuel = do
  qdcount ← ntohs_at packet 4
  o ← questions_loop packet plen fuel qdcount 12
  done (within plen o)

-- `skip_section`, with the records left: type, class and TTL have eight bytes.
unfoldable pub skip_section : List ℕ → ℕ → ℕ → ℕ → ℕ → Outcome (Option ℕ)
skip_section packet plen fuel ansp zero = done (some ansp)
skip_section packet plen fuel ansp (suc count) = do
  o ← skip_name packet plen fuel ansp
  behind_name
      (λ p. (do
        rdlen ← ntohs_at packet (p + 8)
        if ltb plen (p + 10 + rdlen)
            then done none
            else skip_section packet plen fuel (p + 10 + rdlen) count))
      o

-- `crc = crc & 0x80000000 ? (crc << 1) ^ 0x04c11db7 : crc << 1`, `n` times.
unfoldable pub crc_bits : ℕ → ℕ → ℕ
crc_bits zero crc = crc
crc_bits (suc n) crc =
    crc_bits n (if leb (2 ^ 31) crc then bit_xor (u32 (crc * 2)) 0x04c11db7 else u32 (crc * 2))

-- One byte mixed in from the top.
unfoldable pub crc_byte : ℕ → ℕ → ℕ
crc_byte crc c = crc_bits 8 (bit_xor crc (u32 (c * 2 ^ 24)))

-- The name, in lower case, and the bytes of class and type.
unfoldable pub crc_name : ℕ → List ℕ → ℕ
crc_name crc [] = crc
crc_name crc (c ∷ cs) = crc_name (crc_byte crc (to_lower c)) cs

unfoldable pub crc_raw : List ℕ → ℕ → ℕ → ℕ → Outcome ℕ
crc_raw packet p zero crc = done crc
crc_raw packet p (suc n) crc = do b ← read packet p; crc_raw packet (p + 1) n (crc_byte crc b)

-- The loop of `questions_crc`, with the questions left.
abbrev crc_next : (ℕ → ℕ → Outcome ℕ) → List ℕ → ℕ → ℕ → Option Extracted → Outcome ℕ
crc_next loop packet plen crc none = done crc
crc_next loop packet plen crc (some e) = do
  next ← crc_raw packet e.p 4 (crc_name crc e.name)
  if ltb plen (e.p + 4) then done next else loop (e.p + 4) next

unfoldable pub crc_loop : List ℕ → ℕ → ℕ → ℕ → ℕ → ℕ → Outcome ℕ
crc_loop packet plen fuel zero p crc = done crc
crc_loop packet plen fuel (suc q) p crc = do
  o ← extract_name true packet plen fuel p []
  crc_next (crc_loop packet plen fuel q) packet plen crc o

-- `questions_crc`
unfoldable pub questions_crc : List ℕ → ℕ → ℕ → Outcome ℕ
questions_crc packet plen fuel = do
  qdcount ← ntohs_at packet 4
  crc_loop packet plen fuel qdcount 12 (2 ^ 32 - 1)

-- The bytes that `memmove` reads, `n` of them from index `i` on.
unfoldable pub read_bytes : List ℕ → ℕ → ℕ → Outcome (List ℕ)
read_bytes packet i zero = done []
read_bytes packet i (suc n) = do
  b ← read packet i
  rest ← read_bytes packet (i + 1) n
  done (b ∷ rest)

-- The end of `resize_packet`: the packet and its size. `memmove` reads all of the pseudoheader before
-- it writes.
abbrev pub restore : List ℕ → Option ℕ → ℕ → ℕ → ℕ → Outcome (List ℕ × ℕ)
restore packet none hlen arcount ansp = done (packet, ansp)
restore packet (some pheader) hlen arcount ansp =
    if arcount == 0
    then (do
      header ← read_bytes packet pheader hlen
      moved ← store packet ansp header
      counted ← store moved 10 (0 ∷ 1 ∷ [])
      done (counted, ansp + hlen))
    else done (packet, ansp)

abbrev pub or_zero : List ℕ → (ℕ → Outcome (List ℕ × ℕ)) → Option ℕ → Outcome (List ℕ × ℕ)
or_zero packet f none = done (packet, 0)
or_zero packet f (some ansp) = f ansp

-- `resize_packet`
unfoldable pub resize_packet : List ℕ → ℕ → ℕ → Option ℕ → ℕ → Outcome (List ℕ × ℕ)
resize_packet packet plen fuel pheader hlen = do
  questions ← skip_questions packet plen fuel
  or_zero packet
      (λ start. (do
        ancount ← ntohs_at packet 6
        nscount ← ntohs_at packet 8
        arcount ← ntohs_at packet 10
        records ← skip_section packet plen fuel start (ancount + nscount + arcount)
        or_zero packet (restore packet pheader hlen arcount) records))
      questions
