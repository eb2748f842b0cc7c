-- ===== src/Dnsmasq/Extract.antt =====
-- `extract_name` in src/rfc1035.c of http1.0/src/dnsmasq/dnsmasq-2.45: a name of a message, with
-- compression pointers and bit strings, read out (`isExtract`) or compared with a text.
pub mod Rounds
pub mod Safe
pub mod Laws
use mydns.Prelude.{
  ℕ, zero, suc, ◌+◌, ◌-◌, ◌*◌, ◌/◌, ◌%◌, List, [], ◌∷◌, ◌++◌, length, ltb, leb, ◌==◌, if◌then◌else◌,
  Bool, true, false, Option, none, some, Outcome, done, fault, no_fuel, ◌>>=◌, read, decimal,
}
use mathlib.Core.Option
use mydns.Dnsmasq.Names.{legal_char, to_lower, max_dname}

-- The variables of the loop: `p` as an index of the packet, `p1` when a pointer was followed and
-- `hops`. When the name is read out, `name` is what stands in front of `cp`; when it is compared, `cp`
-- is the index in the text, `rest` what stands behind it, and `differs` says that `retvalue` is 2.
pub record Cursor : Type 0 where
  pub p : ℕ
  pub p1 : Option ℕ
  pub hops : ℕ
  pub name : List ℕ
  pub cp : ℕ
  pub rest : List ℕ
  pub differs : Bool

-- `*cp++ = c` in the block of MAXDNAME bytes.
unfoldable pub push : List ℕ → ℕ → Outcome (List ℕ)
push name c = if ltb (length name) max_dname then done (name ++ c ∷ []) else fault

unfoldable pub push_all : List ℕ → List ℕ → Outcome (List ℕ)
push_all name [] = done name
push_all name (c ∷ cs) = do next ← push name c; push_all next cs

-- `if (!p1) p1 = p;`
abbrev pub first_jump : Option ℕ → ℕ → Option ℕ
first_jump none p = some p
first_jump (some q) p = some q

-- A pointer: `l` is its first byte, and `p` stands behind it. `none` is the result 0.
unfoldable pub follow : List ℕ → ℕ → ℕ → Cursor → Outcome (Option Cursor)
follow packet plen l c = if leb plen c.p then done none else (do
  low ← read packet c.p
  let target = l % 64 * 256 + low
  done (
      if leb plen target
      then none
      else if ltb 255 (c.hops + 1)
      then none
      else some (record c { p = target; p1 = first_jump c.p1 (c.p + 1); hops = c.hops + 1 })))

-- One digit of a bit string in hexadecimal.
unfoldable pub hex_digit : ℕ → ℕ
hex_digit dig = if ltb dig 10 then dig + b'0' else dig + b'A' - 10

-- `for (j = 0; j < digs; j++)`, with the rounds left: the name and `p` behind it. `p` moves after the
-- second digit of a byte.
unfoldable pub digits_loop : List ℕ → ℕ → ℕ → ℕ → List ℕ → Outcome (List ℕ × ℕ)
digits_loop packet zero j p name = done (name, p)
digits_loop packet (suc n) j p name = do
  b ← read packet p
  next ← push name (hex_digit (if j % 2 == 0 then b / 16 else b % 16))
  digits_loop packet n (j + 1) (if j % 2 == 0 then p else p + 1) next

-- `count` bits: 0 stands for 256.
abbrev pub bit_count : ℕ → ℕ
bit_count count = if count == 0 then 256 else count

-- A bit string, `p` standing on its count.
unfoldable pub bit_string : List ℕ → ℕ → Cursor → Outcome (Option Cursor)
bit_string packet plen c = do
  b ← read packet c.p
  let count = bit_count b
  let digs = (count - 1) / 4 + 1
  if leb max_dname (length c.name + digs + 9)
      then done none
      else if leb plen (c.p + 1 + (count - 1) / 8)
      then done none
      else (do
        opened ← push_all c.name (0x5c ∷ b'[' ∷ b'x' ∷ [])
        (name, p) ← digits_loop packet digs 0 (c.p + 1) opened
        closed ← push_all name (b'/' ∷ (decimal 3 count ++ b']' ∷ []))
        ended ← push closed b'.'
        done (some (record c { p = p; name = ended })))

-- `for (j = 0; j < l; j++, p++)` when the name is read out, with the rounds left; `none` is the
-- result 0.
unfoldable pub extract_label : List ℕ → ℕ → ℕ → List ℕ → Outcome (Option (List ℕ))
extract_label packet zero p name = done (some name)
extract_label packet (suc n) p name = do
  c ← read packet p
  elim (legal_char c) [
    | true ↦ (do next ← push name c; extract_label packet n (p + 1) next)
    | false ↦ done none
  ]

-- What a comparison changes: `cp`, what is left of the text, and whether the names differ.
pub record Compared : Type 0 where
  pub cp : ℕ
  pub rest : List ℕ
  pub differs : Bool

-- One byte of the same loop when the name is compared; at the end of the text `cp` stays.
abbrev pub compare_byte : ℕ → ℕ → List ℕ → Bool → Compared
compare_byte c cp [] differs = record { cp = cp; rest = []; differs = true }
compare_byte c cp (d ∷ rest) differs = record {
  cp = cp + 1;
  rest = rest;
  differs = if to_lower d == to_lower c then differs else true;
}

unfoldable pub compare_label : List ℕ → ℕ → ℕ → Compared → Outcome Compared
compare_label packet zero p s = done s
compare_label packet (suc n) p s = do
  c ← read packet p
  compare_label packet n (p + 1) (compare_byte c s.cp s.rest s.differs)

-- `else if (*cp != 0 && *cp++ != '.') retvalue = 2;`
abbrev pub compare_dot : ℕ → List ℕ → Bool → Compared
compare_dot cp [] differs = record { cp = cp; rest = []; differs = differs }
compare_dot cp (d ∷ rest) differs = record {
  cp = cp + 1;
  rest = rest;
  differs = if d == b'.' then differs else true;
}

-- A label of `l` bytes that is read out, and one that is compared; `p` stands behind `l`.
unfoldable pub label_out : List ℕ → ℕ → ℕ → Cursor → Outcome (Option Cursor)
label_out packet plen l c =
    if leb max_dname (length c.name + l + 1)
    then done none
    else if leb plen c.p
    then done none
    else (do
      o ← extract_label packet l c.p c.name
      elim o [
        | none ↦ done none
        | some name ↦ (do
          ended ← push name b'.'
          done (some (record c { p = c.p + l; name = ended })))
      ])

unfoldable pub label_compared : List ℕ → ℕ → ℕ → Cursor → Outcome (Option Cursor)
label_compared packet plen l c =
    if leb max_dname (c.cp + l + 1) then done none else if leb plen c.p then done none else (do
      s ← compare_label packet l c.p (record { cp = c.cp; rest = c.rest; differs = c.differs })
      let t = compare_dot s.cp s.rest s.differs
      done (some (record c { p = c.p + l; cp = t.cp; rest = t.rest; differs = t.differs })))

-- One round of the loop behind `l = *p++`, by the two high bits of `l`.
unfoldable pub round_of : Bool → List ℕ → ℕ → ℕ → Cursor → Outcome (Option Cursor)
round_of is_extract packet plen l c =
    if leb 192 l
    then follow packet plen l c
    else if leb 128 l
    then done none
    else if leb 64 l
    then (if l == 65
        then (if is_extract then bit_string packet plen c else done none)
        else done none)
    else if is_extract
    then label_out packet plen l c
    else label_compared packet plen l c

-- The test at the end of a round, and the next one.
abbrev pub next_round :
    (Cursor → Outcome (Option Cursor)) → ℕ → Option Cursor → Outcome (Option Cursor)
next_round loop plen none = done none
next_round loop plen (some c) = if leb plen c.p then done none else loop c

-- `while ((l = *p++))`
unfoldable pub extract_loop : Bool → List ℕ → ℕ → ℕ → Cursor → Outcome (Option Cursor)
extract_loop is_extract packet plen zero c = no_fuel
extract_loop is_extract packet plen (suc fuel) c = do
  l ← read packet c.p
  elim (l == 0) [
    | true ↦ done (some (record c { p = c.p + 1 }))
    | false ↦ (do
      o ← round_of is_extract packet plen l (record c { p = c.p + 1 })
      next_round (extract_loop is_extract packet plen fuel) plen o)
  ]

-- `retvalue`, `*pp` and the text in `name`.
pub record Extracted : Type 0 where
  pub retvalue : ℕ
  pub p : ℕ
  pub name : List ℕ

-- `if (cp != name) cp--; *cp = 0;`
unfoldable pub without_last : List ℕ → List ℕ
without_last [] = []
without_last (c ∷ []) = []
without_last (c ∷ (d ∷ s)) = c ∷ without_last (d ∷ s)

abbrev is_empty : List ℕ → Bool
is_empty [] = true
is_empty (c ∷ cs) = false

abbrev pub jump_end : Option ℕ → ℕ → ℕ
jump_end none p = p
jump_end (some p1) p = p1

unfoldable pub extract_end : Bool → List ℕ → Cursor → Extracted
extract_end true name c = record { retvalue = 1; p = jump_end c.p1 c.p; name = without_last c.name }
extract_end false name c = record {
  retvalue = if c.differs then 2 else if is_empty c.rest then 1 else 2;
  p = jump_end c.p1 c.p;
  name = name;
}

abbrev pub start_at : ℕ → List ℕ → Cursor
start_at p name = record {
  p = p;
  p1 = none;
  hops = 0;
  name = [];
  cp = 0;
  rest = name;
  differs = false;
}

-- `extract_name`; `none` is the result 0. `name` is the text in the block, that is overwritten when
-- the name is read out.
unfoldable pub extract_name : Bool → List ℕ → ℕ → ℕ → ℕ → List ℕ → Outcome (Option Extracted)
extract_name is_extract packet plen fuel p name = do
  o ← extract_loop is_extract packet plen fuel (start_at p name)
  done (Option.map (extract_end is_extract name) o)
