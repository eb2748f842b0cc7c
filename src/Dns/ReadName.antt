-- ===== src/Dns/ReadName.antt =====
-- `read_name` of http1.0/src/zdns.c, which reads a name with compression pointers into a block
-- of 256 bytes and then rewrites it with dots.
pub mod Wire
pub mod Collect
pub mod Dots
pub mod Laws
use mydns.Prelude.{
  ℕ, zero, suc, ◌+◌, ◌-◌, ◌*◌, List, Bool, true, false, ◌==◌, ltb, leb, if◌then◌else◌, Outcome,
  done, fault, no_fuel, ◌>>=◌, read, write, strlen,
}

-- The variables of the first loop: the block `name` with `p` bytes written, `*count` and `jumped`.
pub record Scan : Type 0 where
  pub name : List ℕ
  pub p : ℕ
  pub count : ℕ
  pub jumped : Bool

-- `((*reader) << 8) + *(reader + 1) - 49152`, for a first byte from 192.
abbrev pub offset : ℕ → ℕ → ℕ
offset hi lo = hi * 256 + lo - 49152

-- `if (jumped == 0) *count = *count + 1`
abbrev pub bump : Scan → Scan
bump s = record s { count = if s.jumped then s.count else s.count + 1 }

-- `while (*reader != 0)`. A jump sets `reader` to `buffer + offset - 1`, and the step after it
-- moves it on by one.
pub scan_loop : List ℕ → ℕ → ℕ → Scan → Outcome Scan
scan_loop buffer zero reader s = no_fuel
scan_loop buffer (suc fuel) reader s = do
  b ← read buffer reader
  elim (b == 0) [
    | true ↦ done s
    | false ↦ elim (leb 192 b) [
      | true ↦ (do
        lo ← read buffer (reader + 1)
        scan_loop buffer fuel (offset b lo) (record s { jumped = true }))
      | false ↦ (do
        name ← write s.name s.p b
        scan_loop buffer fuel (reader + 1) (bump (record s { name = name; p = s.p + 1 })))
    ]
  ]

-- `for (j = 0; j < p; j++) { name[i] = name[i + 1]; i = i + 1; }`, with `p - j` rounds left.
pub shift_label : ℕ → List ℕ → ℕ → Outcome (List ℕ × ℕ)
shift_label zero name i = done (name, i)
shift_label (suc n) name i = do
  b ← read name (i + 1)
  name' ← write name i b
  shift_label n name' (i + 1)

-- `for (i = 0; i < (int) strlen(name); i++)`
pub dot_loop : ℕ → List ℕ → ℕ → Outcome (List ℕ × ℕ)
dot_loop zero name i = no_fuel
dot_loop (suc fuel) name i = do
  len ← strlen name
  elim (ltb i len) [
    | true ↦ (do
      p ← read name i
      (shifted, k) ← shift_label p name i
      name' ← write shifted k b'.'
      dot_loop fuel name' (k + 1))
    | false ↦ done (name, i)
  ]

-- `name[i - 1] = '\0'`: at `i = 0` the write is in front of the block.
pub end_name : List ℕ × ℕ → Outcome (List ℕ)
end_name (name, zero) = fault
end_name (name, suc i) = write name i 0

-- The second half of the function. Its loop moves on in each round, so the 256 bytes of the
-- block bound the rounds.
unfoldable pub convert : List ℕ → Outcome (List ℕ)
convert name = do r ← dot_loop 257 name 0; end_name r

-- The name's block and `*count`. `block` is what `malloc(256)` returned, `fuel` bounds the
-- rounds of the first loop.
unfoldable pub read_name : List ℕ → List ℕ → ℕ → ℕ → Outcome (List ℕ × ℕ)
read_name block buffer fuel reader = do
  empty ← write block 0 0
  s ← scan_loop buffer fuel reader (record { name = empty; p = 0; count = 1; jumped = false })
  name ← write s.name s.p 0
  text ← convert name
  done (text, if s.jumped then s.count + 1 else s.count)
