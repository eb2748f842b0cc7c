-- ===== src/Prelude/Word.antt =====
-- Machine integers as native numbers, and the network byte order.
use Prim.Native.Nat.{ℕ, ◌+◌, ◌*◌, ◌/◌, ◌%◌, ◌^◌}
use mathlib.Core.List.{List, [], ◌∷◌}
use mydns.Prelude.Effects.{Outcome, done, ◌>>=◌}
use mydns.Prelude.Memory.{read}

abbrev pub u8 : ℕ → ℕ
u8 n = n % 2 ^ 8

abbrev pub u16 : ℕ → ℕ
u16 n = n % 2 ^ 16

abbrev pub u32 : ℕ → ℕ
u32 n = n % 2 ^ 32

abbrev pub u64 : ℕ → ℕ
u64 n = n % 2 ^ 64

-- The bytes of `htons(n)` in memory.
abbrev pub htons : ℕ → List ℕ
htons n = u8 (n / 256) ∷ u8 n ∷ []

-- `ntohs` of the 16-bit field at `block + i`.
unfoldable pub ntohs_at : List ℕ → ℕ → Outcome ℕ
ntohs_at block i = do hi ← read block i; lo ← read block (i + 1); done (hi * 256 + lo)
