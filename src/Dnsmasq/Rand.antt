-- ===== src/Dnsmasq/Rand.antt =====
-- `rand16` and `surf` of src/util.c in http1.0/src/dnsmasq/dnsmasq-2.45: the generator that picks the
-- identifiers of queries. The static arrays are the record Rand.
pub mod Laws
use mydns.Prelude.{
  ℕ, zero, suc, ◌+◌, ◌-◌, ◌*◌, ◌/◌, ◌^◌, List, [], ◌∷◌, ◌++◌, ◌==◌, if◌then◌else◌, Outcome, done,
  ◌>>=◌, read, bit_xor, u16, u32, take, drop,
}

-- `ROTATE(x,b)` on 32 bits.
unfoldable pub rotate : ℕ → ℕ → ℕ
rotate x b = u32 (x * 2 ^ b) + x / 2 ^ (32 - b)

-- The new value of `t[i]`, and of `x`, in `MUSH(i,b)`.
unfoldable pub mush : ℕ → ℕ → ℕ → ℕ → ℕ → ℕ
mush sum x t seed b = u32 (t + bit_xor (u32 (bit_xor x seed + sum)) (rotate x b))

-- One line of `MUSH` for each element of `t`: `t`, and `x` behind the last.
unfoldable pub mush_all : ℕ → ℕ → List ℕ → List ℕ → List ℕ → List ℕ × ℕ
mush_all sum x (t ∷ ts) (seed ∷ seeds) (b ∷ bs) =
    let next = mush sum x t seed b in
    let (rest, last) = mush_all sum next ts seeds bs in (next ∷ rest, last)
mush_all sum x ts _ _ = (ts, x)

abbrev pub rotations : List ℕ
rotations = 5 ∷ 7 ∷ 9 ∷ 13 ∷ 5 ∷ 7 ∷ 9 ∷ 13 ∷ 5 ∷ 7 ∷ 9 ∷ 13 ∷ []

-- `surf` between its rounds.
pub record Surf : Type 0 where
  pub t : List ℕ
  pub x : ℕ
  pub sum : ℕ
  pub out : List ℕ

-- `for (r = 0; r < 16; ++r)`, with the rounds left.
unfoldable pub rounds_loop : List ℕ → ℕ → Surf → Surf
rounds_loop seed zero s = s
rounds_loop seed (suc r) s =
    let sum = u32 (s.sum + 0x9e3779b9) in
    let (t, x) = mush_all sum s.x s.t seed rotations in
    rounds_loop seed r (record s { t = t; x = x; sum = sum })

-- `a[i] ^= b[i]` over the whole of `a`.
unfoldable pub xor_all : List ℕ → List ℕ → List ℕ
xor_all (a ∷ xs) (b ∷ ys) = bit_xor a b ∷ xor_all xs ys
xor_all xs _ = xs

-- `for (loop = 0; loop < 2; ++loop)`, with the rounds left.
unfoldable pub surf_loop : List ℕ → ℕ → Surf → Surf
surf_loop seed zero s = s
surf_loop seed (suc loop) s =
    let mixed = rounds_loop seed 16 s in
    surf_loop seed loop (record mixed { out = xor_all mixed.out (drop 4 mixed.t) })

-- `t[11]`
unfoldable pub last_of : List ℕ → ℕ
last_of [] = 0
last_of (x ∷ []) = x
last_of (x ∷ (y ∷ xs)) = last_of (y ∷ xs)

-- `surf`: what `out` holds.
unfoldable pub surf : List ℕ → List ℕ → List ℕ
surf seed input =
    let t = xor_all input (drop 12 seed) in
    let start : Surf = record { t = t; x = last_of t; sum = 0; out = drop 24 seed } in
    (surf_loop seed 2 start).out

pub record Rand : Type 0 where
  pub seed : List ℕ
  pub input : List ℕ
  pub out : List ℕ
  pub outleft : ℕ

-- `if (!++in[0]) if (!++in[1]) if (!++in[2]) ++in[3]`, with the tests left.
unfoldable pub bump : ℕ → List ℕ → List ℕ
bump n [] = []
bump zero (a ∷ input) = u32 (a + 1) ∷ input
bump (suc n) (a ∷ input) =
    let carried = bump n input in if u32 (a + 1) == 0 then 0 ∷ carried else u32 (a + 1) ∷ input

-- `if (!outleft)`
unfoldable pub refill : Rand → Rand
refill s =
    let input = bump 3 s.input in
    if s.outleft == 0 then record s { input = input; out = surf s.seed input; outleft = 8 } else s

-- `rand16`
unfoldable pub rand16 : Rand → Outcome (ℕ × Rand)
rand16 s = do
  let ready = refill s
  word ← read ready.out (ready.outleft - 1)
  done (u16 word, record ready { outleft = ready.outleft - 1 })
