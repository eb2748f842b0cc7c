-- ===== src/Dnsmasq/Rand/Laws.antt =====
-- The stream of numbers that `rand16` of src/util.c in http1.0/src/dnsmasq/dnsmasq-2.45 gives: blocks
-- of eight words, each under the next value of a counter of 128 bits.
use mydns.Prelude.{
  ℕ, zero, suc, ◌+◌, ◌-◌, ◌*◌, ◌%◌, ◌^◌, ◌≤◌, ◌<◌, ◌≡◌, refl, ap, ◌∙◌, List, [], ◌∷◌, arith, length,
  length-drop, drop, done, read, u16, u32, All, Bool-cases, inl, inr, ◌==◌,
}
use mydns.Dnsmasq.Rand.{Surf, Rand, rounds_loop, xor_all, surf_loop, surf, bump, refill, rand16}

length-xor_all : (xs ys : List ℕ) → length (xor_all xs ys) ≡ length xs
unfolding xor_all
length-xor_all [] ys = refl
length-xor_all (x ∷ xs) [] = refl
length-xor_all (x ∷ xs) (y ∷ ys) = omega (arith, length-xor_all xs ys)

rounds_loop-out : (seed : List ℕ) (r : ℕ) (s : Surf) → (rounds_loop seed r s).out ≡ s.out
unfolding rounds_loop
rounds_loop-out seed zero s = refl
rounds_loop-out seed (suc r) s = rounds_loop-out seed r _

length-surf_loop :
    (seed : List ℕ) (n : ℕ) (s : Surf) → length (surf_loop seed n s).out ≡ length s.out
unfolding surf_loop
length-surf_loop seed zero s = refl
length-surf_loop seed (suc n) s =
    length-surf_loop seed n _
    ∙ length-xor_all (rounds_loop seed 16 s).out _
    ∙ ap length (rounds_loop-out seed 16 s)

length-surf : (seed input : List ℕ) → length (surf seed input) ≡ length (drop 24 seed)
unfolding surf
length-surf seed input = length-surf_loop seed 2 _

-- The words in front as one number, the first being the lowest.
abbrev pub counter : List ℕ → ℕ
counter (a ∷ (b ∷ (c ∷ (d ∷ input)))) = a + 2 ^ 32 * b + 2 ^ 64 * c + 2 ^ 96 * d
counter _ = 0

-- Four words or more of 32 bits.
abbrev pub IsInput : List ℕ → Type 0
IsInput input = (4 ≤ length input) × All (λ a. a < 2 ^ 32) input

bump-counter :
    (input : List ℕ)
    → IsInput input
    → IsInput (bump 3 input) × (counter (bump 3 input) ≡ (counter input + 1) % 2 ^ 128)
unfolding bump
bump-counter [] h = absurd (omega (arith, h.0))
bump-counter (a ∷ []) h = absurd (omega (arith, h.0))
bump-counter (a ∷ (b ∷ [])) h = absurd (omega (arith, h.0))
bump-counter (a ∷ (b ∷ (c ∷ []))) h = absurd (omega (arith, h.0))
bump-counter (a ∷ (b ∷ (c ∷ (d ∷ input)))) (len, (ha, (hb, (hc, (hd, hs))))) =
    elim (Bool-cases (u32 (a + 1) == 0)) [
      | inl carry ↦ rw carry (elim (Bool-cases (u32 (b + 1) == 0)) [
        | inl carry' ↦ rw carry' (elim (Bool-cases (u32 (c + 1) == 0)) [
          | inl carry'' ↦ rw carry'' (
            (len, (omega arith, (omega arith, (omega arith, (omega arith, hs))))),
            ground (arith, carry, carry', carry''),
          )
          | inr other ↦ rw other (
            (len, (omega arith, (omega arith, (omega arith, (hd, hs))))),
            ground (arith, carry, carry', other),
          )
        ])
        | inr other ↦
            rw other
              ((len, (omega arith, (omega arith, (hc, (hd, hs))))), ground (arith, carry, other))
      ])
      | inr other ↦ rw other ((len, (omega arith, (hb, (hc, (hd, hs))))), ground (arith, other))
    ]

-- What `rand_init` and every call leave: the words of the block are those of the counter.
abbrev pub IsReady : Rand → Type 0
IsReady s =
    (length s.seed ≡ 32)
    × IsInput s.input
    × (s.outleft ≤ 8)
    × (0 < s.outleft → s.out ≡ surf s.seed s.input)

-- How many numbers were drawn from the start of the counter on, without the first block, as far as
-- the counter reaches.
abbrev pub position : Rand → ℕ
position s = (8 * counter s.input + (8 - s.outleft)) % 2 ^ 131

-- A call from `s` that gives `n` and leaves `next`: the next position, in the block of the same seed,
-- and the lower half of the word there.
abbrev pub IsDrawn : Rand → ℕ → Rand → Type 0
IsDrawn s n next =
    IsReady next
    × (next.seed ≡ s.seed)
    × (position next ≡ (position s + 1) % 2 ^ 131)
    × ((w : ℕ) × (read (surf next.seed next.input) next.outleft ≡ done w) × (n ≡ u16 w))

read-inside : (block : List ℕ) (i : ℕ) → i < length block → (w : ℕ) × (read block i ≡ done w)
read-inside [] i h = absurd (omega arith)
read-inside (x ∷ xs) zero h = (x, refl)
read-inside (x ∷ xs) (suc i) h = read-inside xs i (omega arith)

length-block : (seed input : List ℕ) → length seed ≡ 32 → length (surf seed input) ≡ 8
length-block seed input h = omega (arith, length-surf seed input, length-drop 24 seed, h)

-- The block that is drawn from.
refill-IsReady :
    (s : Rand)
    → IsReady s
    → IsReady (refill s)
      × ((refill s).seed ≡ s.seed)
      × (0 < (refill s).outleft)
      × (position (refill s) ≡ position s)
unfolding refill
refill-IsReady s (seeded, input, left, same) = elim (Bool-cases (s.outleft == 0)) [
  | inl empty ↦
      let (bumped, up) = bump-counter s.input input in
      let none_left : s.outleft ≡ 0 = ground (arith, empty) in
      rw empty
        ((seeded, bumped, omega arith, λ h. refl), refl, omega arith, omega (arith, up, none_left))
  | inr more ↦ rw more ((seeded, input, left, same), refl, ground (arith, more), refl)
]

-- From a seed of 32 words and a counter of 32-bit words, every call of `rand16` returns the lower half
-- of a word of the block that `surf` makes of the seed and the counter, and moves by one in the
-- stream of these blocks, which comes round after 2 ^ 131 calls.
pub rand16-IsDrawn :
    (s : Rand)
    → IsReady s
    → (n : ℕ) × (next : Rand) × (rand16 s ≡ done (n, next)) × IsDrawn s n next
unfolding rand16
rand16-IsDrawn s ready =
    let (r, kept, some_left, here) = refill-IsReady s ready in
    let (seeded, input, left, same) = r in
    let t = refill s in
    let (w, at) =
      read-inside (surf t.seed t.input) (t.outleft - 1)
        (omega (arith, length-block t.seed t.input seeded, left, some_left)) in
    let found : read t.out (t.outleft - 1) ≡ done w = rw (same some_left) at in
    (
      u16 w,
      record t { outleft = t.outleft - 1 },
      rw found,
      (
        (seeded, input, omega (arith, left), λ h. same some_left),
        kept,
        omega (arith, here, left, some_left),
        (w, at, refl),
      ),
    )
