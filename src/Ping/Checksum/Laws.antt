-- ===== src/Ping/Checksum/Laws.antt =====
-- The checksum of zping.c: its loops end, and a packet that carries it sums to zero.
use mydns.Prelude.{
  ℕ, zero, suc, ◌+◌, ◌-◌, ◌*◌, ◌/◌, ◌%◌, ◌^◌, ◌<◌, ◌≤◌, ◌≡◌, ◌⊎◌, inl, inr, refl, ap, ◌∙◌, List, [],
  ◌∷◌, ◌++◌, arith, length, length-append, append_assoc, All, done, read-append, ltb, lt→ltb,
  Bool-cases, All-append, done-injective,
}
use native.Mathlib.Decide.{ℕ_discrete}
use mydns.Ping.Checksum.{sum_words, fold, check_sum}

-- The plain sum of the words.
abbrev pub sum : List ℕ → ℕ
sum [] = 0
sum (w ∷ ws) = w + sum ws

abbrev pub IsWord : ℕ → Type 0
IsWord w = w < 2 ^ 16

sum-append : (xs ys : List ℕ) → sum (xs ++ ys) ≡ sum xs + sum ys
sum-append [] ys = omega arith
sum-append (x ∷ xs) ys = omega (arith, sum-append xs ys)

sum-le : (ws : List ℕ) → All IsWord ws → sum ws ≤ 65535 * length ws
sum-le [] w = omega arith
sum-le (x ∷ xs) w = omega (arith, sum-le xs w.1)

-- The loop adds the words, as long as the sum fits.
sum_words-sum :
    (pre ws rest : List ℕ) (n i result : ℕ)
    → n ≡ length ws
    → i ≡ length pre
    → result + sum ws < 2 ^ 31
    → sum_words (pre ++ (ws ++ rest)) n i result ≡ done (result + sum ws)
unfolding sum_words
sum_words-sum pre [] rest zero i result e f h = ap done (omega arith)
sum_words-sum pre [] rest (suc n) i result e f h = absurd (omega arith)
sum_words-sum pre (w ∷ ws) rest zero i result e f h = absurd (omega arith)
sum_words-sum pre (w ∷ ws) rest (suc n) i result e f h =
    let next =
      sum_words-sum (pre ++ w ∷ []) ws rest n (i + 1) (result + w) (omega arith)
        (omega (arith, length-append pre (w ∷ []))) (omega arith) in
    let total : result + w + sum ws ≡ result + (w + sum ws) = omega arith in
    rw (read-append pre w (ws ++ rest) i f, lt→ltb (result + w) (2 ^ 31) (omega arith))
      (rw (append_assoc pre (w ∷ []) (ws ++ rest), total) at next)

-- What folding the carries in leaves of `n`: a word, the same modulo 65535, and 0 only for 0.
pub record IsFolded (n m : ℕ) : Type 0 where
  pub small : m < 2 ^ 16
  pub same : m % 65535 ≡ n % 65535
  pub zero_only : m ≡ 0 → n ≡ 0
  pub zero_stays : n ≡ 0 → m ≡ 0

-- One round of the second loop.
abbrev carry : ℕ → ℕ
carry n = n % 2 ^ 16 + n / 2 ^ 16

fold_stop : (fuel n : ℕ) → n < 2 ^ 16 → fold (suc fuel) n ≡ done n
unfolding fold
fold_stop fuel n h = ground arith

fold_next : (fuel n : ℕ) → 2 ^ 16 ≤ n → fold (suc fuel) n ≡ fold fuel (carry n)
unfolding fold
fold_next fuel n h = ground arith

-- With `fuel` rounds left the loop ends, from a value that so many rounds bring down.
abbrev Folds : ℕ → ℕ → Type 0
Folds fuel n = (m : ℕ) × (fold fuel n ≡ done m) × IsFolded n m

small-Folds : (fuel n : ℕ) → n < 2 ^ 16 → Folds (suc fuel) n
small-Folds fuel n h = (
  n,
  fold_stop fuel n h,
  record { small = h; same = refl; zero_only = λ e. e; zero_stays = λ e. e },
)

carry-Folds : (fuel n : ℕ) → 2 ^ 16 ≤ n → Folds fuel (carry n) → Folds (suc fuel) n
carry-Folds fuel n h (m, e, f) = (
  m,
  fold_next fuel n h ∙ e,
  record {
    small = f.small;
    same = omega (arith, f.same);
    zero_only = λ z. absurd (omega (arith, f.zero_only z));
    zero_stays = λ z. absurd (omega arith);
  },
)

small_or_large : (n : ℕ) → (n < 2 ^ 16) ⊎ (2 ^ 16 ≤ n)
small_or_large n = elim (Bool-cases (ltb n (2 ^ 16))) [
  | inl s ↦ inl (ground arith)
  | inr l ↦ inr (ground arith)
]

fold-Folds : (n : ℕ) → n < 2 ^ 31 → Folds 3 n
fold-Folds n h = elim (small_or_large n) [
  | inl s ↦ small-Folds 2 n s
  | inr l ↦ carry-Folds 2 n l (elim (small_or_large (carry n)) [
    | inl s ↦ small-Folds 1 (carry n) s
    | inr m ↦ carry-Folds 1 (carry n) m (small-Folds 0 (carry (carry n)) (omega arith))
  ])
]

-- On at most 32768 words, from which `len` bytes are read, the function returns: no sum is too
-- large for an `int`, and the loops end. The result is the complement of the folded sum.
pub check_sum-IsFolded :
    (ws rest : List ℕ) (len : ℕ)
    → len / 2 ≡ length ws
    → length ws ≤ 32768
    → All IsWord ws
    → (m : ℕ) × (check_sum (ws ++ rest) len ≡ done (65535 - m)) × IsFolded (sum ws) m
unfolding check_sum
check_sum-IsFolded ws rest len e few words =
    let (m, folds, f) = fold-Folds (sum ws) (omega (arith, sum-le ws words)) in
    let adds = sum_words-sum [] ws rest (len / 2) 0 0 e refl (omega (arith, sum-le ws words)) in
    let total : 0 + sum ws ≡ sum ws = omega arith in (m, rw (adds, total, folds), f)

-- The arithmetic of the check: `n` is the sum without the checksum `c`.
verifies_full :
    (n m m' c : ℕ)
    → m < 65536
    → m' < 65536
    → c ≡ 65535 - m
    → m % 65535 ≡ n % 65535
    → m' % 65535 ≡ (n + c) % 65535
    → (n ≡ 0 → m ≡ 0)
    → (m' ≡ 0 → n + c ≡ 0)
    → m' ≡ 65535
verifies_full n m m' c h h' e same same' stays only = elim (ℕ_discrete m' 0) [
  | yes z ↦ absurd (omega (arith, only z, stays (omega (arith, only z))))
  | no z ↦ omega arith
]

-- A packet of words with the checksum, computed while its place held 0, put in that place has the
-- checksum 0.
pub check_sum_verifies :
    (pre post rest : List ℕ) (len c : ℕ)
    → len / 2 ≡ length pre + suc (length post)
    → length pre + suc (length post) ≤ 32767
    → All IsWord pre
    → All IsWord post
    → check_sum (pre ++ (0 ∷ post) ++ rest) len ≡ done c
    → (c < 2 ^ 16) × (check_sum (pre ++ (c ∷ post) ++ rest) len ≡ done 0)
check_sum_verifies pre post rest len c e few p q h =
    let (m, runs, f) =
      check_sum-IsFolded (pre ++ 0 ∷ post) rest len (omega (arith, length-append pre (0 ∷ post)))
        (omega (arith, length-append pre (0 ∷ post)))
        (All-append _ pre (0 ∷ post) p (omega arith, q)) in
    let taken : c ≡ 65535 - m = done-injective (cc (h, runs)) in
    let (m', runs', f') =
      check_sum-IsFolded (pre ++ c ∷ post) rest len (omega (arith, length-append pre (c ∷ post)))
        (omega (arith, length-append pre (c ∷ post)))
        (All-append _ pre (c ∷ post) p (omega arith, q)) in
    let full : m' ≡ 65535 =
      verifies_full (sum pre + sum post) m m' c (omega (arith, f.small)) (omega (arith, f'.small))
        taken (f.same ∙ ap (λ (n : ℕ). n % 65535) (omega (arith, sum-append pre (0 ∷ post))))
        (f'.same ∙ ap (λ (n : ℕ). n % 65535) (omega (arith, sum-append pre (c ∷ post))))
        (λ z. f.zero_stays (omega (arith, sum-append pre (0 ∷ post))))
        (λ z. omega (arith, f'.zero_only z, sum-append pre (c ∷ post))) in
    let nothing : 65535 - m' ≡ 0 = omega arith in (omega arith, runs' ∙ ap done nothing)
