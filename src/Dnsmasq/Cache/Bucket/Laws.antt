-- ===== src/Dnsmasq/Cache/Bucket/Laws.antt =====
-- Buckets of names in src/cache.c of http1.0/src/dnsmasq/dnsmasq-2.45.
use mydns.Prelude.{
  ℕ, zero, suc, ◌+◌, ◌*◌, ◌/◌, ◌%◌, ◌^◌, ◌<◌, ◌≤◌, ◌≡◌, ◌⊎◌, inl, inr, refl, sym, ap, ◌∙◌, List, [],
  ◌∷◌, map, arith, true, ltb, Bool-cases, ltb→lt, bit_xor, done,
}
use native.Mathlib.Nat.{mod-lt}
use mydns.Dnsmasq.Names.{to_lower, hostname_isequal}
use mydns.Dnsmasq.Names.Laws.{hostname_isequal_iff}
use mydns.Dnsmasq.Cache.Bucket.{mix_byte, hash_name, hash_bucket, size_loop, rehash_size}

-- The hash over bytes that are in lower case.
hash_lower : (ℕ → ℕ) → ℕ → List ℕ → ℕ
hash_lower mix_tab val [] = val
hash_lower mix_tab val (c ∷ name) = hash_lower mix_tab (mix_byte mix_tab val c) name

hash_name-map :
    (mix_tab : ℕ → ℕ) (val : ℕ) (name : List ℕ)
    → hash_name mix_tab val name ≡ hash_lower mix_tab val (map to_lower name)
unfolding hash_name hash_lower
hash_name-map mix_tab val [] = refl
hash_name-map mix_tab val (c ∷ name) =
    hash_name-map mix_tab (mix_byte mix_tab val (to_lower c)) name

hash_name-hostname_isequal :
    (mix_tab : ℕ → ℕ) (val : ℕ) (a b : List ℕ)
    → hostname_isequal a b ≡ true
    → hash_name mix_tab val a ≡ hash_name mix_tab val b
hash_name-hostname_isequal mix_tab val a b e =
    hash_name-map mix_tab val a
    ∙ ap (hash_lower mix_tab val) ((hostname_isequal_iff a b).0 e)
    ∙ sym (hash_name-map mix_tab val b)

-- `n` doubled `k` times.
abbrev pub doubled : ℕ → ℕ → ℕ
doubled n zero = n
doubled n (suc k) = doubled (n * 2) k

-- A doubling of `start` that is not below a tenth of `size`, and no larger than it has to be.
abbrev pub IsSize : ℕ → ℕ → ℕ → Type 0
IsSize start size n =
    (start ≤ n)
    × (size / 10 ≤ n)
    × ((n ≡ start) ⊎ (n < 2 * (size / 10)))
    × ((k : ℕ) × (n ≡ doubled start k))

size_loop-IsSize :
    (fuel size n : ℕ)
    → 0 < n
    → 0 < fuel
    → size / 10 < n + fuel
    → (m : ℕ) × (size_loop fuel size n ≡ done m) × IsSize n size m
unfolding size_loop
size_loop-IsSize zero size n pos some_fuel enough = absurd (omega arith)
size_loop-IsSize (suc fuel) size n pos some_fuel enough = elim (Bool-cases (ltb n (size / 10))) [
  | inl small ↦
      let less : n < size / 10 = ltb→lt _ _ small in
      let (m, runs, s) =
        size_loop-IsSize fuel size (n * 2) (omega (arith, pos)) (omega (arith, less, enough))
          (omega (arith, pos, enough)) in
      (
        m,
        rw small runs,
        (
          omega (arith, s.0),
          s.1,
          inr (elim s.2 [ inl same ↦ omega (arith, same, less) | inr tight ↦ tight ]),
          (suc s.3.0, s.3.1),
        ),
      )
  | inr large ↦ (n, rw large, (omega arith, ground (arith, large), inl refl, (0, refl)))
]

-- The table gets a size that is 64 doubled a number of times, at least a tenth of the number of
-- entries, and less than twice that unless it is 64; in it, names that `hostname_isequal` takes for
-- the same have the same bucket, which is inside the table. A tenth of the number of entries, and
-- one, is enough fuel.
pub hash_bucket-rehash_size :
    (mix_tab : ℕ → ℕ) (fuel size : ℕ) (a b : List ℕ)
    → size / 10 < fuel
    → hostname_isequal a b ≡ true
    → (n : ℕ) × (rehash_size fuel size ≡ done n)
      × IsSize 64 size n
      × (hash_bucket mix_tab n a ≡ hash_bucket mix_tab n b)
      × (hash_bucket mix_tab n a < n)
unfolding rehash_size hash_bucket
hash_bucket-rehash_size mix_tab fuel size a b enough same =
    let (n, runs, s) =
      size_loop-IsSize fuel size 64 (omega arith) (omega (arith, enough)) (omega (arith, enough)) in
    (
      n,
      runs,
      s,
      ap (λ v. bit_xor v (v / 2 ^ 16) % n) (hash_name-hostname_isequal mix_tab 7989 a b same),
      mod-lt _ (omega (arith, s.0)),
    )
