-- ===== src/Dnsmasq/Hex/Masked.antt =====
-- What `memcmp_masked` of src/util.c in http1.0/src/dnsmasq/dnsmasq-2.45 compares.
use mydns.Prelude.{
  ℕ, zero, suc, ◌+◌, ◌/◌, ◌%◌, ◌≤◌, ◌<◌, ◌≡◌, ◌↔◌, refl, List, [], ◌∷◌, arith, length, get_elem?,
  some, done, true, false, Bool, Bool-cases, inl, inr, ◌==◌,
}
use mydns.Dnsmasq.Hex.{masked_loop, memcmp_masked}

-- `mask >> k`
abbrev pub shifted : ℕ → ℕ → ℕ
shifted mask zero = mask
shifted mask (suc k) = shifted (mask / 2) k

-- The bytes in front of `n` are the same wherever the mask has no bit, its lowest standing for the
-- last byte.
abbrev pub AgreesUpTo : List ℕ → List ℕ → ℕ → ℕ → Type 0
AgreesUpTo a b n mask =
    (i k : ℕ) → suc (i + k) ≡ n → shifted mask k % 2 ≡ 0 → get_elem? a i ≡ get_elem? b i

read-get_elem? : (a : List ℕ) (i : ℕ) → i < length a → (x : ℕ) × (get_elem? a i ≡ some x)
read-get_elem? [] i h = absurd (omega arith)
read-get_elem? (x ∷ a) zero h = (x, refl)
read-get_elem? (x ∷ a) (suc i) h = read-get_elem? a i (omega arith)

-- A prefix agrees, and so does the byte behind it.
AgreesUpTo-suc :
    (a b : List ℕ) (n mask : ℕ)
    → AgreesUpTo a b n (mask / 2)
    → (mask % 2 ≡ 0 → get_elem? a n ≡ get_elem? b n)
    → AgreesUpTo a b (suc n) mask
AgreesUpTo-suc a b n mask h last i zero e bit =
    let here : i ≡ n = omega (arith, e) in rw here (last bit)
AgreesUpTo-suc a b n mask h last i (suc k) e bit = h i k (omega (arith, e)) bit

AgreesUpTo-pred :
    (a b : List ℕ) (n mask : ℕ) → AgreesUpTo a b (suc n) mask → AgreesUpTo a b n (mask / 2)
AgreesUpTo-pred a b n mask h i k e bit = h i (suc k) (omega (arith, e)) bit

masked_loop_iff :
    (a b : List ℕ) (n mask : ℕ)
    → n ≤ length a
    → n ≤ length b
    → (r : Bool) × (masked_loop a b n mask ≡ done r) × ((r ≡ true) ↔ AgreesUpTo a b n mask)
unfolding masked_loop
masked_loop_iff a b zero mask ha hb =
    (true, refl, (λ e i k f. absurd (omega (arith, f)), λ h. refl))
masked_loop_iff a b (suc n) mask ha hb =
    let (r, runs, agrees) = masked_loop_iff a b n (mask / 2) (omega arith) (omega arith) in
    let (x, at_a) = read-get_elem? a n ha in
    let (y, at_b) = read-get_elem? b n hb in
    elim (Bool-cases (mask % 2 == 0)) [
      | inl clear ↦ elim (Bool-cases (x == y)) [
        | inl same ↦ (
          r,
          rw (clear, at_a, at_b, same) runs,
          (
            λ e. AgreesUpTo-suc a b n mask (agrees.0 e) (λ bit. ground (arith, at_a, at_b, same)),
            λ h. agrees.1 (AgreesUpTo-pred a b n mask h),
          ),
        )
        | inr other ↦ (
          false,
          rw (clear, at_a, at_b, other),
          (λ e. cc, λ h. ground (arith, at_a, at_b, other, clear, h n 0)),
        )
      ]
      | inr set_ ↦ (
        r,
        rw set_ runs,
        (
          λ e. AgreesUpTo-suc a b n mask (agrees.0 e) (λ bit. ground (arith, set_, bit)),
          λ h. agrees.1 (AgreesUpTo-pred a b n mask h),
        ),
      )
    ]

-- Two blocks that hold `len` bytes are compared to the end, and taken for the same exactly when
-- they have the same byte wherever the mask has no bit, its lowest bit standing for the last byte.
pub memcmp_masked_iff :
    (a b : List ℕ) (len mask : ℕ)
    → len ≤ length a
    → len ≤ length b
    → (r : Bool) × (memcmp_masked a b len mask ≡ done r) × ((r ≡ true) ↔ AgreesUpTo a b len mask)
unfolding memcmp_masked
memcmp_masked_iff a b len mask ha hb = masked_loop_iff a b len mask ha hb
