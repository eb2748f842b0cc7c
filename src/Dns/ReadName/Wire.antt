-- ===== src/Dns/ReadName/Wire.antt =====
-- Names in a message as RFC 1035, section 4.1.4, lays them out, independent of the code of
-- http1.0/src/zdns.c: labels behind their lengths, a zero byte, and compression pointers.
use mydns.Prelude.{ℕ, suc, ◌+◌, ◌-◌, ◌*◌, ◌≤◌, ◌≡◌, List, [], ◌∷◌, some, get_elem?, length}
use mydns.Dns.Labels.{IsPlainLabel}

-- The bytes `xs` stand in `buffer` from index `r`.
abbrev pub Holds : List ℕ → ℕ → List ℕ → Type 0
Holds buffer r [] = Unit
Holds buffer r (x ∷ xs) = (get_elem? buffer r ≡ some x) × Holds buffer (r + 1) xs

-- A name with the labels `ls` starts at index `r` and takes `k` bytes there.
pub data WireName (buffer : List ℕ) : ℕ → List (List ℕ) → ℕ → Type 0 where
  root : {r k : ℕ} → get_elem? buffer r ≡ some 0 → k ≡ 1 → WireName buffer r [] k
  label :
      {r j k : ℕ} {l : List ℕ} {ls : List (List ℕ)}
      → IsPlainLabel l
      → Holds buffer r (length l ∷ l)
      → WireName buffer (r + suc (length l)) ls j
      → k ≡ j + suc (length l)
      → WireName buffer r (l ∷ ls) k
  pointer :
      {r j k : ℕ} {ls : List (List ℕ)} (hi lo : ℕ)
      → 192 ≤ hi
      → get_elem? buffer r ≡ some hi
      → get_elem? buffer (r + 1) ≡ some lo
      → WireName buffer ((hi - 192) * 256 + lo) ls j
      → k ≡ 2
      → WireName buffer r ls k

-- How many rounds the first loop of the code takes to read the name.
abbrev pub rounds : {buffer : List ℕ} {r k : ℕ} {ls : List (List ℕ)} → WireName buffer r ls k → ℕ
rounds (root at e) = 1
rounds (label {l} plain at rest e) = suc (length l) + rounds rest
rounds (pointer hi lo above first second rest e) = suc (rounds rest)
