-- ===== src/Ping/Checksum.antt =====
-- `_check_sum` of zping.c, the Internet checksum.
pub mod Laws
use mydns.Prelude.{
  ℕ, zero, suc, ◌+◌, ◌-◌, ◌/◌, ◌%◌, ◌^◌, List, ◌==◌, true, false, ltb, if◌then◌else◌, Outcome, done,
  fault, no_fuel, ◌>>=◌, read,
}

-- `for (i = 0; i < len / 2; i++) { result += *data; data++; }`, with the rounds left. A sum that
-- does not fit an `int` is undefined.
unfoldable pub sum_words : List ℕ → ℕ → ℕ → ℕ → Outcome ℕ
sum_words words zero i result = done result
sum_words words (suc n) i result = do
  w ← read words i
  if ltb (result + w) (2 ^ 31) then sum_words words n (i + 1) (result + w) else fault

-- `while (result >> 16) result = (result & 0xffff) + (result >> 16)`
unfoldable pub fold : ℕ → ℕ → Outcome ℕ
fold zero result = no_fuel
fold (suc fuel) result = elim (result / 2 ^ 16 == 0) [
  | true ↦ done result
  | false ↦ fold fuel (result % 2 ^ 16 + result / 2 ^ 16)
]

-- `words` are the 16-bit words from `data` on. Three rounds are enough for an `int`. The result is
-- `~result` cut to 16 bits, of a value below 2 ^ 16.
unfoldable pub check_sum : List ℕ → ℕ → Outcome ℕ
check_sum words len = do
  sum ← sum_words words (len / 2) 0 0
  folded ← fold 3 sum
  done (2 ^ 16 - 1 - folded)
