-- ===== src/Firewall/Jhash.antt =====
-- The hash that selects a chain of the bridge's forwarding table in firewall/zmfilter.c:
-- `__jhash_final_zm`, `jhash_3words_zm`, `jhash_1word_zm` and `br_mac_hash_zm`.
pub mod Laws
use mydns.Prelude.{
  ℕ, ◌+◌, ◌-◌, ◌*◌, ◌/◌, ◌%◌, ◌^◌, bit_xor, u32, List, [], ◌∷◌, Outcome, done, fault, ◌>>=◌, Bool,
  Option, some, none, if◌then◌else◌,
}

-- `rol32(word, shift)`, a rotation of the 32 bits; its two parts have no bit in common.
unfoldable pub rol32 : ℕ → ℕ → ℕ
rol32 word shift = u32 (word * 2 ^ shift) + word / 2 ^ (32 - shift)

-- `x ^= y; x -= rol32(y, shift)`
unfoldable pub mix : ℕ → ℕ → ℕ → ℕ
mix shift x y = u32 (bit_xor x y + 2 ^ 32 - rol32 y shift)

-- The three variables of the macro.
pub record Words : Type 0 where
  pub a : ℕ
  pub b : ℕ
  pub c : ℕ

unfoldable pub mix_a : ℕ → Words → Words
mix_a shift w = record w { a = mix shift w.a w.c }

unfoldable pub mix_b : ℕ → Words → Words
mix_b shift w = record w { b = mix shift w.b w.a }

unfoldable pub mix_c : ℕ → Words → Words
mix_c shift w = record w { c = mix shift w.c w.b }

-- `__jhash_final_zm`
unfoldable pub jhash_final : Words → Words
jhash_final w = mix_c 24 (mix_b 14 (mix_a 4 (mix_c 16 (mix_b 25 (mix_a 11 (mix_c 14 w))))))

-- `jhash_3words_zm`; `jhash_initval` is the kernel's `JHASH_INITVAL`.
unfoldable pub jhash_3words : ℕ → ℕ → ℕ → ℕ → ℕ → ℕ
jhash_3words jhash_initval a b c initval =
    (jhash_final (record {
      a = u32 (a + jhash_initval);
      b = u32 (b + jhash_initval);
      c = u32 (c + initval);
    })).c

-- `jhash_1word_zm`
unfoldable pub jhash_1word : ℕ → ℕ → ℕ → ℕ
jhash_1word jhash_initval a initval = jhash_3words jhash_initval a 0 0 initval

abbrev pub br_hash_size : ℕ
br_hash_size = 256

-- `get_unaligned((u32 *) (mac + 2))` on a little-endian machine.
unfoldable pub key_of : List ℕ → Outcome ℕ
key_of (m0 ∷ (m1 ∷ (m2 ∷ (m3 ∷ (m4 ∷ (m5 ∷ _)))))) =
    done (m2 + m3 * 2 ^ 8 + m4 * 2 ^ 16 + m5 * 2 ^ 24)
key_of _ = fault

-- `br_mac_hash_zm`; `& (BR_HASH_SIZE - 1)` keeps the low eight bits.
unfoldable pub br_mac_hash : ℕ → ℕ → List ℕ → Outcome ℕ
br_mac_hash jhash_initval fdb_salt mac = do
  key ← key_of mac
  done (jhash_1word jhash_initval key fdb_salt % br_hash_size)

-- `br_fdb_init_zm`: whether the cache was made, and the salt drawn. `-ENOMEM` is `none`.
unfoldable pub br_fdb_init : Bool → ℕ → Option ℕ
br_fdb_init cache random = if cache then some (u32 random) else none
