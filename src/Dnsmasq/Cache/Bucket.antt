-- ===== src/Dnsmasq/Cache/Bucket.antt =====
-- The hash of a name and the size of the table in src/cache.c of http1.0/src/dnsmasq/dnsmasq-2.45.
pub mod Laws
use mydns.Prelude.{
  ℕ, zero, suc, ◌+◌, ◌-◌, ◌*◌, ◌/◌, ◌%◌, ◌^◌, List, [], ◌∷◌, ltb, if◌then◌else◌, bit_xor, u32,
  Outcome, done, no_fuel,
}
use mydns.Dnsmasq.Names.{to_lower}

-- One round over the name. `mix_tab` is the table `typestr` read as bytes, which the compiler lays
-- out.
unfoldable pub mix_byte : (ℕ → ℕ) → ℕ → ℕ → ℕ
mix_byte mix_tab val c =
    u32 (u32 (val * 2 ^ 7) + val / 2 ^ 25 + bit_xor (mix_tab ((val + c) % 64)) c)

unfoldable pub hash_name : (ℕ → ℕ) → ℕ → List ℕ → ℕ
hash_name mix_tab val [] = val
hash_name mix_tab val (c ∷ name) = hash_name mix_tab (mix_byte mix_tab val (to_lower c)) name

-- `hash_bucket`: the index of the bucket. `hash_size` is a power of two, so `& (hash_size - 1)` is
-- the remainder.
unfoldable pub hash_bucket : (ℕ → ℕ) → ℕ → List ℕ → ℕ
hash_bucket mix_tab hash_size name =
    let val = hash_name mix_tab 7989 name in bit_xor val (val / 2 ^ 16) % hash_size

-- `for (new_size = 64; new_size < size/10; new_size = new_size << 1)`
unfoldable pub size_loop : ℕ → ℕ → ℕ → Outcome ℕ
size_loop zero size new_size = no_fuel
size_loop (suc fuel) size new_size =
    let rest = size_loop fuel size (new_size * 2) in
    if ltb new_size (size / 10) then rest else done new_size

-- The size that `rehash` gives a table.
unfoldable pub rehash_size : ℕ → ℕ → Outcome ℕ
rehash_size fuel size = size_loop fuel size 64
