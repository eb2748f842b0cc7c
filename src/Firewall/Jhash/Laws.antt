-- ===== src/Firewall/Jhash/Laws.antt =====
-- The mixing of firewall/zmfilter.c loses nothing: it can be undone. And where the table is read.
use mydns.Prelude.{
  ℕ, ◌+◌, ◌-◌, ◌*◌, ◌%◌, ◌^◌, ◌≤◌, ◌<◌, ◌≡◌, refl, ap, sym, ◌∙◌, bit_xor, u32, arith, [], ◌∷◌, done,
}
use mydns.Prelude.Xor.{bit_xor_cancel, bit_xor-lt}
use mydns.Firewall.Jhash.{
  rol32, mix, mix_a, mix_b, mix_c, Words, jhash_final, jhash_1word, key_of, br_mac_hash,
  br_hash_size,
}

abbrev pub IsU32 : ℕ → Type 0
IsU32 x = x < 4294967296

abbrev pub IsWords : Words → Type 0
IsWords w = IsU32 w.a × IsU32 w.b × IsU32 w.c

-- `x += rol32(y, shift); x ^= y`
abbrev pub unmix : ℕ → ℕ → ℕ → ℕ
unmix shift x y = bit_xor (u32 (x + rol32 y shift)) y

pub unmix_a : ℕ → Words → Words
unmix_a shift w = record w { a = unmix shift w.a w.c }

pub unmix_b : ℕ → Words → Words
unmix_b shift w = record w { b = unmix shift w.b w.a }

pub unmix_c : ℕ → Words → Words
unmix_c shift w = record w { c = unmix shift w.c w.b }

-- The steps of the macro, undone from the last to the first.
pub unfinal : Words → Words
unfinal w =
    unmix_c 14 (unmix_a 11 (unmix_b 25 (unmix_c 16 (unmix_a 4 (unmix_b 14 (unmix_c 24 w))))))

mix-IsU32 : (shift x y : ℕ) → IsU32 (mix shift x y)
unfolding mix
mix-IsU32 shift x y = omega arith

-- One step is undone, if the rotation keeps to 32 bits.
unmix-mix :
    (shift x y : ℕ)
    → IsU32 x
    → IsU32 y
    → rol32 y shift ≤ 4294967296
    → unmix shift (mix shift x y) y ≡ x
unfolding mix
unmix-mix shift x y hx hy r =
    let small : bit_xor x y < 4294967296 = bit_xor-lt 32 x y hx hy in
    let back : u32 (u32 (bit_xor x y + 2 ^ 32 - rol32 y shift) + rol32 y shift) ≡ bit_xor x y =
      omega (arith, small, r) in
    rw back (bit_xor_cancel x y)

-- The rotation keeps to 32 bits.
abbrev Rotates : ℕ → Type 0
Rotates shift = (y : ℕ) → IsU32 y → rol32 y shift ≤ 4294967296

-- Each of the shifts that the macro uses.
abbrev rotations : Rotates 4 × Rotates 11 × Rotates 14 × Rotates 16 × Rotates 24 × Rotates 25
rotations = (
  λ y h. unfold rol32 in omega arith,
  λ y h. unfold rol32 in omega arith,
  λ y h. unfold rol32 in omega arith,
  λ y h. unfold rol32 in omega arith,
  λ y h. unfold rol32 in omega arith,
  λ y h. unfold rol32 in omega arith,
)

-- A step that keeps the words below 2 ^ 32, and that `undo` takes back.
record IsUndone (step undo : Words → Words) : Type 0 where
  pub keeps : (w : Words) → IsWords w → IsWords (step w)
  pub back : (w : Words) → IsWords w → undo (step w) ≡ w

mix_a-IsUndone : (shift : ℕ) → Rotates shift → IsUndone (mix_a shift) (unmix_a shift)
unfolding mix_a unmix_a
mix_a-IsUndone shift r = record {
  keeps = λ w h. (mix-IsU32 shift w.a w.c, h.1, h.2);
  back = λ w h. ap (λ (x : ℕ). record w { a = x }) (unmix-mix shift w.a w.c h.0 h.2 (r w.c h.2));
}

mix_b-IsUndone : (shift : ℕ) → Rotates shift → IsUndone (mix_b shift) (unmix_b shift)
unfolding mix_b unmix_b
mix_b-IsUndone shift r = record {
  keeps = λ w h. (h.0, mix-IsU32 shift w.b w.a, h.2);
  back = λ w h. ap (λ (x : ℕ). record w { b = x }) (unmix-mix shift w.b w.a h.1 h.0 (r w.a h.0));
}

mix_c-IsUndone : (shift : ℕ) → Rotates shift → IsUndone (mix_c shift) (unmix_c shift)
unfolding mix_c unmix_c
mix_c-IsUndone shift r = record {
  keeps = λ w h. (h.0, h.1, mix-IsU32 shift w.c w.b);
  back = λ w h. ap (λ (x : ℕ). record w { c = x }) (unmix-mix shift w.c w.b h.2 h.1 (r w.b h.1));
}

-- One step after others.
compose-IsUndone :
    {f g undo_f undo_g : Words → Words}
    → IsUndone f undo_f
    → IsUndone g undo_g
    → IsUndone (λ w. f (g w)) (λ w. undo_g (undo_f w))
compose-IsUndone {undo_g = undo_g} p q = record {
  keeps = λ w h. p.keeps _ (q.keeps w h);
  back = λ w h. ap undo_g (p.back _ (q.keeps w h)) ∙ q.back w h;
}

jhash_final-IsUndone : IsUndone jhash_final unfinal
unfolding jhash_final unfinal
jhash_final-IsUndone = compose-IsUndone (mix_c-IsUndone 24 rotations.4) (
    compose-IsUndone (mix_b-IsUndone 14 rotations.2) (
      compose-IsUndone (mix_a-IsUndone 4 rotations.0) (
        compose-IsUndone (mix_c-IsUndone 16 rotations.3) (
          compose-IsUndone (mix_b-IsUndone 25 rotations.5)
            (compose-IsUndone (mix_a-IsUndone 11 rotations.1) (mix_c-IsUndone 14 rotations.2))))))

-- The three mixed words determine the three words of 32 bits that were mixed: no two inputs meet
-- before the result is cut to one word.
pub jhash_final-injective :
    (v w : Words) → IsWords v → IsWords w → jhash_final v ≡ jhash_final w → v ≡ w
jhash_final-injective v w hv hw e =
    sym (jhash_final-IsUndone.back v hv) ∙ ap unfinal e ∙ jhash_final-IsUndone.back w hw

-- An address of six bytes has a chain of the table, whatever the salt, and the first two bytes of
-- the address do not count.
pub br_mac_hash_lem :
    (jhash_initval fdb_salt m0 m1 m2 m3 m4 m5 : ℕ)
    → (k : ℕ) × (k < br_hash_size)
      × (br_mac_hash jhash_initval fdb_salt (m0 ∷ m1 ∷ m2 ∷ m3 ∷ m4 ∷ m5 ∷ []) ≡ done k)
      × (br_mac_hash jhash_initval fdb_salt (0 ∷ 0 ∷ m2 ∷ m3 ∷ m4 ∷ m5 ∷ []) ≡ done k)
unfolding br_mac_hash key_of
br_mac_hash_lem jhash_initval fdb_salt m0 m1 m2 m3 m4 m5 = (
  jhash_1word jhash_initval (m2 + m3 * 2 ^ 8 + m4 * 2 ^ 16 + m5 * 2 ^ 24) fdb_salt % br_hash_size,
  omega arith,
  refl,
  refl,
)
