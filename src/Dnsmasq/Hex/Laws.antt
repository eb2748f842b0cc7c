-- ===== src/Dnsmasq/Hex/Laws.antt =====
-- `parse_hex` of src/util.c in http1.0/src/dnsmasq/dnsmasq-2.45 reads what `print_mac` prints.
use mydns.Prelude.{
  ℕ, ◌+◌, ◌/◌, ◌%◌, ◌≤◌, ◌<◌, ◌≡◌, refl, ap, ◌∙◌, List, [], ◌∷◌, ◌++◌, arith, length, length-append,
  append_assoc, overlay, write-overlay, none, done, false, Bool, ◌==◌, ◌||◌, ◌&&◌, All, u8,
}
use mydns.Dnsmasq.Hex.{hex_digit, hex2, print_loop, print_mac, Hex, hex_chunk, hex_loop, parse_hex}

-- `strtol` reads two digits of `%.2x` as the byte that was printed.
abbrev pub ReadsHex : (List ℕ → ℕ) → Type 0
ReadsHex strtol = (b : ℕ) → b < 256 → strtol (hex2 b) ≡ b

hex_digit-other : (d : ℕ) → d < 16 → (hex_digit d == b':' || hex_digit d == b'-') ≡ false
unfolding hex_digit
hex_digit-other d h = ground arith

hex_loop-digit :
    (strtol : List ℕ → ℕ) (chunk text : List ℕ) (d : ℕ) (s : Hex)
    → d < 16
    → hex_loop strtol none chunk (hex_digit d ∷ text) s
      ≡ hex_loop strtol none (chunk ++ hex_digit d ∷ []) text s
unfolding hex_loop
hex_loop-digit strtol chunk text d s h = let other = hex_digit-other d h in rw other

-- The state behind the bytes `xs`.
abbrev behind : List ℕ → List ℕ → Hex
behind out xs = record {
  i = length xs;
  mask = 0;
  out = overlay xs out;
  mac_type = 0;
  wants = false;
}

and_false : (a b : Bool) → ((a && b) && false) ≡ false
and_false a b = ground arith

hex_chunk-byte :
    (strtol : List ℕ → ℕ) (out xs : List ℕ) (b sep : ℕ)
    → ReadsHex strtol
    → b < 256
    → length xs < length out
    → hex_chunk strtol (hex2 b) sep (behind out xs) ≡ done (behind out (xs ++ b ∷ []))
unfolding hex_chunk
hex_chunk-byte strtol out xs b sep reads small room =
    let value : u8 (strtol (hex2 b)) ≡ b = omega (arith, reads b small) in
    let count : length xs + 1 ≡ length (xs ++ b ∷ []) = omega (arith, length-append xs (b ∷ [])) in
    rw (
      and_false (sep == b'-') (length xs == 0),
      value,
      write-overlay xs b out (length xs) refl room,
      count,
    )

hex_loop-byte :
    (strtol : List ℕ → ℕ) (text : List ℕ) (b : ℕ) (s : Hex)
    → b < 256
    → hex_loop strtol none [] (hex2 b ++ text) s ≡ hex_loop strtol none (hex2 b) text s
hex_loop-byte strtol text b s h =
    hex_loop-digit strtol [] (hex_digit (b % 16) ∷ text) (b / 16) s (omega arith)
    ∙ hex_loop-digit strtol (hex_digit (b / 16) ∷ []) text (b % 16) s (omega arith)

hex_loop-colon :
    (strtol : List ℕ → ℕ) (out xs text : List ℕ) (b : ℕ)
    → ReadsHex strtol
    → b < 256
    → length xs < length out
    → hex_loop strtol none (hex2 b) (b':' ∷ text) (behind out xs)
      ≡ hex_loop strtol none [] text (behind out (xs ++ b ∷ []))
unfolding hex_loop
hex_loop-colon strtol out xs text b reads small room =
    rw (hex_chunk-byte strtol out xs b b':' reads small room)

hex_loop-print_loop :
    (strtol : List ℕ → ℕ) (out xs : List ℕ) (m : ℕ) (mac : List ℕ)
    → ReadsHex strtol
    → All (λ b. b < 256) (m ∷ mac)
    → length xs + length (m ∷ mac) ≤ length out
    → hex_loop strtol none [] (print_loop (m ∷ mac)) (behind out xs)
      ≡ done (behind out (xs ++ m ∷ mac))
unfolding hex_loop print_loop
hex_loop-print_loop strtol out xs m [] reads bytes room =
    hex_loop-byte strtol [] m (behind out xs) bytes.0
    ∙ hex_chunk-byte strtol out xs m 0 reads bytes.0 (omega arith)
hex_loop-print_loop strtol out xs m (n ∷ mac) reads bytes room =
    hex_loop-byte strtol (b':' ∷ print_loop (n ∷ mac)) m (behind out xs) bytes.0
    ∙ hex_loop-colon strtol out xs (print_loop (n ∷ mac)) m reads bytes.0 (omega arith)
    ∙ hex_loop-print_loop strtol out (xs ++ m ∷ []) n mac reads bytes.1
        (omega (arith, length-append xs (m ∷ []), room))
    ∙ ap (λ all. done (behind out all)) (append_assoc xs (m ∷ []) (n ∷ mac))

-- The bytes of a hardware address that is not empty, printed by `print_mac`, are what `parse_hex`
-- reads back into a block that has room for them, with no wildcard and no type: the result is the
-- number of bytes, and the block behind them is as it was. `strtol` reads two digits of `%.2x` as
-- the byte that was printed.
pub parse_hex-print_mac :
    (strtol : List ℕ → ℕ) (m : ℕ) (mac out : List ℕ)
    → ReadsHex strtol
    → All (λ b. b < 256) (m ∷ mac)
    → length (m ∷ mac) ≤ length out
    → parse_hex strtol (print_mac (m ∷ mac)) out none false
      ≡ done (record {
        i = length (m ∷ mac);
        mask = 0;
        out = overlay (m ∷ mac) out;
        mac_type = 0;
        wants = false;
      })
unfolding parse_hex print_mac
parse_hex-print_mac strtol m mac out reads bytes room =
    hex_loop-print_loop strtol out [] m mac reads bytes (omega (arith, room))
