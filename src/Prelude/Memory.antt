-- ===== src/Prelude/Memory.antt =====
-- Reads and writes of a block of bytes, and C strings in it.
use Prim.Native.Nat.{ℕ, suc, ◌+◌, ◌<◌, ◌≤◌}
use mathlib.Core.Path.{◌≡◌, refl, sym, ap, ◌∙◌}
use mathlib.Core.Logic.{◌≢◌}
use mathlib.Core.List.{List, [], ◌∷◌, ◌++◌, append_assoc, append-nil}
use native.Mathlib.Omega.{arith}
use mydns.Prelude.Tests.{ltb, ◌==◌, if◌then◌else◌, lt→ltb, ge→ltb_false}
use mydns.Prelude.Lists.{
  length, get_elem?, set, All, length-append, get_elem?-append, set-append, drop, drop-cons,
}
use mydns.Prelude.Effects.{Outcome, done, fault, ◌>>=◌, from_option}

-- `block[i]`
abbrev pub read : List ℕ → ℕ → Outcome ℕ
read block i = from_option (get_elem? block i)

-- `block[i] = v`
unfoldable pub write : List ℕ → ℕ → ℕ → Outcome (List ℕ)
write block i v = if ltb i (length block) then done (set block i v) else fault

-- `strlen(block)`; without a terminator it runs out of the block.
unfoldable pub strlen : List ℕ → Outcome ℕ
strlen [] = fault
strlen (b ∷ bs) = let rest = strlen bs in if b == 0 then done 0 else (do n ← rest; done (n + 1))

-- The text of a C string: the bytes in front of the first terminator.
unfoldable pub c_text : List ℕ → List ℕ
c_text [] = []
c_text (b ∷ bs) = let rest = c_text bs in if b == 0 then [] else b ∷ rest

-- A string holds no terminator inside.
abbrev pub IsText : List ℕ → Type 0
IsText = All (λ b. b ≢ 0)

pub write-eq-set :
    (block : List ℕ) (i v : ℕ) → i < length block → write block i v ≡ done (set block i v)
unfolding write
write-eq-set block i v h = rw (lt→ltb i (length block) h)

pub write-outside : (i : ℕ) (block : List ℕ) (v : ℕ) → length block ≤ i → write block i v ≡ fault
unfolding write
write-outside i block v h = rw (ge→ltb_false i (length block) h)

pub read-append :
    (xs : List ℕ) (y : ℕ) (ys : List ℕ) (n : ℕ) → n ≡ length xs → read (xs ++ y ∷ ys) n ≡ done y
read-append xs y ys n e = ap from_option (get_elem?-append xs y ys n e)

pub write-append :
    (xs : List ℕ) (y z : ℕ) (ys : List ℕ) (n : ℕ)
    → n ≡ length xs
    → write (xs ++ y ∷ ys) n z ≡ done (xs ++ z ∷ ys)
unfolding write
write-append xs y z ys n e =
    rw (lt→ltb n (length (xs ++ y ∷ ys)) (omega (arith, length-append xs (y ∷ ys))))
      (ap done (set-append xs y z ys n e))

pub strlen-append : (xs rest : List ℕ) → IsText xs → strlen (xs ++ 0 ∷ rest) ≡ done (length xs)
unfolding strlen
strlen-append [] rest t = refl
strlen-append (x ∷ xs) rest t = ground (arith, strlen-append xs rest t.1)

pub c_text-append : (xs rest : List ℕ) → IsText xs → c_text (xs ++ 0 ∷ rest) ≡ xs
unfolding c_text
c_text-append [] rest t = refl
c_text-append (x ∷ xs) rest t = ground (arith, c_text-append xs rest t.1)

-- A block after its first bytes were overwritten by `xs`.
abbrev pub overlay : List ℕ → List ℕ → List ℕ
overlay xs block = xs ++ drop (length xs) block

-- The next byte of a block that is filled from the left.
pub write-overlay :
    (xs : List ℕ) (x : ℕ) (block : List ℕ) (n : ℕ)
    → n ≡ length xs
    → length xs < length block
    → write (overlay xs block) n x ≡ done (overlay (xs ++ x ∷ []) block)
write-overlay xs x block n e h =
    let (y, next) = drop-cons (length xs) block h in
    let len : length (xs ++ x ∷ []) ≡ suc (length xs) = omega (arith, length-append xs (x ∷ [])) in
    rw (next, write-append xs y x (drop (suc (length xs)) block) n e, len)
      (ap done (sym (append_assoc xs (x ∷ []) _)))

-- `memcpy(block + i, bytes, n)`, or the bytes written one after the other from `block + i`.
unfoldable pub store : List ℕ → ℕ → List ℕ → Outcome (List ℕ)
store block i [] = done block
store block i (b ∷ bs) = do next ← write block i b; store next (i + 1) bs

pub store-overlay :
    (bs xs block : List ℕ) (n : ℕ)
    → n ≡ length xs
    → length xs + length bs ≤ length block
    → store (overlay xs block) n bs ≡ done (overlay (xs ++ bs) block)
unfolding store
store-overlay [] xs block n e h = rw append-nil
store-overlay (b ∷ bs) xs block n e h = rw (write-overlay xs b block n e (omega arith)) (
    store-overlay bs (xs ++ b ∷ []) block (n + 1) (omega (arith, length-append xs (b ∷ [])))
      (omega (arith, length-append xs (b ∷ [])))
    ∙ rw (append_assoc xs (b ∷ []) bs))
