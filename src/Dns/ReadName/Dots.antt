-- ===== src/Dns/ReadName/Dots.antt =====
-- The second loop of `read_name` of http1.0/src/zdns.c, which puts dots into a collected name.
use native.Mathlib.Nat.{add-zero}
use mydns.Prelude.{
  ℕ, zero, suc, ◌+◌, ◌<◌, ◌≤◌, ◌≡◌, refl, ap, ◌∙◌, List, [], ◌∷◌, ◌++◌, arith, length,
  length-append, append_assoc, done, read, write, read-append, write-append, strlen, strlen-append,
  All, IsText, All-append, All-append_left,
}
use mydns.Dns.Labels.{
  IsPlainLabel, encode, dotted, join, dotted-join, length-le-encode, plain-IsText, encode-IsText,
}
use mydns.Dns.ReadName.{shift_label, dot_loop, end_name, convert}

read-second :
    (pre : List ℕ) (x c : ℕ) (rest : List ℕ) (i : ℕ)
    → i ≡ length pre
    → read (pre ++ x ∷ (c ∷ rest)) (i + 1) ≡ done c
read-second pre x c rest i e =
    let at_next =
      read-append (pre ++ x ∷ []) c rest (i + 1) (omega (arith, length-append pre (x ∷ []))) in
    rw append_assoc at at_next

-- The label moves one place to the left over its length byte, and a dot takes its last place.
shift_label-write :
    (pre l rest : List ℕ) (x i : ℕ)
    → i ≡ length pre
    → (name : List ℕ) × (shift_label (length l) (pre ++ x ∷ (l ++ rest)) i
        ≡ done (name, i + length l))
      × (write name (i + length l) b'.' ≡ done (pre ++ (l ++ b'.' ∷ rest)))
unfolding shift_label
shift_label-write pre [] rest x i e =
    (pre ++ x ∷ rest, rw add-zero, rw add-zero (write-append pre x b'.' rest i e))
shift_label-write pre (c ∷ l) rest x i e =
    let (name, shifts, writes) =
      shift_label-write (pre ++ c ∷ []) l rest c (i + 1)
        (omega (arith, length-append pre (c ∷ []))) in
    let place : i + 1 + length l ≡ i + suc (length l) = omega arith in
    (
      name,
      rw (read-second pre x c (l ++ rest) i e, write-append pre x c (c ∷ (l ++ rest)) i e, ← place)
          (simp append_assoc at shifts),
      rw (← place) (simp append_assoc at writes),
    )

pub dot_loop-stop :
    (fuel : ℕ) (name : List ℕ) (i len : ℕ)
    → strlen name ≡ done len
    → len ≤ i
    → dot_loop (suc fuel) name i ≡ done (name, i)
unfolding dot_loop
dot_loop-stop fuel name i len e h = ground arith

dot_loop-next :
    (fuel : ℕ) (name shifted name' : List ℕ) (i len p k : ℕ)
    → strlen name ≡ done len
    → i < len
    → read name i ≡ done p
    → shift_label p name i ≡ done (shifted, k)
    → write shifted k b'.' ≡ done name'
    → dot_loop (suc fuel) name i ≡ dot_loop fuel name' (k + 1)
unfolding dot_loop
dot_loop-next fuel name shifted name' i len p k e h r s w = ground arith

-- From a name whose labels up to index `i` have their dots already.
dot_loop-dotted :
    (ls : List (List ℕ)) (pre rest : List ℕ) (fuel i : ℕ)
    → length ls < fuel
    → i ≡ length pre
    → IsText pre
    → All IsPlainLabel ls
    → dot_loop fuel (pre ++ (encode ls ++ 0 ∷ rest)) i
      ≡ done (pre ++ (dotted ls ++ 0 ∷ rest), i + length (dotted ls))
unfolding encode dotted
dot_loop-dotted ls pre rest zero i enough e t plain = absurd (omega arith)
dot_loop-dotted [] pre rest (suc fuel) i enough e t plain =
    rw add-zero
      (dot_loop-stop fuel (pre ++ 0 ∷ rest) i (length pre) (strlen-append pre rest t) (omega arith))
dot_loop-dotted (l ∷ ls) pre rest (suc fuel) i enough e t plain =
    let (shifted, shifts, writes) =
      shift_label-write pre l (encode ls ++ 0 ∷ rest) (length l) i e in
    let len =
      strlen-append (pre ++ encode (l ∷ ls)) rest
        (All-append _ pre (encode (l ∷ ls)) t (encode-IsText (l ∷ ls) plain)) in
    let next =
      dot_loop-dotted ls (pre ++ (l ++ b'.' ∷ [])) rest fuel (i + length l + 1) (omega arith)
        (omega (arith, length-append pre (l ++ b'.' ∷ []), length-append l (b'.' ∷ [])))
        (All-append _ pre (l ++ b'.' ∷ []) t
          (All-append _ l (b'.' ∷ []) (plain-IsText l plain.0.2) (omega arith)))
        plain.1 in
    let place : i + length l + 1 + length (dotted ls) ≡ i + length (l ++ b'.' ∷ dotted ls) =
      omega (arith, length-append l (b'.' ∷ dotted ls)) in
    rw
      (append_assoc l (encode ls) (0 ∷ rest), append_assoc l (b'.' ∷ dotted ls) (0 ∷ rest), ← place)
      (dot_loop-next fuel _ shifted _ i _ _ _ (simp append_assoc at len)
          (omega (arith, length-append pre (encode (l ∷ ls)))) (read-append pre (length l) _ i e)
          shifts writes
        ∙ simp append_assoc at next)

-- The whole second half, on the bytes of a name that is not the root.
pub convert-join :
    (l : List ℕ) (ls : List (List ℕ)) (rest : List ℕ)
    → All IsPlainLabel (l ∷ ls)
    → length (encode (l ∷ ls)) < 256
    → convert (encode (l ∷ ls) ++ 0 ∷ rest) ≡ done (join (l ∷ ls) ++ 0 ∷ (0 ∷ rest))
unfolding convert end_name
convert-join l ls rest plain short =
    let ended : length (dotted (l ∷ ls)) ≡ suc (length (join (l ∷ ls))) =
      omega (arith, ap length (dotted-join l ls), length-append (join (l ∷ ls)) (b'.' ∷ [])) in
    let place : 0 + length (dotted (l ∷ ls)) ≡ suc (length (join (l ∷ ls))) = omega arith in
    rw
      (
        dot_loop-dotted (l ∷ ls) [] rest 257 0 (omega (arith, length-le-encode (l ∷ ls))) refl tt
            plain,
        place,
        dotted-join l ls,
        append_assoc (join (l ∷ ls)) (b'.' ∷ []) (0 ∷ rest),
      )
      (write-append (join (l ∷ ls)) b'.' 0 (0 ∷ rest) _ refl)

dotted-IsText : (ls : List (List ℕ)) → All IsPlainLabel ls → IsText (dotted ls)
unfolding dotted
dotted-IsText [] plain = tt
dotted-IsText (l ∷ ls) plain =
    All-append _ l (b'.' ∷ dotted ls) (plain-IsText l plain.0.2)
      (omega arith, dotted-IsText ls plain.1)

pub join-IsText :
    (l : List ℕ) (ls : List (List ℕ)) → All IsPlainLabel (l ∷ ls) → IsText (join (l ∷ ls))
join-IsText l ls plain =
    All-append_left _ (join (l ∷ ls)) (b'.' ∷ []) (rw dotted-join at (dotted-IsText (l ∷ ls) plain))
