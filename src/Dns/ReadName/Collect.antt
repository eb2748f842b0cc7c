-- ===== src/Dns/ReadName/Collect.antt =====
-- The first loop of `read_name` of http1.0/src/zdns.c, which collects the bytes of a name.
use native.Mathlib.Nat.{add-zero}
use mydns.Prelude.{
  ℕ, zero, suc, ◌+◌, ◌-◌, ◌*◌, ◌<◌, ◌≤◌, ◌≡◌, refl, ◌∙◌, List, [], ◌∷◌, ◌++◌, arith, length,
  length-append, append_assoc, append-nil, done, ◌==◌, true, false, get_elem?, some, if◌then◌else◌,
  overlay, write-overlay, Bool, Outcome, All, leb, gt→leb_false,
}
use mydns.Dns.Labels.{IsPlainByte, encode}
use mydns.Dns.ReadName.{Scan, offset, scan_loop}
use mydns.Dns.ReadName.Wire.{Holds, WireName, root, label, pointer, rounds}

-- `*count` after `n` more bytes: it counts no byte after a jump.
abbrev pub counted : Bool → ℕ → ℕ → ℕ
counted jumped count n = if jumped then count else count + n

counted_zero : (jumped : Bool) (count : ℕ) → counted jumped count 0 ≡ count
counted_zero true count = refl
counted_zero false count = omega arith

counted-suc :
    (jumped : Bool) (count n : ℕ)
    → counted jumped (counted jumped count 1) n ≡ counted jumped count (suc n)
counted-suc true count n = refl
counted-suc false count n = omega arith

counted_pos : (jumped : Bool) (count n : ℕ) → 0 < count → 0 < counted jumped count n
counted_pos true count n h = h
counted_pos false count n h = omega arith

-- What `*count` is in the end, with `k` bytes of the name to come.
abbrev total : Bool → ℕ → ℕ → ℕ
total jumped count k = if jumped then count + 1 else count + k - 1

total_root :
    (jumped : Bool) (count : ℕ) {k : ℕ}
    → k ≡ 1
    → total jumped count k ≡ (if jumped then count + 1 else count)
total_root jumped count e = ground arith

total_label :
    (jumped : Bool) (count j n : ℕ) {k : ℕ}
    → k ≡ j + n
    → total jumped count k ≡ total jumped (counted jumped count n) j
total_label jumped count j n e = ground arith

total_pointer :
    (jumped : Bool) (count j : ℕ) {k : ℕ} → k ≡ 2 → total jumped count k ≡ total true count j
total_pointer jumped count j e = ground arith

rounds-pos :
    {buffer : List ℕ} {r k : ℕ} {ls : List (List ℕ)} (w : WireName buffer r ls k) → 0 < rounds w
rounds-pos (root at e) = omega arith
rounds-pos (label plain at rest e) = omega arith
rounds-pos (pointer hi lo above first second rest e) = omega arith

add_one_add : (r n : ℕ) → r + 1 + n ≡ r + suc n
add_one_add r n = omega arith

module _ (buffer block : List ℕ) where
  -- The state with the bytes `xs` collected.
  abbrev pub collected : List ℕ → ℕ → Bool → Scan
  collected xs count jumped = record {
    name = overlay xs block;
    p = length xs;
    count = count;
    jumped = jumped;
  }

  -- One round at a byte of a label.
  scan_loop-byte :
      (b : ℕ) (xs : List ℕ) (f r count : ℕ) (jumped : Bool)
      → get_elem? buffer r ≡ some b
      → IsPlainByte b
      → length xs < length block
      → scan_loop buffer (suc f) r (collected xs count jumped)
        ≡ scan_loop buffer f (r + 1) (collected (xs ++ b ∷ []) (counted jumped count 1) jumped)
  unfolding scan_loop
  scan_loop-byte b xs f r count jumped at plain room =
      let end : (b == 0) ≡ false = ground arith in
      let small : leb 192 b ≡ false = gt→leb_false 192 b plain.1 in
      let len : length xs + 1 ≡ length (xs ++ b ∷ []) = omega (arith, length-append xs (b ∷ [])) in
      ground (arith, write-overlay xs b block (length xs) refl room, len)

  -- The rounds over a run of such bytes.
  scan_loop-bytes :
      (bs xs : List ℕ) (f g r count : ℕ) (jumped : Bool)
      → Holds buffer r bs
      → All IsPlainByte bs
      → length xs + length bs ≤ length block
      → f ≡ length bs + g
      → scan_loop buffer f r (collected xs count jumped)
        ≡ scan_loop buffer g
            (r + length bs)
            (collected (xs ++ bs) (counted jumped count (length bs)) jumped)
  scan_loop-bytes [] xs f g r count jumped at plain room e =
      let same : f ≡ g = omega arith in rw (same, append-nil, add-zero, counted_zero jumped count)
  scan_loop-bytes (b ∷ bs) xs zero g r count jumped at plain room e = absurd (omega arith)
  scan_loop-bytes (b ∷ bs) xs (suc f) g r count jumped at plain room e =
      scan_loop-byte b xs f r count jumped at.0 plain.0 (omega arith)
      ∙ scan_loop-bytes bs (xs ++ b ∷ []) f g (r + 1) (counted jumped count 1) jumped at.1 plain.1
          (omega (arith, length-append xs (b ∷ []))) (omega arith)
      ∙ rw (
        counted-suc jumped count (length bs),
        append_assoc xs (b ∷ []) bs,
        add_one_add r (length bs),
      )

  -- One round at a pointer.
  pub scan_loop-pointer :
      (hi lo : ℕ) (f r : ℕ) (s : Scan)
      → 192 ≤ hi
      → get_elem? buffer r ≡ some hi
      → get_elem? buffer (r + 1) ≡ some lo
      → scan_loop buffer (suc f) r s
        ≡ scan_loop buffer f ((hi - 192) * 256 + lo) (record s { jumped = true })
  unfolding scan_loop
  scan_loop-pointer hi lo f r s above first second =
      let target : offset hi lo ≡ (hi - 192) * 256 + lo = omega arith in ground (arith, target)

  pub scan_loop-end :
      (f r : ℕ) (s : Scan) → get_elem? buffer r ≡ some 0 → scan_loop buffer (suc f) r s ≡ done s
  unfolding scan_loop
  scan_loop-end f r s at = ground arith

  -- What the loop leaves when it has read a name.
  pub record IsCollected (xs : List ℕ) (total : ℕ) (result : Outcome Scan) : Type 0 where
    pub out : Scan
    pub returns : result ≡ done out
    pub name_is : out.name ≡ overlay xs block
    pub p_is : out.p ≡ length xs
    pub count_is : (if out.jumped then out.count + 1 else out.count) ≡ total

  -- The loop reads every name in wire form, through its pointers, and counts the bytes up to the
  -- terminator or the first pointer.
  pub scan_loop-IsCollected :
      {r k : ℕ} {ls : List (List ℕ)} (w : WireName buffer r ls k) (xs : List ℕ) (fuel count : ℕ)
      (jumped : Bool)
      → rounds w ≤ fuel
      → length xs + length (encode ls) < length block
      → 0 < count
      → IsCollected
          (xs ++ encode ls)
          (if jumped then count + 1 else count + k - 1)
          (scan_loop buffer fuel r (collected xs count jumped))
  unfolding encode
  scan_loop-IsCollected w xs zero count jumped enough room pos =
      absurd (omega (arith, rounds-pos w))
  scan_loop-IsCollected (root at e) xs (suc fuel) count jumped enough room pos =
      rw (append-nil, total_root jumped count e)
        (record {
          out = collected xs count jumped;
          returns = scan_loop-end fuel _ _ at;
          name_is = refl;
          p_is = refl;
          count_is = refl;
        })
  scan_loop-IsCollected (label {r} {j} {l} {ls} plain at rest e) xs (suc fuel) count jumped enough
        room pos =
      let moved =
        scan_loop-bytes (length l ∷ l) xs (suc fuel) (fuel - length l) r count jumped at
          ((omega arith, omega arith), plain.2) (omega (arith, length-append l (encode ls)))
          (omega arith) in
      let next =
        scan_loop-IsCollected rest (xs ++ (length l ∷ l)) (fuel - length l)
          (counted jumped count (suc (length l))) jumped (omega arith)
          (omega (arith, length-append l (encode ls), length-append xs (length l ∷ l)))
          (counted_pos jumped count (suc (length l)) pos) in
      rw (moved, total_label jumped count j (suc (length l)) e)
        (rw (append_assoc xs (length l ∷ l) (encode ls)) at next)
  scan_loop-IsCollected (pointer {r} {j} {ls} hi lo above first second rest e) xs (suc fuel) count
        jumped enough room pos =
      let next = scan_loop-IsCollected rest xs fuel count true (omega arith) room pos in
      rw
        (
          scan_loop-pointer hi lo fuel r (collected xs count jumped) above first second,
          total_pointer jumped count j e,
        )
        next
