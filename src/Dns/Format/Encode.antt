-- ===== src/Dns/Format/Encode.antt =====
-- What `domain_format` of http1.0/src/zdns.c writes.
use native.Mathlib.Nat.{add-zero}
use mydns.Prelude.{
  ℕ, suc, ◌+◌, ◌-◌, ◌≤◌, ◌<◌, ◌≡◌, refl, ◌∙◌, List, [], ◌∷◌, ◌++◌, arith, length, length-append,
  append_assoc, append-nil, read-append, done, fault, ◌==◌, Bool-cases, inl, inr, true, false, read,
  ==_iff, u8, ltb, ge→ltb_false, lt→ltb,
}
use mydns.Dns.Labels.{labels_from, labels, encode}
use mydns.Dns.Format.{Formatter, copy_label, format_byte, format_loop, domain_format, host_size}

-- The inner loop copies the label `cur` that starts at index `k`.
copy_label-append :
    (pre cur rest out : List ℕ) (k : ℕ)
    → k ≡ length pre
    → copy_label (pre ++ (cur ++ rest)) (length cur) (record { lock = k; out = out })
      ≡ done (record { lock = k + length cur; out = out ++ cur })
unfolding copy_label
copy_label-append pre [] rest out k e = rw (append-nil, add-zero)
copy_label-append pre (c ∷ cur) rest out k e =
    let next =
      copy_label-append (pre ++ c ∷ []) cur rest (out ++ c ∷ []) (k + 1)
        (omega (arith, length-append pre (c ∷ []))) in
    let total : k + 1 + length cur ≡ k + suc (length cur) = omega arith in
    rw (read-append pre c (cur ++ rest) k e) (simp (append_assoc, total) at next)

-- At a dot the label in front of it is written behind its length.
format_byte-dot :
    (pre cur rest out : List ℕ) (k m : ℕ)
    → k ≡ length pre
    → m ≡ k + length cur
    → length cur < 256
    → format_byte (pre ++ (cur ++ rest)) m b'.' (record { lock = k; out = out })
      ≡ done (record { lock = m + 1; out = out ++ (length cur ∷ cur) })
unfolding format_byte
format_byte-dot pre cur rest out k m e f h =
    let rounds : m - k ≡ length cur = omega arith in
    let byte : u8 (length cur) ≡ length cur = omega arith in
    let place : k + length cur ≡ m = omega arith in
    rw (rounds, byte, copy_label-append pre cur rest (out ++ length cur ∷ []) k e, place)
      (simp append_assoc)

read-inside :
    (pre cur : List ℕ) (c : ℕ) (rest : List ℕ) (m : ℕ)
    → m ≡ length pre + length cur
    → read (pre ++ (cur ++ c ∷ rest)) m ≡ done c
read-inside pre cur c rest m e =
    rw (← append_assoc) (read-append (pre ++ cur) c rest m (omega (arith, length-append pre cur)))

format_loop-next :
    (host : List ℕ) (n i c : ℕ) (s t : Formatter)
    → read host i ≡ done c
    → format_byte host i c s ≡ done t
    → format_loop host (suc n) i s ≡ format_loop host n (i + 1) t
unfolding format_loop
format_loop-next host n i c s t r f = rw (r, f)

format_byte-other :
    (host : List ℕ) (i c : ℕ) (s : Formatter)
    → (c == b'.') ≡ false
    → format_byte host i c s ≡ done s
unfolding format_byte
format_byte-other host i c s h = rw h

-- The loop from index `m`, with the label `cur` read since the last dot and `cs` to come.
format_loop-labels :
    (pre cur cs out : List ℕ) (k m : ℕ)
    → k ≡ length pre
    → m ≡ k + length cur
    → length cur + length cs < 256
    → (l : ℕ) × (format_loop
          (pre ++ (cur ++ (cs ++ b'.' ∷ [])))
          (suc (length cs))
          m
          (record { lock = k; out = out })
        ≡ done (record { lock = l; out = out ++ encode (labels_from cur cs) }))
unfolding labels_from encode
format_loop-labels pre cur [] out k m e f h = (
  m + 1,
  format_loop-next _ 0 m b'.' _ _ (read-inside pre cur b'.' [] m (omega (arith, e)))
        (format_byte-dot pre cur (b'.' ∷ []) out k m e f (omega arith))
      ∙ (unfold format_loop in simp append-nil),
)
format_loop-labels pre cur (c ∷ cs) out k m e f h = elim (Bool-cases (c == b'.')) [
  | inl dot ↦
      let here : c ≡ b'.' = (==_iff c b'.').0 dot in
      let (l, rest) =
        format_loop-labels (pre ++ (cur ++ b'.' ∷ [])) [] cs (out ++ (length cur ∷ cur)) (m + 1)
          (m + 1)
          (omega (arith, length-append pre (cur ++ b'.' ∷ []), length-append cur (b'.' ∷ [])))
          (omega arith) (omega arith) in
      (
        l,
        rw here (
            format_loop-next _ (suc (length cs)) m b'.' _ _
              (read-inside pre cur b'.' (cs ++ b'.' ∷ []) m (omega (arith, e)))
              (format_byte-dot pre cur (b'.' ∷ (cs ++ b'.' ∷ [])) out k m e f (omega arith))
            ∙ simp append_assoc at rest),
      )
  | inr other ↦
      let (l, rest) =
        format_loop-labels pre (cur ++ c ∷ []) cs out k (m + 1) e
          (omega (arith, length-append cur (c ∷ []))) (omega (arith, length-append cur (c ∷ []))) in
      (
        l,
        rw other (
            format_loop-next _ (suc (length cs)) m c _ _
              (read-inside pre cur c (cs ++ b'.' ∷ []) m (omega (arith, e)))
              (format_byte-other _ m c _ other)
            ∙ simp append_assoc at rest),
      )
]

length-encode-labels_from :
    (label cs : List ℕ) → length (encode (labels_from label cs)) ≡ suc (length label + length cs)
unfolding labels_from encode
length-encode-labels_from label [] = omega (arith, length-append label [])
length-encode-labels_from label (c ∷ cs) = elim (Bool-cases (c == b'.')) [
  | inl dot ↦ rw dot (
      omega
        (arith, length-append label (encode (labels_from [] cs)), length-encode-labels_from [] cs))
  | inr other ↦
      rw other (
        omega (arith, length-append label (c ∷ []), length-encode-labels_from (label ++ c ∷ []) cs))
]

-- A name takes one byte more than its text, without the final zero.
pub length-encode-labels : (cs : List ℕ) → length (encode (labels cs)) ≡ suc (length cs)
length-encode-labels cs = omega (arith, length-encode-labels_from [] cs)

-- A name of at most 30 bytes is written as its labels, each behind its length, and a zero byte.
pub domain_format-encode :
    (tmp : List ℕ) → length tmp ≤ 30 → domain_format tmp ≡ done (encode (labels tmp) ++ 0 ∷ [])
unfolding domain_format
domain_format-encode tmp h =
    let fits : ltb host_size (length (tmp ++ b'.' ∷ []) + 1) ≡ false =
      ge→ltb_false _ _ (omega (arith, length-append tmp (b'.' ∷ []))) in
    let rounds : length (tmp ++ b'.' ∷ []) ≡ suc (length tmp) =
      omega (arith, length-append tmp (b'.' ∷ [])) in
    let (l, run) = format_loop-labels [] [] tmp [] 0 0 refl refl (omega arith) in
    rw (fits, rounds, run)

-- A longer name overruns the array `host`.
pub domain_format-fault : (tmp : List ℕ) → 30 < length tmp → domain_format tmp ≡ fault
unfolding domain_format
domain_format-fault tmp h =
    let long : ltb host_size (length (tmp ++ b'.' ∷ []) + 1) ≡ true =
      lt→ltb _ _ (omega (arith, length-append tmp (b'.' ∷ []))) in
    rw long
