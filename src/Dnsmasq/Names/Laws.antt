-- ===== src/Dnsmasq/Names/Laws.antt =====
-- What src/util.c of http1.0/src/dnsmasq/dnsmasq-2.45 takes for a name, writes for it, and takes for
-- the same name.
use mydns.Prelude.{
  ℕ, ◌+◌, ◌≤◌, ◌<◌, ◌≡◌, ◌≢◌, ◌↔◌, ◌⊎◌, inl, inr, refl, sym, ◌∙◌, List, [], ◌∷◌, ◌++◌, map, arith,
  length, length-append, append-nil, ==_iff, ltb, ◌==◌, if◌then◌else◌, Bool, true, false, ◌||◌, not,
  Bool-cases, All, some, u8,
}
use mydns.Dns.Labels.{labels, labels_from, encode}
use mydns.Dnsmasq.Names.{
  legal_char, canonicalise_loop, without_dot, canonicalise, rfc1035_loop, do_rfc1035_name, to_lower,
  hostname_isequal, max_dname,
}

-- Two names are taken for the same exactly when they are, but for the case of their letters.
pub hostname_isequal_iff :
    (a b : List ℕ) → (hostname_isequal a b ≡ true) ↔ (map to_lower a ≡ map to_lower b)
unfolding hostname_isequal
hostname_isequal_iff [] [] = (λ e. refl, λ e. refl)
hostname_isequal_iff [] (d ∷ b) = (λ e. cc, λ e. cc)
hostname_isequal_iff (c ∷ a) [] = (λ e. cc, λ e. cc)
hostname_isequal_iff (c ∷ a) (d ∷ b) = elim (Bool-cases (to_lower c == to_lower d)) [
  | inl same ↦
      let ih = hostname_isequal_iff a b in
      (λ e. ground (arith, ih.0, same), λ e. ground (arith, ih.1, same))
  | inr other ↦ (λ e. ground (arith, other), λ e. ground (arith, other))
]

-- The name does not end with a dot.
abbrev pub EndsOpen : List ℕ → Type 0
EndsOpen [] = ⊥
EndsOpen (c ∷ []) = c ≢ b'.'
EndsOpen (c ∷ (d ∷ cs)) = EndsOpen (d ∷ cs)

rfc1035_loop-other :
    (label sval : List ℕ) (c : ℕ)
    → (c == b'.') ≡ false
    → rfc1035_loop label (c ∷ sval) ≡ rfc1035_loop (label ++ c ∷ []) sval
unfolding rfc1035_loop
rfc1035_loop-other label sval c e = rw e

rfc1035_loop-dot :
    (label sval : List ℕ) (d : ℕ)
    → rfc1035_loop label (b'.' ∷ d ∷ sval)
      ≡ u8 (length label) ∷ (label ++ rfc1035_loop [] (d ∷ sval))
unfolding rfc1035_loop
rfc1035_loop-dot label sval d = refl

labels_from-other :
    (label sval : List ℕ) (c : ℕ)
    → (c == b'.') ≡ false
    → labels_from label (c ∷ sval) ≡ labels_from (label ++ c ∷ []) sval
unfolding labels_from
labels_from-other label sval c e = rw e

labels_from-dot :
    (label sval : List ℕ) → labels_from label (b'.' ∷ sval) ≡ label ∷ labels_from [] sval
unfolding labels_from
labels_from-dot label sval = refl

rfc1035_loop-end :
    (label : List ℕ) → length label < 256 → rfc1035_loop label [] ≡ encode (labels_from label [])
unfolding rfc1035_loop labels_from encode
rfc1035_loop-end label h =
    let byte : u8 (length label) ≡ length label = omega arith in rw (byte, append-nil label)

encode-cons : (l : List ℕ) (ls : List (List ℕ)) → encode (l ∷ ls) ≡ length l ∷ (l ++ encode ls)
unfolding encode
encode-cons l ls = refl

rfc1035_loop-encode :
    (label sval : List ℕ)
    → (sval ≡ []) ⊎ EndsOpen sval
    → length label + length sval < 256
    → rfc1035_loop label sval ≡ encode (labels_from label sval)
rfc1035_loop-encode label [] open_ h = rfc1035_loop-end label (omega arith)
rfc1035_loop-encode label (c ∷ []) (inl e) h = cc
rfc1035_loop-encode label (c ∷ []) (inr open_) h =
    let other : (c == b'.') ≡ false = ground arith in
    rw (rfc1035_loop-other label [] c other, labels_from-other label [] c other)
      (rfc1035_loop-end (label ++ c ∷ []) (omega (arith, length-append label (c ∷ []))))
rfc1035_loop-encode label (c ∷ (d ∷ sval)) (inl e) h = cc
rfc1035_loop-encode label (c ∷ (d ∷ sval)) (inr open_) h = elim (Bool-cases (c == b'.')) [
  | inl dot ↦
      let byte : u8 (length label) ≡ length label = omega arith in
      rw (
        (==_iff c b'.').0 dot,
        rfc1035_loop-dot label sval d,
        labels_from-dot label (d ∷ sval),
        encode-cons,
        byte,
        rfc1035_loop-encode [] (d ∷ sval) (inr open_) (omega arith),
      )
  | inr other ↦
      rw (rfc1035_loop-other label (d ∷ sval) c other, labels_from-other label (d ∷ sval) c other)
        (rfc1035_loop-encode (label ++ c ∷ []) (d ∷ sval) (inr open_)
          (omega (arith, length-append label (c ∷ []))))
]

-- A name that does not end with a dot is written as its labels, each behind its length, without the
-- zero byte that ends it.
pub do_rfc1035_name-encode :
    (sval : List ℕ)
    → EndsOpen sval
    → length sval < 256
    → do_rfc1035_name (some sval) ≡ encode (labels sval)
unfolding do_rfc1035_name
do_rfc1035_name-encode [] open_ h = absurd open_
do_rfc1035_name-encode (c ∷ sval) open_ h =
    rfc1035_loop-encode [] (c ∷ sval) (inr open_) (omega arith)

-- A byte that may stand in a name: a dot, or what `legal_char` takes.
abbrev pub IsNameByte : ℕ → Type 0
IsNameByte c = (c ≡ b'.') ⊎ (legal_char c ≡ true)

-- A byte other than a dot and a space.
abbrev pub HasInk : List ℕ → Type 0
HasInk [] = ⊥
HasInk (c ∷ cs) = ((c ≢ b'.') × (c ≢ b' ')) ⊎ HasInk cs

-- The labels are of at most 63 bytes, `label` having been read of the first.
abbrev pub IsName : List ℕ → Bool → List ℕ → Type 0
IsName label nowhite s =
    All IsNameByte s
    × All (λ l. length l ≤ 63) (labels_from label s)
    × ((nowhite ≡ true) ⊎ HasInk s)

canonicalise_loop-dot :
    (dotgap : ℕ) (nowhite : Bool) (s : List ℕ)
    → canonicalise_loop dotgap nowhite (b'.' ∷ s) ≡ canonicalise_loop 0 nowhite s
unfolding canonicalise_loop
canonicalise_loop-dot dotgap nowhite s = refl

canonicalise_loop-other :
    (dotgap : ℕ) (nowhite : Bool) (c : ℕ) (s : List ℕ)
    → (c == b'.') ≡ false
    → canonicalise_loop dotgap nowhite (c ∷ s) ≡ (
        if not (legal_char c) || ltb 63 (dotgap + 1)
        then false
        else canonicalise_loop (dotgap + 1) (nowhite || not (c == b' ')) s)
unfolding canonicalise_loop
canonicalise_loop-other dotgap nowhite c s e = rw e

-- Ink is found in the bytes read or in those to come.
ink_next :
    (nowhite : Bool) (c : ℕ) (s : List ℕ)
    → (c == b'.') ≡ false
    → ((nowhite || not (c == b' ')) ≡ true) ⊎ HasInk s
    → (nowhite ≡ true) ⊎ HasInk (c ∷ s)
ink_next true c s other h = inl refl
ink_next false c s other (inl h) = inr (inl (ground arith))
ink_next false c s other (inr h) = inr (inr h)

ink_back :
    (nowhite : Bool) (c : ℕ) (s : List ℕ)
    → (nowhite ≡ true) ⊎ HasInk (c ∷ s)
    → ((nowhite || not (c == b' ')) ≡ true) ⊎ HasInk s
ink_back true c s h = inl refl
ink_back false c s (inl h) = cc
ink_back false c s (inr (inl h)) = inl (ground arith)
ink_back false c s (inr (inr h)) = inr h

labels_from-nil : (label : List ℕ) → labels_from label [] ≡ label ∷ []
unfolding labels_from
labels_from-nil label = refl

first-label-fits :
    (label s : List ℕ) → All (λ l. length l ≤ 63) (labels_from label s) → length label ≤ 63
first-label-fits label [] h = (rw (labels_from-nil label) at h).0
first-label-fits label (c ∷ s) h = elim (Bool-cases (c == b'.')) [
  | inl dot ↦ (rw ((==_iff c b'.').0 dot, labels_from-dot label s) at h).0
  | inr other ↦
      let longer =
        first-label-fits (label ++ c ∷ []) s (rw (labels_from-other label s c other) at h) in
      omega (arith, longer, length-append label (c ∷ []))
]

refused :
    (label : List ℕ) (c : ℕ) (s : List ℕ)
    → (c == b'.') ≡ false
    → (not (legal_char c) || ltb 63 (length label + 1)) ≡ true
    → IsNameByte c
    → All (λ l. length l ≤ 63) (labels_from label (c ∷ s))
    → ⊥
refused label c s other bad byte fits =
    let longer =
      first-label-fits (label ++ c ∷ []) s (rw (labels_from-other label s c other) at fits) in
    elim byte [
      | inl here ↦ ground (arith, here, other)
      | inr legal ↦ ground (arith, legal, bad, longer, length-append label (c ∷ []))
    ]

canonicalise_loop_iff :
    (label : List ℕ) (nowhite : Bool) (s : List ℕ)
    → length label ≤ 63
    → (canonicalise_loop (length label) nowhite s ≡ true) ↔ IsName label nowhite s
canonicalise_loop_iff label nowhite [] fits =
    unfold canonicalise_loop in
    unfold labels_from in
    (λ e. (tt, (fits, tt), inl e), λ n. elim (n.2) [ inl e ↦ e | inr h ↦ absurd h ])
canonicalise_loop_iff label nowhite (c ∷ s) fits = elim (Bool-cases (c == b'.')) [
  | inl dot ↦
      let here : c ≡ b'.' = (==_iff c b'.').0 dot in
      let ih = canonicalise_loop_iff [] nowhite s (omega arith) in
      (
        λ e.
            let n = ih.0 (sym (canonicalise_loop-dot (length label) nowhite s) ∙ rw here at e) in
            rw here (
              (inl refl, n.0),
              rw (labels_from-dot label s) (fits, n.1),
              elim (n.2) [ inl w ↦ inl w | inr ink ↦ inr (inr ink) ],
            ),
        λ n. rw here (
            canonicalise_loop-dot (length label) nowhite s
            ∙ ih.1 (
              n.0.1,
              (rw (here, labels_from-dot label s) at (n.1)).1,
              elim (n.2) [
                | inl w ↦ inl w
                | inr ink ↦ elim ink [ inl ne ↦ absurd (ne.0 here) | inr more ↦ inr more ]
              ],
            )),
      )
  | inr other ↦
      let step = canonicalise_loop-other (length label) nowhite c s other in
      elim (Bool-cases (not (legal_char c) || ltb 63 (length label + 1))) [
        | inl bad ↦
            (λ e. cc (e, rw bad at step), λ n. absurd (refused label c s other bad n.0.0 n.1))
        | inr good ↦
            let kept : canonicalise_loop (length label) nowhite (c ∷ s)
                ≡ canonicalise_loop (length (label ++ c ∷ [])) (nowhite || not (c == b' ')) s =
              rw (length-append label (c ∷ [])) (step ∙ rw good) in
            let legal : legal_char c ≡ true = ground (arith, good) in
            let ih =
              canonicalise_loop_iff (label ++ c ∷ []) (nowhite || not (c == b' ')) s
                (ground (arith, good, length-append label (c ∷ []))) in
            (
              λ e.
                  let n = ih.0 (sym kept ∙ e) in
                  (
                    (inr legal, n.0),
                    rw (labels_from-other label s c other) n.1,
                    ink_next nowhite c s other n.2,
                  ),
              λ n.
                  kept
                  ∙ ih.1 (
                    n.0.1,
                    rw (labels_from-other label s c other) at (n.1),
                    ink_back nowhite c s n.2,
                  ),
            )
      ]
]

length-without_dot : (s : List ℕ) → length (without_dot s) ≤ length s
unfolding without_dot
length-without_dot [] = omega arith
length-without_dot (c ∷ []) = ground arith
length-without_dot (c ∷ (d ∷ s)) = omega (arith, length-without_dot (d ∷ s))

-- A text of at most 1025 bytes is taken for a name exactly when, without a dot at its end, it is not
-- empty and has only dots and legal bytes, labels of at most 63 bytes, and a byte that is no dot and
-- no space.
pub canonicalise_iff :
    (s : List ℕ)
    → length s ≤ max_dname
    → ((canonicalise s).0 ≡ true) ↔ ((0 < length (without_dot s)) × IsName [] false (without_dot s))
unfolding canonicalise
canonicalise_iff s h = elim (Bool-cases (length (without_dot s) == 0)) [
  | inl empty ↦ (λ e. ground (arith, e, empty), λ n. ground (arith, n.0, empty))
  | inr some_left ↦
      let long : ltb max_dname (length s) ≡ false = ground arith in
      let any : (length s == 0) ≡ false = ground (arith, length-without_dot s, some_left) in
      let by_loop = canonicalise_loop_iff [] false (without_dot s) (omega arith) in
      rw (any, long, some_left) (λ e. (ground (arith, some_left), by_loop.0 e), λ n. by_loop.1 n.1)
]
