-- ===== src/Dns/Labels.antt =====
-- What a domain name means, independent of the code of http1.0/src/zdns.c: its labels, their
-- text with dots, and their encoding in a message (RFC 1035, section 3.1).
use mydns.Prelude.{
  ℕ, ◌<◌, ◌≤◌, ◌≡◌, ◌≢◌, refl, sym, ap, ◌∙◌, List, [], ◌∷◌, ◌++◌, arith, length, All, IsText,
  if◌then◌else◌, ◌==◌, length-append, append_assoc, append-nil, All-append, Bool-cases, inl, inr,
  ==_iff,
}

-- The labels of a dotted name, `label` being the part of the first that was read already.
unfoldable pub labels_from : List ℕ → List ℕ → List (List ℕ)
labels_from label [] = label ∷ []
labels_from label (c ∷ cs) =
    let closed = labels_from [] cs in
    let open_ = labels_from (label ++ c ∷ []) cs in if c == b'.' then label ∷ closed else open_

abbrev pub labels : List ℕ → List (List ℕ)
labels = labels_from []

-- Each label behind its length.
unfoldable pub encode : List (List ℕ) → List ℕ
encode [] = []
encode (l ∷ ls) = length l ∷ (l ++ encode ls)

-- Each label in front of a dot.
unfoldable pub dotted : List (List ℕ) → List ℕ
dotted [] = []
dotted (l ∷ ls) = l ++ b'.' ∷ dotted ls

-- The labels with dots between them.
unfoldable pub join : List (List ℕ) → List ℕ
join [] = []
join (l ∷ []) = l
join (l ∷ (m ∷ ls)) = l ++ b'.' ∷ join (m ∷ ls)

-- A label that the code can read: it is not empty, and no byte of it is a terminator or looks
-- like a compression pointer.
abbrev pub IsPlainByte : ℕ → Type 0
IsPlainByte b = (b ≢ 0) × (b < 192)

abbrev pub IsPlainLabel : List ℕ → Type 0
IsPlainLabel l = (0 < length l) × (length l < 64) × All IsPlainByte l

pub dotted-join : (l : List ℕ) (ls : List (List ℕ)) → dotted (l ∷ ls) ≡ join (l ∷ ls) ++ b'.' ∷ []
unfolding dotted join
dotted-join l [] = refl
dotted-join l (m ∷ ls) =
    ap (λ t. l ++ b'.' ∷ t) (dotted-join m ls)
    ∙ sym (append_assoc l (b'.' ∷ join (m ∷ ls)) (b'.' ∷ []))

pub labels_from-cons :
    (label cs : List ℕ) → (l : List ℕ) × (ls : List (List ℕ)) × (labels_from label cs ≡ l ∷ ls)
unfolding labels_from
labels_from-cons label [] = (label, [], refl)
labels_from-cons label (c ∷ cs) = elim (Bool-cases (c == b'.')) [
  | inl dot ↦ (label, labels_from [] cs, rw dot)
  | inr other ↦ rw other (labels_from-cons (label ++ c ∷ []) cs)
]

join-cons :
    (l : List ℕ) (ls : List (List ℕ)) {m : List ℕ} {ms : List (List ℕ)}
    → ls ≡ m ∷ ms
    → join (l ∷ ls) ≡ l ++ b'.' ∷ join ls
unfolding join
join-cons l [] e = cc
join-cons l (m ∷ ms) e = refl

-- Joining the labels of a name with dots gives the name back.
pub join-labels_from : (label cs : List ℕ) → join (labels_from label cs) ≡ label ++ cs
unfolding labels_from
join-labels_from label [] = unfold join in sym (append-nil label)
join-labels_from label (c ∷ cs) = elim (Bool-cases (c == b'.')) [
  | inl dot ↦
      let (_, _, e) = labels_from-cons [] cs in
      rw (dot, join-cons label (labels_from [] cs) e, join-labels_from [] cs, (==_iff c b'.').0 dot)
  | inr other ↦ rw other (join-labels_from (label ++ c ∷ []) cs ∙ append_assoc label (c ∷ []) cs)
]

pub length-dotted : (ls : List (List ℕ)) → length (dotted ls) ≡ length (encode ls)
unfolding dotted encode
length-dotted [] = refl
length-dotted (l ∷ ls) =
    omega (arith, length-append l (b'.' ∷ dotted ls), length-append l (encode ls), length-dotted ls)

pub length-le-encode : (ls : List (List ℕ)) → length ls ≤ length (encode ls)
unfolding encode
length-le-encode [] = omega arith
length-le-encode (l ∷ ls) = omega (arith, length-append l (encode ls), length-le-encode ls)

pub plain-IsText : (l : List ℕ) → All IsPlainByte l → IsText l
plain-IsText [] p = p
plain-IsText (b ∷ bs) p = (p.0.0, plain-IsText bs p.1)

pub encode-IsText : (ls : List (List ℕ)) → All IsPlainLabel ls → IsText (encode ls)
unfolding encode
encode-IsText [] p = p
encode-IsText (l ∷ ls) p =
    (omega arith, All-append _ l (encode ls) (plain-IsText l p.0.2) (encode-IsText ls p.1))
