-- ===== src/Dns/RoundTrip.antt =====
-- `read_name` and `domain_format` of http1.0/src/zdns.c are inverse: a name that one wrote into a
-- message is read back by the other.
use mydns.Prelude.{
  ℕ, suc, ◌+◌, ◌<◌, ◌≤◌, ◌≡◌, List, [], ◌∷◌, ◌++◌, arith, length, length-append, done, c_text, All,
  append_assoc,
}
use native.Mathlib.Nat.{add-zero}
use mydns.Dns.Labels.{labels, labels_from-cons, join-labels_from, encode, IsPlainLabel}
use mydns.Dns.Format.{domain_format}
use mydns.Dns.Format.Encode.{domain_format-encode, length-encode-labels}
use mydns.Dns.ReadName.{read_name}
use mydns.Dns.ReadName.Wire.{Holds, WireName, root, label, rounds}
use mydns.Dns.ReadName.Laws.{Reads, read_name-WireName}

pub Holds-append :
    (buffer xs ys : List ℕ) (r : ℕ)
    → Holds buffer r (xs ++ ys)
    → Holds buffer r xs × Holds buffer (r + length xs) ys
Holds-append buffer [] ys r h = (tt, rw add-zero h)
Holds-append buffer (x ∷ xs) ys r h =
    let (left, right) = Holds-append buffer xs ys (r + 1) h.1 in
    let place : r + 1 + length xs ≡ r + suc (length xs) = omega arith in
    ((h.0, left), rw (← place) right)

-- Labels written one behind the other, with a zero byte at the end, are a name in wire form.
encode-WireName :
    (buffer : List ℕ) (ls : List (List ℕ)) (r : ℕ)
    → All IsPlainLabel ls
    → Holds buffer r (encode ls ++ 0 ∷ [])
    → (w : WireName buffer r ls (length (encode ls) + 1)) × (rounds w ≤ length (encode ls) + 1)
unfolding encode
encode-WireName buffer [] r plain h = (root h.0 (omega arith), omega arith)
encode-WireName buffer (l ∷ ls) r plain h =
    let (first, rest) =
      Holds-append buffer (length l ∷ l) (encode ls ++ 0 ∷ []) r (rw append_assoc at h) in
    let (w, few) = encode-WireName buffer ls (r + suc (length l)) plain.1 rest in
    (
      label plain.0 first w (omega (arith, length-append l (encode ls))),
      omega (arith, length-append l (encode ls)),
    )

read_name-encode :
    (buffer block : List ℕ) (l : List ℕ) (ls : List (List ℕ)) (r fuel : ℕ)
    → All IsPlainLabel (l ∷ ls)
    → Holds buffer r (encode (l ∷ ls) ++ 0 ∷ [])
    → length (encode (l ∷ ls)) < 256
    → length (encode (l ∷ ls)) + 1 ≤ fuel
    → 256 ≤ length block
    → Reads (l ∷ ls) (length (encode (l ∷ ls)) + 1) (read_name block buffer fuel r)
read_name-encode buffer block l ls r fuel plain at short enough room =
    let (w, few) = encode-WireName buffer (l ∷ ls) r plain at in
    read_name-WireName w block fuel (omega arith) room short

-- A name of at most 30 bytes, whose labels between the dots are not empty and have only bytes from 1
-- to 191 other than the dot, written by `domain_format` where `buffer` is read from index `r`, is
-- read back by `read_name` into a block of 256 bytes or more, with the count of the bytes that it
-- takes. As many rounds of fuel as the name has bytes, and two, are enough.
pub read_name-domain_format :
    (tmp qname buffer block : List ℕ) (r fuel : ℕ)
    → length tmp ≤ 30
    → All IsPlainLabel (labels tmp)
    → domain_format tmp ≡ done qname
    → Holds buffer r qname
    → 256 ≤ length block
    → length tmp + 2 ≤ fuel
    → (name : List ℕ) × (read_name block buffer fuel r ≡ done (name, length tmp + 2))
      × (c_text name ≡ tmp)
read_name-domain_format tmp qname buffer block r fuel short plain wrote at room enough =
    let (l, ls, e) = labels_from-cons [] tmp in
    let written : qname ≡ encode (l ∷ ls) ++ 0 ∷ [] =
      cc (domain_format-encode tmp short, wrote, e) in
    let size : length (encode (l ∷ ls)) ≡ suc (length tmp) = rw e at (length-encode-labels tmp) in
    let reads =
      read_name-encode buffer block l ls r fuel (rw e at plain) (rw written at at) (omega arith)
        (omega arith) room in
    let count : length (encode (l ∷ ls)) + 1 ≡ length tmp + 2 = omega arith in
    (reads.name, rw (← count) reads.returns, cc (reads.text_is, e, join-labels_from [] tmp))
