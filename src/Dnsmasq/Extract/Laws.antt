-- ===== src/Dnsmasq/Extract/Laws.antt =====
-- `extract_name` of src/rfc1035.c in http1.0/src/dnsmasq/dnsmasq-2.45 reads back the names that
-- `do_rfc1035_name` of src/util.c writes.
use mydns.Prelude.{
  ℕ, zero, suc, ◌+◌, ◌≤◌, ◌<◌, ◌≡◌, refl, sym, ap, ◌∙◌, List, [], ◌∷◌, ◌++◌, arith, length,
  length-append, append_assoc, append-nil, All, some, true, done, lt→ltb, gt→leb_false, get_elem?,
}
use mydns.Dns.Labels.{
  labels, encode, dotted, join, dotted-join, join-labels_from, labels_from-cons, length-le-encode,
}
use mydns.Dns.Format.Encode.{length-encode-labels}
use mydns.Dns.ReadName.Wire.{Holds}
use mydns.Dns.RoundTrip.{Holds-append}
use mydns.Dnsmasq.Names.{legal_char, do_rfc1035_name, max_dname}
use mydns.Dnsmasq.Names.Laws.{EndsOpen, do_rfc1035_name-encode}
use mydns.Dnsmasq.Extract.{
  Cursor, push, extract_label, label_out, round_of, extract_loop, extract_name, extract_end,
  start_at, without_last,
}

-- A label that the reader takes: 1 to 63 legal bytes.
abbrev pub IsLegalLabel : List ℕ → Type 0
IsLegalLabel l = (0 < length l) × (length l < 64) × All (λ c. legal_char c ≡ true) l

push-append : (name : List ℕ) (c : ℕ) → length name < 1025 → push name c ≡ done (name ++ c ∷ [])
unfolding push
push-append name c h = rw (lt→ltb (length name) max_dname h)

extract_label-next :
    (packet name : List ℕ) (n p c : ℕ)
    → get_elem? packet p ≡ some c
    → legal_char c ≡ true
    → length name < 1025
    → extract_label packet (suc n) p name ≡ extract_label packet n (p + 1) (name ++ c ∷ [])
unfolding extract_label
extract_label-next packet name n p c at legal fits =
    ground (arith, at, legal, push-append name c fits)

extract_label-append :
    (packet l name : List ℕ) (p : ℕ)
    → Holds packet p l
    → All (λ c. legal_char c ≡ true) l
    → length name + length l ≤ 1024
    → extract_label packet (length l) p name ≡ done (some (name ++ l))
unfolding extract_label
extract_label-append packet [] name p at legal fits = rw append-nil
extract_label-append packet (c ∷ l) name p at legal fits =
    extract_label-next packet name (length l) p c at.0 legal.0 (omega (arith, fits))
    ∙ extract_label-append packet l (name ++ c ∷ []) (p + 1) at.1 legal.1
        (omega (arith, fits, length-append name (c ∷ [])))
    ∙ ap (λ (t : List ℕ). done (some t)) (append_assoc name (c ∷ []) l)

round_of-label :
    (packet l name : List ℕ) (plen : ℕ) (c : Cursor)
    → c.name ≡ name
    → Holds packet c.p l
    → IsLegalLabel l
    → length name + length l < 1024
    → c.p < plen
    → round_of true packet plen (length l) c
      ≡ done (some (record c { p = c.p + length l; name = name ++ (l ++ b'.' ∷ []) }))
unfolding round_of label_out
round_of-label packet l name plen c e at legal fits inside =
    rw
      (
        e,
        gt→leb_false 192 (length l) (omega (arith, legal.1)),
        gt→leb_false 128 (length l) (omega (arith, legal.1)),
        gt→leb_false 64 (length l) legal.1,
        gt→leb_false max_dname (length name + length l + 1) (omega (arith, fits)),
        gt→leb_false plen c.p inside,
        extract_label-append packet l name c.p at legal.2 (omega (arith, fits)),
        push-append (name ++ l) b'.' (omega (arith, fits, length-append name l)),
      )
      (simp append_assoc)

-- The cursor behind the labels `ls` and the zero byte.
abbrev behind : Cursor → List (List ℕ) → Cursor
behind c ls = record c { p = c.p + length (encode ls) + 1; name = c.name ++ dotted ls }

extract_loop-round :
    (packet : List ℕ) (plen fuel l : ℕ) (c d : Cursor)
    → get_elem? packet c.p ≡ some l
    → 0 < l
    → round_of true packet plen l (record c { p = c.p + 1 }) ≡ done (some d)
    → d.p < plen
    → extract_loop true packet plen (suc fuel) c ≡ extract_loop true packet plen fuel d
unfolding extract_loop
extract_loop-round packet plen fuel l c d at pos e inside = ground (arith, at, pos, e, inside)

extract_loop-end :
    (packet : List ℕ) (plen fuel : ℕ) (c : Cursor)
    → get_elem? packet c.p ≡ some 0
    → extract_loop true packet plen (suc fuel) c ≡ done (some (record c { p = c.p + 1 }))
unfolding extract_loop
extract_loop-end packet plen fuel c at = rw at

extract_loop-labels :
    (packet : List ℕ) (plen fuel : ℕ) (ls : List (List ℕ)) (c : Cursor)
    → All IsLegalLabel ls
    → Holds packet c.p (encode ls ++ 0 ∷ [])
    → c.p + length (encode ls) < plen
    → length c.name + length (encode ls) ≤ 1024
    → length ls < fuel
    → extract_loop true packet plen fuel c ≡ done (some (behind c ls))
unfolding encode dotted
extract_loop-labels packet plen zero ls c legal at inside fits enough = absurd (omega arith)
extract_loop-labels packet plen (suc fuel) [] c legal at inside fits enough =
    extract_loop-end packet plen fuel c at.0
    ∙ ap (λ (x : ℕ × List ℕ). done (some (record c { p = x.0; name = x.1 })))
        (λ i. (place i, sym (append-nil c.name) i))
  where
    place : c.p + 1 ≡ c.p + 0 + 1
    place = omega arith
extract_loop-labels packet plen (suc fuel) (l ∷ ls) c legal at inside fits enough =
    let (first, rest) =
      Holds-append packet (length l ∷ l) (encode ls ++ 0 ∷ []) c.p (rw append_assoc at at) in
    let size = length-append l (encode ls) in
    let d = record c { p = c.p + 1 + length l; name = c.name ++ (l ++ b'.' ∷ []) } in
    let place : c.p + suc (length l) ≡ d.p = omega arith in
    extract_loop-round packet plen fuel (length l) c d first.0 legal.0.0
      (round_of-label packet l c.name plen (record c { p = c.p + 1 }) refl first.1 legal.0
        (omega (arith, fits, size)) (omega (arith, inside, size, legal.0.0)))
      (omega (arith, inside, size))
    ∙ extract_loop-labels packet plen fuel ls d legal.1 (rw place at rest)
        (omega (arith, inside, size))
        (omega
          (arith, fits, size, length-append c.name (l ++ b'.' ∷ []), length-append l (b'.' ∷ [])))
        (omega (arith, enough))
    ∙ (λ i. done (some (record c { p = total i; name = text i })))
  where
    total : c.p + 1 + length l + length (encode ls) + 1 ≡ c.p + suc (length (l ++ encode ls)) + 1
    total = omega (arith, length-append l (encode ls))

    text : c.name ++ (l ++ b'.' ∷ []) ++ dotted ls ≡ c.name ++ (l ++ b'.' ∷ dotted ls)
    text = simp append_assoc

without_last-append : (xs : List ℕ) (c : ℕ) → without_last (xs ++ c ∷ []) ≡ xs
unfolding without_last
without_last-append [] c = refl
without_last-append (x ∷ []) c = refl
without_last-append (x ∷ (y ∷ xs)) c = ap (◌∷◌ x) (without_last-append (y ∷ xs) c)

-- A name of at most 255 bytes without a dot at its end, with labels of 1 to 63 legal bytes, that
-- `do_rfc1035_name` wrote into a packet with a zero byte behind it and all of it inside `plen`, is
-- read out by `extract_name` as it was, and `*pp` stands behind the zero byte. As many rounds of fuel
-- as the name has bytes, and two, are enough.
pub extract_name-do_rfc1035_name :
    (packet sval : List ℕ) (plen fuel r : ℕ)
    → EndsOpen sval
    → length sval < 256
    → All IsLegalLabel (labels sval)
    → Holds packet r (do_rfc1035_name (some sval) ++ 0 ∷ [])
    → r + length sval + 2 ≤ plen
    → length sval + 1 < fuel
    → extract_name true packet plen fuel r []
      ≡ done (some (record { retvalue = 1; p = r + length sval + 2; name = sval }))
unfolding extract_name extract_end
extract_name-do_rfc1035_name packet sval plen fuel r open_ short legal at inside enough =
    let (l, ls, e) = labels_from-cons [] sval in
    let size = length-encode-labels sval in
    let runs =
      extract_loop-labels packet plen fuel (labels sval) (start_at r []) legal
        (rw (do_rfc1035_name-encode sval open_ short) at at) (omega (arith, inside, size))
        (omega (arith, size, short))
        (omega (arith, size, enough, length-le-encode (labels sval))) in
    let text : without_last (dotted (labels sval)) ≡ sval =
      rw (e, dotted-join l ls, without_last-append (join (l ∷ ls)) b'.')
        (rw e at (join-labels_from [] sval)) in
    let place : r + length (encode (labels sval)) + 1 ≡ r + length sval + 2 = omega (arith, size) in
    rw runs (λ i. done (some (record { retvalue = 1; p = place i; name = text i })))
