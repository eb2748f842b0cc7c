-- ===== src/Dnsmasq/Request/Laws.antt =====
-- `extract_request` of src/rfc1035.c in http1.0/src/dnsmasq/dnsmasq-2.45 on a question whose name
-- `do_rfc1035_name` of src/util.c wrote.
use mydns.Prelude.{
  ℕ, ◌+◌, ◌*◌, ◌≤◌, ◌<◌, ◌≡◌, refl, List, [], ◌∷◌, ◌++◌, arith, length, length-append, All, some,
  done, ntohs_at, subst,
}
use mydns.Dns.Labels.{labels, encode}
use mydns.Dns.Format.Encode.{length-encode-labels}
use mydns.Dns.ReadName.Wire.{Holds}
use mydns.Dns.RoundTrip.{Holds-append}
use mydns.Dnsmasq.Names.{do_rfc1035_name}
use mydns.Dnsmasq.Names.Laws.{EndsOpen, do_rfc1035_name-encode}
use mydns.Dnsmasq.Extract.Laws.{IsLegalLabel, extract_name-do_rfc1035_name}
use mydns.Dnsmasq.Pseudo.{opcode_of}
use mydns.Dnsmasq.Request.{asked_for, extract_request, behind_query}

-- A question: the name, its end, and two bytes each of type and class.
abbrev pub question : List ℕ → ℕ → ℕ → ℕ → ℕ → List ℕ
question sval t1 t2 c1 c2 = (do_rfc1035_name (some sval) ++ 0 ∷ []) ++ t1 ∷ t2 ∷ c1 ∷ c2 ∷ []

ntohs_at-Holds :
    (packet : List ℕ) (i hi lo : ℕ)
    → Holds packet i (hi ∷ lo ∷ [])
    → ntohs_at packet i ≡ done (hi * 256 + lo)
unfolding ntohs_at
ntohs_at-Holds packet i hi lo h = rw (h.0, h.1.0) refl

length-name :
    (sval : List ℕ)
    → EndsOpen sval
    → length sval < 256
    → length (do_rfc1035_name (some sval) ++ 0 ∷ []) ≡ length sval + 2
length-name sval open_ short =
    rw (do_rfc1035_name-encode sval open_ short)
      (omega (arith, length-append (encode (labels sval)) (0 ∷ []), length-encode-labels sval))

-- A packet that has one question, is a query, and from index 12 on holds the question for a name of
-- at most 255 bytes without a dot at its end, with labels of 1 to 63 legal bytes, with at least its
-- name inside `plen`, is read as that name, its type, and what type and class ask for. As many
-- rounds of fuel as the name has bytes, and two, are enough.
pub extract_request-question :
    (packet sval : List ℕ) (plen fuel b t1 t2 c1 c2 : ℕ)
    → Holds packet 2 (b ∷ [])
    → opcode_of b ≡ 0
    → Holds packet 4 (0 ∷ 1 ∷ [])
    → EndsOpen sval
    → length sval < 256
    → All IsLegalLabel (labels sval)
    → Holds packet 12 (question sval t1 t2 c1 c2)
    → 12 + length sval + 2 ≤ plen
    → length sval + 1 < fuel
    → extract_request packet plen fuel
      ≡ done (record {
        flags = asked_for (t1 * 256 + t2) (c1 * 256 + c2);
        name = some sval;
        typep = t1 * 256 + t2;
      })
unfolding extract_request behind_query
extract_request-question packet sval plen fuel b t1 t2 c1 c2 flags query one open_ short legal at
      inside enough =
    let (name, rest) =
      Holds-append packet (do_rfc1035_name (some sval) ++ 0 ∷ []) (t1 ∷ t2 ∷ c1 ∷ c2 ∷ []) 12 at in
    let place : 12 + length (do_rfc1035_name (some sval) ++ 0 ∷ []) ≡ 12 + length sval + 2 =
      omega (arith, length-name sval open_ short) in
    let r = 12 + length sval + 2 in
    let there : Holds packet (12 + length sval + 2) (t1 ∷ t2 ∷ c1 ∷ c2 ∷ []) =
      subst (λ i. Holds packet i (t1 ∷ t2 ∷ c1 ∷ c2 ∷ [])) place rest in
    let behind : Holds packet (r + 2) (c1 ∷ c2 ∷ []) =
      subst (λ i. Holds packet i (c1 ∷ c2 ∷ [])) (omega arith) there.1.1 in
    rw
      (
        ntohs_at-Holds packet 4 0 1 one,
        flags.0,
        query,
        extract_name-do_rfc1035_name packet sval plen fuel 12 open_ short legal name inside enough,
        ntohs_at-Holds packet r t1 t2 (there.0, (there.1.0, tt)),
        ntohs_at-Holds packet (r + 2) c1 c2 behind,
      )
      refl
