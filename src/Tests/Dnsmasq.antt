-- ===== src/Tests/Dnsmasq.antt =====
-- Names and messages at concrete inputs, for src/util.c and src/rfc1035.c of
-- http1.0/src/dnsmasq/dnsmasq-2.45.
use mydns.Prelude.{Bool, true, done, ◌≡◌, ◌↔◌, [], ◌∷◌, arith}
use mydns.Dnsmasq.Hex.Masked.{AgreesUpTo, memcmp_masked_iff}
use mydns.Dnsmasq.Hex.{memcmp_masked}
use mydns.Prelude.{
  ℕ, ◌+◌, ◌*◌, ◌<◌, ◌≡◌, ◌↔◌, refl, List, [], ◌∷◌, arith, length, All, replicate, codes, Option,
  some, none, true, false, done, ltb, decimal, if◌then◌else◌, ◌-◌, ◌/◌, ◌%◌,
}
use mydns.Dns.Labels.{labels, labels_from}
use mydns.Dnsmasq.Names.{legal_char, canonicalise, without_dot, do_rfc1035_name, rfc1035_loop}
use mydns.Dnsmasq.Names.Laws.{IsName, canonicalise_iff}
use mydns.Dnsmasq.Extract.{Extracted, extract_name}
use mydns.Dnsmasq.Extract.Safe.{FitsBlock, extract_name-returns}
use mydns.Dnsmasq.Extract.Laws.{IsLegalLabel, extract_name-do_rfc1035_name}
use mydns.Dnsmasq.Hex.{print_mac, hex2, hex_digit, parse_hex}
use mydns.Dnsmasq.Hex.Laws.{parse_hex-print_mac}
use mydns.Dnsmasq.Pseudo.{Pseudo, find_pseudoheader}
use mydns.Dnsmasq.Pseudo.Laws.{IsFound, find_pseudoheader-IsFound}
use mydns.Dnsmasq.Arpa.{in_arpa_name_2_addr, f_ipv4}
use mydns.Dnsmasq.Arpa.Laws.{in_arpa_name_2_addr-octets}
use mydns.Dns.Labels.{dotted}
use mydns.Dnsmasq.Rand.{Rand, rand16}
use mydns.Dnsmasq.Rand.Laws.{IsDrawn, rand16-IsDrawn}
use mydns.Dnsmasq.Skip.{resize_packet}
use mydns.Dnsmasq.Request.{asked_for, extract_request}
use mydns.Dnsmasq.Request.Laws.{extract_request-question}
use mydns.Dnsmasq.Skip.Resize.{IsSized, resize_packet-IsSized}

canonicalise_iff_example :
    ((canonicalise (codes "a.b.")).0 ≡ true)
    ↔ ((0 < length (without_dot (codes "a.b."))) × IsName [] false (without_dot (codes "a.b.")))
canonicalise_iff_example = canonicalise_iff (codes "a.b.") (omega arith)

abbrev packet : List ℕ
packet = 192 ∷ 0 ∷ replicate 80 0

-- A pointer to itself.
extract_name-returns_example :
    (o : Option Extracted) × (extract_name true packet 14 4000 0 [] ≡ done o) × FitsBlock o
extract_name-returns_example =
    extract_name-returns packet 14 (omega arith) true 4000 0 [] (omega arith) (omega arith)
      (omega arith)

abbrev written : List ℕ
written = 1 ∷ b'a' ∷ 1 ∷ b'b' ∷ 0 ∷ []

legal_labels : All IsLegalLabel (labels (codes "a.b"))
unfolding labels_from legal_char
legal_labels =
    ((omega arith, omega arith, (refl, tt)), ((omega arith, omega arith, (refl, tt)), tt))

extract_name-do_rfc1035_name_example :
    extract_name true written 5 5 0 []
    ≡ done (some (record { retvalue = 1; p = 5; name = codes "a.b" }))
unfolding do_rfc1035_name rfc1035_loop
extract_name-do_rfc1035_name_example =
    extract_name-do_rfc1035_name written (codes "a.b") 5 5 0 (λ e. cc) (omega arith) legal_labels
      (refl, (refl, (refl, (refl, (refl, tt))))) (omega arith) (omega arith)

-- A query for the address of `a.b`.
abbrev query : List ℕ
query = 0 ∷ 7 ∷ 1 ∷ 0 ∷ 0 ∷ 1 ∷ 0 ∷ 0 ∷ 0 ∷ 0 ∷ 0 ∷ 0 ∷ 1 ∷ b'a' ∷ 1 ∷ b'b' ∷ 0 ∷ 0 ∷ 1 ∷ 0 ∷ 1 ∷ []

extract_request-question_example :
    extract_request query 21 5 ≡ done (record { flags = 128; name = some (codes "a.b"); typep = 1 })
unfolding do_rfc1035_name rfc1035_loop asked_for
extract_request-question_example =
    extract_request-question query (codes "a.b") 21 5 1 0 1 0 1 (refl, tt) refl (refl, (refl, tt))
      (λ e. cc) (omega arith) legal_labels
      (refl, (refl, (refl, (refl, (refl, (refl, (refl, (refl, (refl, tt))))))))) (omega arith)
      (omega arith)

packet_bytes : All (λ b. b < 256) packet
packet_bytes = omega arith

resize_packet-IsSized_example :
    (x : List ℕ × ℕ) × (resize_packet packet 14 100 (some 3) 11 ≡ done x) × IsSized packet 25 x
resize_packet-IsSized_example =
    resize_packet-IsSized packet 14 (omega arith) packet_bytes 100 (omega arith) (some 3) 11
      (omega arith) (λ p e. let at : 3 ≡ p = cc in omega (arith, at)) (omega arith)

-- The value of a lower-case hexadecimal digit.
abbrev digit_value : ℕ → ℕ
digit_value c = if ltb c 58 then c - 48 else c - 87

abbrev two_digits : List ℕ → ℕ
two_digits (a ∷ b ∷ []) = digit_value a * 16 + digit_value b
two_digits _ = 0

digit_value-hex_digit : (d : ℕ) → d < 16 → digit_value (hex_digit d) ≡ d
unfolding hex_digit
digit_value-hex_digit d h = ground arith

two_digits-hex2 : (b : ℕ) → b < 256 → two_digits (hex2 b) ≡ b
two_digits-hex2 b h =
    let high = digit_value-hex_digit (b / 16) (omega arith) in
    let low = digit_value-hex_digit (b % 16) (omega arith) in omega (arith, high, low)

parse_hex-print_mac_example :
    parse_hex two_digits (print_mac (18 ∷ 171 ∷ [])) (replicate 3 7) none false
    ≡ done (record { i = 2; mask = 0; out = 18 ∷ 171 ∷ 7 ∷ []; mac_type = 0; wants = false })
parse_hex-print_mac_example =
    parse_hex-print_mac two_digits 18 (171 ∷ []) (replicate 3 7) two_digits-hex2
      (omega arith, (omega arith, tt)) (omega arith)

find_pseudoheader-IsFound_example :
    (s : Pseudo) × (find_pseudoheader true packet 14 100 ≡ done s) × IsFound 14 s
find_pseudoheader-IsFound_example =
    find_pseudoheader-IsFound packet 14 (omega arith) packet_bytes 100 (omega arith) (omega arith)
      true

-- The value of a decimal text.
abbrev value_from : ℕ → List ℕ → ℕ
value_from n [] = n
value_from n (c ∷ cs) = value_from (n * 10 + (c - 48)) cs

decimal-value : (n : ℕ) → n < 256 → value_from 0 (decimal 3 n) ≡ n
unfolding decimal
decimal-value n h = ground arith

in_arpa_name_2_addr-octets_example :
    in_arpa_name_2_addr (value_from 0) (codes "9.2.0.192.in-addr.arpa") []
    ≡ record { flags = f_ipv4; addr = 192 ∷ 0 ∷ 2 ∷ 9 ∷ replicate 12 0 }
unfolding decimal dotted
in_arpa_name_2_addr-octets_example =
    in_arpa_name_2_addr-octets (value_from 0) 9 (2 ∷ 0 ∷ 192 ∷ []) [] decimal-value
      (omega arith, (omega arith, (omega arith, (omega arith, tt)))) (omega arith)

-- The next block carries into the second word.
abbrev drained : Rand
drained = record {
  seed = replicate 32 5;
  input = 4294967295 ∷ 7 ∷ replicate 10 0;
  out = replicate 8 0;
  outleft = 0;
}

rand16-IsDrawn_example :
    (n : ℕ) × (next : Rand) × (rand16 drained ≡ done (n, next)) × IsDrawn drained n next
rand16-IsDrawn_example =
    rand16-IsDrawn drained
      (refl, (omega arith, omega arith), omega arith, λ h. absurd (omega (arith, h)))

memcmp_masked_iff_example :
    (r : Bool) × (memcmp_masked (1 ∷ 2 ∷ []) (1 ∷ 3 ∷ []) 2 1 ≡ done r)
    × ((r ≡ true) ↔ AgreesUpTo (1 ∷ 2 ∷ []) (1 ∷ 3 ∷ []) 2 1)
memcmp_masked_iff_example =
    memcmp_masked_iff (1 ∷ 2 ∷ []) (1 ∷ 3 ∷ []) 2 1 (omega arith) (omega arith)
