-- ===== src/Tests/Dns/Resolver.antt =====
-- Answers, queries and lookups at concrete inputs, for http1.0/src/zdns.c.
use mydns.Prelude.{
  ℕ, ◌+◌, ◌≡◌, ◌≢◌, refl, codes, List, [], ◌∷◌, ◌++◌, arith, length, All, done, replicate, Option,
  some, Bool, true, false, overlay, ◌>>=◌,
}
use mydns.Dns.Labels.{labels, labels_from, encode, IsPlainLabel}
use mydns.Dns.ReadName.Wire.{label, pointer, root}
use mydns.Dns.Answers.{show_answers, deal_recv, inet_ntoa, octet_text}
use mydns.Dns.Answers.Wire.{handed_out, address, WireAnswers, end, address_record}
use mydns.Dns.Answers.Laws.{deal_recv-show_answers}
use mydns.Dns.Resolver.{System, IpScan, is_ipaddr, valid_ip, pack_query, zgethostbyname, receive}
use mydns.Dns.Resolver.Query.{query, pack_query-query}
use mydns.Dns.Resolver.Laws.{IsQuery, zgethostbyname-reply}

-- A reply with one address for the name `a`.
abbrev datagram : List ℕ
datagram =
    0 ∷ 7 ∷ 129 ∷ 128 ∷ 0 ∷ 1 ∷ 0 ∷ 1 ∷ 0 ∷ 0 ∷ 0 ∷ 0 ∷ 1 ∷ b'a' ∷ 0 ∷ 0 ∷ 1 ∷ 0 ∷ 1 ∷ 192 ∷ 12 ∷ 0
    ∷ 1 ∷ 0 ∷ 1 ∷ 0 ∷ 0 ∷ 0 ∷ 9 ∷ 0 ∷ 4 ∷ 1 ∷ 2 ∷ 3 ∷ 4 ∷ []

abbrev malloc : ℕ → List ℕ
malloc n = replicate (n + 8) 7

abbrev answers_of : (rest : List ℕ) → WireAnswers 9 (datagram ++ rest) 19 (address 1 2 3 4 ∷ [])
answers_of rest =
    address_record
      (record {
        first = b'a' ∷ [];
        others = [];
        wire =
            pointer 192 12 (omega arith) refl refl
              (label (omega arith, omega arith, ((omega arith, omega arith), tt)) (refl, (refl, tt))
                (root refl refl) refl)
              refl;
        short = unfold encode in omega arith;
        enough = omega arith;
      })
      (refl, (refl, tt)) (refl, (refl, tt)) (refl, (refl, (refl, (refl, tt)))) end

deal_recv-show_answers_example :
    (deal_recv malloc 9 datagram 3 >>= show_answers datagram) ≡ handed_out 12 (address 1 2 3 4 ∷ [])
deal_recv-show_answers_example =
    deal_recv-show_answers malloc 9 datagram (omega arith) (omega arith) 3 (refl, (refl, tt))
      (omega arith) (answers_of [])

abbrev a_name : List ℕ
a_name = b'a' ∷ []

a_name_plain : All IsPlainLabel (labels a_name)
unfolding labels_from
a_name_plain = ((omega arith, omega arith, ((omega arith, omega arith), tt)), tt)

pack_query-query_example :
    pack_query (malloc 1024) 7 a_name 1
    ≡ done (overlay (query 7 a_name 1) (malloc 1024), length (encode (labels a_name)) + 1)
pack_query-query_example =
    pack_query-query (malloc 1024) 7 a_name 1 (omega arith) a_name_plain (omega arith)

abbrev scanned : ℕ → IpScan
scanned n = record { count = n; a = some 1; b = some 2; c = some 3; d = some 4; t = 0 }

-- A system on which `sscanf` reads `n` fields.
abbrev system : ℕ → Option Bool → Option (List ℕ) → System
system n selected received = record {
  pid = 7;
  scan = λ host. scanned n;
  malloc = malloc;
  selected = selected;
  received = received;
}

four_fields : is_ipaddr (scanned 4) ≡ valid_ip
unfolding is_ipaddr
four_fields = refl

no_fields : is_ipaddr (scanned 0) ≢ valid_ip
unfolding is_ipaddr
no_fields e = cc

a_name_query :
    (selected : Option Bool) (received : Option (List ℕ))
    → IsQuery (system 0 selected received) a_name
a_name_query selected received = record {
  no_ip = no_fields;
  short = omega arith;
  plain = a_name_plain;
  room = omega arith;
}

abbrev replied : System
replied = system 0 (some true) (some datagram)

abbrev replied_query : IsQuery replied a_name
replied_query = a_name_query (some true) (some datagram)

zgethostbyname-reply_example :
    zgethostbyname replied 9 a_name 1
    ≡ done (record {
      timed_out = false;
      ipstr = some (codes "1.2.3.4");
      sent = some (query 7 a_name 1);
    })
unfolding receive encode labels_from inet_ntoa octet_text
zgethostbyname-reply_example =
    zgethostbyname-reply replied 9 a_name 1 replied_query datagram (λ e. cc) refl (omega arith)
      (omega arith) (refl, (refl, tt)) (omega arith) (answers_of _)
