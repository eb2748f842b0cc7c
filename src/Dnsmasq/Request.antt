-- ===== src/Dnsmasq/Request.antt =====
-- `extract_request` of src/rfc1035.c in http1.0/src/dnsmasq/dnsmasq-2.45: what a query asks for.
pub mod Laws
use mydns.Prelude.{
  ℕ, ◌+◌, ◌/◌, ◌%◌, List, [], ◌==◌, ◌||◌, if◌then◌else◌, not, true, Option, none, some, Outcome,
  done, ◌>>=◌, read, ntohs_at,
}
use mydns.Dnsmasq.Arpa.{f_ipv4, f_ipv6}
use mydns.Dnsmasq.Extract.{Extracted, extract_name}
use mydns.Dnsmasq.Pseudo.{opcode_of}

-- F_BIGNAME and F_QUERY.
abbrev pub f_bigname : ℕ
f_bigname = 512

abbrev pub f_query : ℕ
f_query = 8192

-- The end of the function. C_IN is 1, and T_A, T_AAAA, T_ANY, T_NS and T_SOA are 1, 28, 255, 2 and 6.
unfoldable pub asked_for : ℕ → ℕ → ℕ
asked_for qtype qclass =
    if qclass == 1
    then (if qtype == 1
        then f_ipv4
        else if qtype == 28
        then f_ipv6
        else if qtype == 255
        then f_ipv4 + f_ipv6
        else if qtype == 2 || qtype == 6
        then f_query + f_bigname
        else f_query)
    else f_query

-- The result, the name that is written into the block, and `*typep`.
pub record Asked : Type 0 where
  pub flags : ℕ
  pub name : Option (List ℕ)
  pub typep : ℕ

abbrev pub no_request : Asked
no_request = record { flags = 0; name = none; typep = 0 }

-- Behind the name.
unfoldable pub behind_query : List ℕ → Option Extracted → Outcome Asked
behind_query packet none = done no_request
behind_query packet (some e) = do
  qtype ← ntohs_at packet e.p
  qclass ← ntohs_at packet (e.p + 2)
  done (record { flags = asked_for qtype qclass; name = some e.name; typep = qtype })

-- `extract_request`. What a name that is not read to its end leaves in the block is not stated.
unfoldable pub extract_request : List ℕ → ℕ → ℕ → Outcome Asked
extract_request packet qlen fuel = do
  qdcount ← ntohs_at packet 4
  flags ← read packet 2
  if not (qdcount == 1) || not (opcode_of flags == 0)
      then done no_request
      else (do o ← extract_name true packet qlen fuel 12 []; behind_query packet o)
