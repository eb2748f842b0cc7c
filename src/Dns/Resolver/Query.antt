-- ===== src/Dns/Resolver/Query.antt =====
-- The query that http1.0/src/zdns.c sends.
use mydns.Prelude.{
  ℕ, ◌+◌, ◌≤◌, ◌≡◌, refl, List, [], ◌∷◌, ◌++◌, arith, length, length-append, append_assoc, overlay,
  store-overlay, strlen, strlen-append, done, All, htons, u16,
}
use mydns.Dns.Labels.{labels, encode, encode-IsText, IsPlainLabel}
use mydns.Dns.Format.Encode.{domain_format-encode, length-encode-labels}
use mydns.Dns.Answers.{header_size}
use mydns.Dns.Resolver.{header_bytes, pack_dnshdr, pack_query}

-- A standard query with one question, recursion desired (RFC 1035, section 4.1.1).
abbrev pub query_header : ℕ → List ℕ
query_header pid = htons (u16 pid) ++ (1 ∷ 0 ∷ 0 ∷ 1 ∷ 0 ∷ 0 ∷ 0 ∷ 0 ∷ 0 ∷ 0 ∷ [])

-- The question behind it: the name, its type and the class IN.
abbrev pub question : List ℕ → ℕ → List ℕ
question host query_type = (encode (labels host) ++ 0 ∷ []) ++ (htons query_type ++ htons 1)

abbrev pub query : ℕ → List ℕ → ℕ → List ℕ
query pid host query_type = query_header pid ++ question host query_type

header_bytes-query : (pid : ℕ) → header_bytes (pack_dnshdr pid) ≡ query_header pid
unfolding header_bytes pack_dnshdr
header_bytes-query pid = refl

abbrev name_bytes : List ℕ → List ℕ
name_bytes host = encode (labels host) ++ 0 ∷ []

strlen-name_bytes :
    (host rest : List ℕ)
    → All IsPlainLabel (labels host)
    → strlen (name_bytes host ++ rest) ≡ done (length (encode (labels host)))
strlen-name_bytes host rest plain =
    rw append_assoc (strlen-append (encode (labels host)) rest (encode-IsText (labels host) plain))

-- For a name of at most 30 bytes with plain labels and a block of 1024 bytes or more, the block holds
-- the query at its start, and `qname_len` is the length of the encoded name.
pub pack_query-query :
    (buf : List ℕ) (pid : ℕ) (host : List ℕ) (query_type : ℕ)
    → length host ≤ 30
    → All IsPlainLabel (labels host)
    → 1024 ≤ length buf
    → pack_query buf pid host query_type
      ≡ done (overlay (query pid host query_type) buf, length (encode (labels host)) + 1)
unfolding pack_query
pack_query-query buf pid host query_type short plain room =
    let named = length-append (encode (labels host)) (0 ∷ []) in
    let small = length-encode-labels host in
    let last =
      store-overlay (htons query_type ++ htons 1) (query_header pid ++ name_bytes host) buf
        (header_size + (length (encode (labels host)) + 1)) (omega (arith, named))
        (omega (arith, named, small)) in
    rw (
      header_bytes-query pid,
      store-overlay (query_header pid) [] buf 0 refl (omega arith),
      domain_format-encode host short,
      store-overlay (name_bytes host) (query_header pid) buf 12 refl (omega (arith, named, small)),
      strlen-name_bytes host _ plain,
      last,
    )
