-- ===== src/Http/Request/Answers.antt =====
-- What a GET or POST of http1.0/src/zhttp.c gives for every course of its exchange.
use mydns.Prelude.{
  ℕ, suc, ◌≤◌, ◌≡◌, refl, ◌∙◌, List, [], ◌++◌, arith, length, take, Option, none, some, true, false,
  done, overlay, replicate, ℤ, pos, negsuc, All, append-nil, ◌==◌, Bool, ◌∷◌, length-append,
}
use mydns.Dns.Resolver.{isready_read}
use mydns.Http.Send.{IsProgress}
use mydns.Http.Request.{
  is_open, connect_to_server, Kind, get, header_of, Network, process_post_get, by_type,
  socket_adapter_request, answered, http_1_0_get,
}
use mydns.Http.Request.Laws.{
  IsAddressed, sent_of, sent_of-request, process-connected, socket_adapter_request-process,
}

-- What is handed out when `select` gave `selected` and the first `read` gave `first_read`: the result,
-- and the block with its length.
abbrev pub handed_out : Option Bool → Option (List ℕ) → ℤ × Option (Option (List ℕ) × Option ℕ)
handed_out none first_read = (negsuc 0, none)
handed_out (some false) first_read = (negsuc 0, none)
handed_out (some true) none = (pos 0, some (some (replicate 1024 0), none))
handed_out (some true) (some []) = (pos 0, none)
handed_out (some true) (some (b ∷ bytes)) = (
  pos 0,
  some (
    some (overlay (take 1024 (b ∷ bytes)) (replicate 1024 0)),
    some (length (take 1024 (b ∷ bytes))),
  ),
)

suc-ne_zero : (n : ℕ) → (suc n == 0) ≡ false
suc-ne_zero n = ground arith

answered-handed_out :
    (selected : Option Bool) (first_read : Option (List ℕ)) (sent : List ℕ)
    → answered (process_post_get (isready_read selected) first_read sent) ≡ record {
      result = (handed_out selected first_read).0;
      resp = (handed_out selected first_read).1;
      sent = sent;
      file = none;
    }
unfolding process_post_get isready_read
answered-handed_out none none sent = refl
answered-handed_out none (some bytes) sent = refl
answered-handed_out (some false) none sent = refl
answered-handed_out (some false) (some bytes) sent = refl
answered-handed_out (some true) none sent = refl
answered-handed_out (some true) (some []) sent = refl
answered-handed_out (some true) (some (b ∷ bytes)) sent =
    rw (suc-ne_zero (length (take 1023 bytes)))

module _ (kind : Kind) (net : Network) (server host uri body ip : List ℕ)
    (a : IsAddressed kind net server host uri body ip) where
  abbrev request : List ℕ
  request = header_of kind uri host (length body) ++ body

  -- The exchange over a connection, for a request that the block holds.
  exchanged :
      length request ≤ 1024
      → is_open (connect_to_server net ip) ≡ true
      → by_type kind net true (sent_of net request)
        ≡ done (process_post_get (isready_read net.selected) net.first_read (sent_of net request))
      → socket_adapter_request kind net server host uri body
        ≡ done (
          a.server',
          process_post_get (isready_read net.selected) net.first_read (sent_of net request),
        )
  exchanged fits c e = socket_adapter_request-process kind net server host uri body ip a _ (
      process-connected kind net (header_of kind uri host (length body)) ip body
        (omega (arith, length-append (header_of kind uri host (length body)) body)) c
      ∙ e)

abbrev pub get_request : List ℕ → List ℕ → List ℕ
get_request host uri = header_of get uri host 0

-- A GET whose host is resolved, whose header fits its array, whose connection stands and whose bytes
-- `write` takes, one or more at a time, is sent whole and returns for every course of the exchange:
-- without a response in time the result is -1 and nothing is handed out; when `read` fails, the
-- result is 0 and a cleared block is handed out with the length -1; when the server closes, the
-- result is 0 and nothing is handed out; and of the bytes that come, 1024 are handed out with their
-- number.
pub http_1_0_get-handed_out :
    (net : Network) (server host uri ip : List ℕ)
    → IsAddressed get net server host uri [] ip
    → is_open (connect_to_server net ip) ≡ true
    → All IsProgress net.writes
    → length (get_request host uri) ≤ length net.writes
    → http_1_0_get net server host uri
      ≡ done (record {
        result = (handed_out net.selected net.first_read).0;
        resp = (handed_out net.selected net.first_read).1;
        sent = get_request host uri;
        file = none;
      })
unfolding http_1_0_get by_type
http_1_0_get-handed_out net server host uri ip a c progress enough =
    let small : length (get_request host uri ++ []) ≤ 1024 =
      omega (arith, a.hdr_fits, length-append (get_request host uri) []) in
    let whole : sent_of net (get_request host uri ++ []) ≡ get_request host uri =
      rw append-nil (sent_of-request net (get_request host uri) progress enough) in
    rw (
      exchanged get net server host uri [] ip a small c refl,
      answered-handed_out net.selected net.first_read _,
      whole,
    )
