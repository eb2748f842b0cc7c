-- ===== src/Tests/Http.antt =====
-- Requests and responses at concrete inputs, for http1.0/src/zhttp.c.
use mydns.Prelude.{
  ℕ, zero, suc, ◌<◌, ◌≡◌, refl, List, [], ◌∷◌, ◌++◌, arith, length, drop, replicate, overlay, codes,
  decimal, Option, some, none, Bool, true, false, done, pos, All,
}
use mydns.Dns.Resolver.{System, is_ipaddr, valid_ip}
use mydns.Dns.Resolver.Laws.{zgethostbyname-ip, zdns_srv_lem}
use mydns.Http.Search.{starts, find, crlf_crlf}
use mydns.Http.Search.Laws.{Splits}
use mydns.Http.Send.{IsProgress, SaysSent, send_request, send_request-SaysSent}
use mydns.Http.Download.{process_download}
use mydns.Http.Download.Laws.{process_download-body}
use mydns.Http.Request.{connect_to_server, Kind, post, Network, header_of, post_hdr, http_1_0_post}
use mydns.Prelude.{◌≤◌}
use mydns.Http.Request.Answers.{get_request, http_1_0_get-handed_out}
use mydns.Http.Request.{get, get_hdr, http_1_0_get}
use mydns.Http.Request.Laws.{IsAddressed, http_1_0_post-reply}

abbrev resp : List ℕ
resp = b'h' ∷ crlf_crlf ++ b'x' ∷ []

send_request-SaysSent_example : SaysSent resp (send_request resp (some 2 ∷ none ∷ []))
send_request-SaysSent_example = send_request-SaysSent resp (some 2 ∷ none ∷ [])

abbrev writes : List (Option ℕ)
writes = some 1 ∷ some 1 ∷ []

resp_Splits : Splits resp (b'h' ∷ []) (b'x' ∷ [])
resp_Splits = record { whole = refl; first = before }
  where
    before : (n : ℕ) → n < 1 → starts (drop n resp) ≡ false
    before zero h = unfold starts in refl
    before (suc n) h = absurd (omega arith)

process_download-body_example :
    process_download true (resp ∷ (b'a' ∷ b'b' ∷ b'c' ∷ b'd' ∷ b'e' ∷ b'f' ∷ []) ∷ [])
    ≡ done (some (codes "xabcdef"))
unfolding find starts
process_download-body_example =
    process_download-body resp (b'h' ∷ []) (b'x' ∷ []) (codes "abcdef" ∷ []) resp_Splits
      (omega arith, (omega arith, (omega arith, (omega arith, (omega arith, (omega arith, tt))))))
      (omega arith)
      (
        (
          omega arith,
          omega arith,
          omega arith,
          (
            omega arith,
            (omega arith, (omega arith, (omega arith, (omega arith, (omega arith, tt))))),
          ),
          refl,
        ),
        tt,
      )

-- A system that resolves an address in decimal to itself.
abbrev resolver : System
resolver = record {
  pid = 7;
  scan = λ host. record { count = 4; a = some 1; b = some 2; c = some 3; d = some 4; t = 0 };
  malloc = λ n. [];
  selected = none;
  received = none;
}

scanned_address : (host : List ℕ) → is_ipaddr (resolver.scan host) ≡ valid_ip
unfolding is_ipaddr
scanned_address host = refl

abbrev ip : List ℕ
ip = codes "1.2.3.4"

abbrev net : Bool → Option Bool → Option (List ℕ) → List (List ℕ) → Network
net connects selected first_read chunks = record {
  resolver = resolver;
  fuel = 0;
  socket = some 3;
  inet_pton = λ text. true;
  connect = λ sock text. connects;
  writes = replicate 200 (some 300);
  selected = selected;
  first_read = first_read;
  opened = true;
  chunks = chunks;
  stack_ip = [];
}

addressed :
    (kind : Kind) (n : Network)
    → n.resolver ≡ resolver
    → (body : List ℕ) → length (header_of kind (codes "/") ip (length body)) < 1024
    → IsAddressed kind n [] ip (codes "/") body ip
addressed kind n e body h = record {
  server' = codes "223.5.5.5";
  resolution = record { timed_out = false; ipstr = some ip; sent = none };
  resolves =
      rw e
        (zdns_srv_lem resolver n.fuel [] ip (codes "223.5.5.5")
          (zgethostbyname-ip resolver n.fuel ip 1 (scanned_address ip))).1;
  found = refl;
  ip_fits = omega arith;
  hdr_fits = h;
}

abbrev posting : Option Bool → Option (List ℕ) → Network
posting selected first_read = net true selected first_read []

post_IsAddressed :
    (selected : Option Bool) (first_read : Option (List ℕ))
    → IsAddressed post (posting selected first_read) [] ip (codes "/") (codes "k=v") ip
unfolding header_of post_hdr decimal
post_IsAddressed selected first_read =
    addressed post (posting selected first_read) refl (codes "k=v") (omega arith)

abbrev request : List ℕ
request = header_of post (codes "/") ip 3 ++ codes "k=v"

request_fits : length request < 200
unfolding header_of post_hdr decimal
request_fits = omega arith

replicate-IsProgress : (n : ℕ) → All IsProgress (replicate n (some 300))
replicate-IsProgress zero = tt
replicate-IsProgress (suc n) = (omega arith, replicate-IsProgress n)

replicate_200-IsProgress : All IsProgress (replicate 200 (some 300))
replicate_200-IsProgress = replicate-IsProgress 200

http_1_0_post-reply_example :
    http_1_0_post (posting (some true) (some resp)) [] ip (codes "/") (codes "k=v")
    ≡ done (record {
      result = pos 0;
      resp = some (some (overlay resp (replicate 1024 0)), some 6);
      sent = request;
      file = none;
    })
unfolding connect_to_server
http_1_0_post-reply_example =
    http_1_0_post-reply (posting (some true) (some resp)) [] ip (codes "/") (codes "k=v") ip
      (post_IsAddressed (some true) (some resp)) resp (omega (arith, request_fits)) refl
      replicate_200-IsProgress (omega (arith, request_fits)) refl refl (omega arith) (omega arith)

abbrev getting : Network
getting = posting (some true) none

get_IsAddressed : IsAddressed get getting [] ip (codes "/") [] ip
unfolding header_of get_hdr
get_IsAddressed = addressed get getting refl [] (omega arith)

get_fits : length (get_request ip (codes "/")) ≤ 200
unfolding header_of get_hdr
get_fits = omega arith

-- `read` fails.
http_1_0_get-handed_out_example :
    http_1_0_get getting [] ip (codes "/")
    ≡ done (record {
      result = pos 0;
      resp = some (some (replicate 1024 0), none);
      sent = get_request ip (codes "/");
      file = none;
    })
unfolding connect_to_server
http_1_0_get-handed_out_example =
    http_1_0_get-handed_out getting [] ip (codes "/") ip get_IsAddressed refl
      replicate_200-IsProgress (omega (arith, get_fits))
