-- ===== src/Http/Request.antt =====
-- The requests of http1.0/src/zhttp.c, from `http_1_0_post`, `http_1_0_get` and
-- `http_1_0_download` down to the socket.
pub mod Laws
pub mod Answers
use mydns.Prelude.{
  ℕ, ◌+◌, ◌-◌, ◌<◌, ◌≡◌, List, [], ◌∷◌, ◌++◌, length, take, ltb, if◌then◌else◌, Option, none, some,
  Bool, true, false, Outcome, done, fault, ◌>>=◌, overlay, replicate, ℤ, pos, negsuc, codes,
  decimal, ◌==◌,
}
use mydns.Dns.Resolver.{
  System, Resolution, Ready, select_error, not_ready, is_ready, isready_read, zdns_srv,
}
use mydns.Http.Send.{SendEnd, Sending, send_request}
use mydns.Http.Download.{buff_size, process_download}

pub data Kind : Type 0 where
  get post download : Kind

abbrev pub crlf : List ℕ
crlf = 13 ∷ 10 ∷ []

abbrev pub content_type : List ℕ
content_type = codes "Content-Type: application/x-www-form-urlencoded" ++ crlf

abbrev pub connection : List ℕ
connection = codes "Connection:   Close" ++ (crlf ++ crlf)

-- `POST_HDR_FRAME` and `GET_HDR_FRAME`. A `long` has at most 19 digits.
unfoldable pub post_hdr : List ℕ → List ℕ → ℕ → List ℕ
post_hdr uri host data_len =
    codes "POST "
    ++ (uri
        ++ (codes " HTTP/1.0"
            ++ (crlf
                ++ (codes "Host: "
                    ++ (host
                        ++ (crlf
                            ++ (content_type
                                ++ (codes "Content-Length: "
                                    ++ (decimal 19 data_len ++ (crlf ++ connection))))))))))

unfoldable pub get_hdr : List ℕ → List ℕ → List ℕ
get_hdr uri host =
    codes "GET "
    ++ (uri
        ++ (codes " HTTP/1.0"
            ++ (crlf ++ (codes "Host: " ++ (host ++ (crlf ++ (content_type ++ connection)))))))

unfoldable pub header_of : Kind → List ℕ → List ℕ → ℕ → List ℕ
unfolding post_hdr get_hdr
header_of post uri host data_len = post_hdr uri host data_len
header_of get uri host data_len = get_hdr uri host
header_of download uri host data_len = get_hdr uri host

-- What the system does for one request: the resolver's calls, the descriptor of `socket` (`none` is
-- -1), whether `inet_pton` reads a text and `connect` reaches it, what `write`, `select`, `read` and
-- `fopen` return, and the text in the array `dst_ip` before it is written.
pub record Network : Type 0 where
  pub resolver : System
  pub fuel : ℕ
  pub socket : Option ℕ
  pub inet_pton : List ℕ → Bool
  pub connect : ℕ → List ℕ → Bool
  pub writes : List (Option ℕ)
  pub selected : Option Bool
  pub first_read : Option (List ℕ)
  pub opened : Bool
  pub chunks : List (List ℕ)
  pub stack_ip : List ℕ

-- `sock_stream_new`
sock_stream_new : Network → Option ℕ
sock_stream_new net = net.socket

-- `connect` on the descriptor -1 fails.
connect_sock : Network → List ℕ → Option ℕ → Option ℕ
connect_sock net dst_ip none = none
connect_sock net dst_ip (some sock) = if net.connect sock dst_ip then some sock else none

-- `connect_to_server`; `none` is -1. The port is 80 at its only call.
unfoldable pub connect_to_server : Network → List ℕ → Option ℕ
unfolding sock_stream_new connect_sock
connect_to_server net dst_ip =
    if net.inet_pton dst_ip then connect_sock net dst_ip (sock_stream_new net) else none

-- Whether a descriptor is not -1.
abbrev pub is_open : Option ℕ → Bool
is_open none = false
is_open (some sock) = true

-- What `_process` returns and stores: the block returned (`none` is a null pointer), `*err_no`,
-- `*response_len` where it is stored, what was sent, and the file written.
pub record Processed : Type 0 where
  pub response : Option (List ℕ)
  pub err_no : ℤ
  pub response_len : Option ℕ
  pub read_failed : Bool
  pub sent : List ℕ
  pub file : Option (List ℕ)

-- `_process_post_get`. The loop around `read` is left after one round. When `read` fails, the
-- length stored is -1, which `read_failed` stands for.
pub process_post_get : Ready → Option (List ℕ) → List ℕ → Processed
process_post_get is_ready (some bytes) sent = record {
  response = some (overlay (take buff_size bytes) (replicate buff_size 0));
  err_no = pos 0;
  response_len = some (length (take buff_size bytes));
  read_failed = false;
  sent = sent;
  file = none;
}
process_post_get is_ready none sent = record {
  response = some (replicate buff_size 0);
  err_no = pos 0;
  response_len = none;
  read_failed = true;
  sent = sent;
  file = none;
}
process_post_get _ read sent = record {
  response = some (replicate buff_size 0);
  err_no = negsuc 0;
  response_len = some 0;
  read_failed = false;
  sent = sent;
  file = none;
}

pub downloaded : List ℕ → Option (List ℕ) → Processed
downloaded sent none = record {
  response = none;
  err_no = negsuc 0;
  response_len = none;
  read_failed = false;
  sent = sent;
  file = none;
}
downloaded sent (some file) = record {
  response = none;
  err_no = pos 0;
  response_len = none;
  read_failed = false;
  sent = sent;
  file = some file;
}

-- The part of `_process` behind `send_request`. With the descriptor -1 `FD_SET` is undefined, and
-- `read` fails at once.
pub by_type : Kind → Network → Bool → List ℕ → Outcome Processed
by_type download net connected sent = do
  file ← process_download net.opened (if connected then net.chunks else [])
  done (downloaded sent file)
by_type get net true sent = done (process_post_get (isready_read net.selected) net.first_read sent)
by_type get net false sent = fault
by_type post net true sent = done (process_post_get (isready_read net.selected) net.first_read sent)
by_type post net false sent = fault

-- `_process`: header and data are copied into a block of 1024 bytes.
unfoldable pub process : Kind → Network → List ℕ → List ℕ → List ℕ → Outcome Processed
unfolding by_type downloaded process_post_get
process kind net hdr dst_ip body =
    if ltb buff_size (length hdr + length body)
    then fault
    else (let connected = is_open (connect_to_server net dst_ip) in
        let sent = if connected then (send_request (hdr ++ body) net.writes).1.sent else [] in
        by_type kind net connected sent)

-- `pkg_hdr.dst_ip`, of 32 bytes, after `zdns_srv`.
abbrev pub dst_ip_of : List ℕ → Option (List ℕ) → Outcome (List ℕ)
dst_ip_of stack none = done stack
dst_ip_of stack (some text) = if ltb 32 (length text + 1) then fault else done text

-- `socket_adapter_request`: the new `dns_servers[0]` and the result. `hdr` has 1024 bytes.
unfoldable pub socket_adapter_request :
    Kind → Network → List ℕ → List ℕ → List ℕ → List ℕ → Outcome (List ℕ × Processed)
socket_adapter_request kind net server host uri body = do
  (server', r) ← zdns_srv net.resolver net.fuel server host (some (codes "223.5.5.5"))
  dst_ip ← dst_ip_of net.stack_ip r.ipstr
  let hdr = header_of kind uri host (length body)
  if ltb 1024 (length hdr + 1)
      then fault
      else (do p ← process kind net hdr dst_ip body; done (server', p))

-- What the three functions of the interface give back: the result, and what `*resp` and
-- `*resp_len` are set to. The length -1 is `none`.
pub record Answered : Type 0 where
  pub result : ℤ
  pub resp : Option (Option (List ℕ) × Option ℕ)
  pub sent : List ℕ
  pub file : Option (List ℕ)

-- `if (0 == response_len) break;`
abbrev pub kept : Processed → Option ℕ → Option (Option (List ℕ) × Option ℕ)
kept p none = some (p.response, none)
kept p (some n) = if n == 0 then none else some (p.response, some n)

abbrev pub answered : Processed → Answered
answered p = record {
  result = p.err_no;
  resp = kept p p.response_len;
  sent = p.sent;
  file = p.file;
}

-- `http_1_0_post` and `http_1_0_get`
unfoldable pub http_1_0_post : Network → List ℕ → List ℕ → List ℕ → List ℕ → Outcome Answered
http_1_0_post net server host uri body = do
  (server', p) ← socket_adapter_request post net server host uri body
  done (answered p)

unfoldable pub http_1_0_get : Network → List ℕ → List ℕ → List ℕ → Outcome Answered
http_1_0_get net server host uri = do
  (server', p) ← socket_adapter_request get net server host uri []
  done (answered p)

-- `http_1_0_download`, whose response is dropped.
unfoldable pub http_1_0_download : Network → List ℕ → List ℕ → List ℕ → Outcome Answered
http_1_0_download net server host uri = do
  (server', p) ← socket_adapter_request download net server host uri []
  done (record { result = p.err_no; resp = none; sent = p.sent; file = p.file })
