-- ===== src/Http/Request/Laws.antt =====
-- What a caller of http1.0/src/zhttp.c gets for each course of an exchange.
use mydns.Prelude.{
  ℕ, ◌+◌, ◌<◌, ◌≤◌, ◌≡◌, ◌≢◌, refl, ap, ◌∙◌, List, [], ◌++◌, arith, length, length-append, take,
  ltb, Option, none, some, Bool, true, false, done, fault, overlay, replicate, pos, negsuc, codes,
  ge→ltb_false, lt→ltb, All, ◌==◌,
}
use mydns.Dns.Resolver.{Resolution, isready_read, is_ready, zdns_srv}
use mydns.Http.Send.{
  SendEnd, Sending, send_request, IsProgress, all_sent, send_error, blocked, take_all, SaysSent,
  send_request-SaysSent, send_request-all_sent,
}
use mydns.Http.Download.{buff_size, process_download, download_loop}
use mydns.Http.Request.{
  is_open, connect_to_server, Kind, post, download, header_of, Network, Processed, process_post_get,
  by_type, process, socket_adapter_request, answered, http_1_0_post, http_1_0_download, downloaded,
}

-- The name resolves to the text `ip`, and the header fits its array.
pub record IsAddressed (kind : Kind) (net : Network) (server host uri body ip : List ℕ)
    : Type 0 where
  pub server' : List ℕ
  pub resolution : Resolution
  pub resolves :
      zdns_srv net.resolver net.fuel server host (some (codes "223.5.5.5"))
      ≡ done (server', resolution)
  pub found : resolution.ipstr ≡ some ip
  pub ip_fits : length ip < 32
  pub hdr_fits : length (header_of kind uri host (length body)) < 1024

module _ (kind : Kind) (net : Network) (server host uri body ip : List ℕ)
    (a : IsAddressed kind net server host uri body ip) where
  abbrev header : List ℕ
  header = header_of kind uri host (length body)

  pub socket_adapter_request-process :
      (p : Processed)
      → process kind net header ip body ≡ done p
      → socket_adapter_request kind net server host uri body ≡ done (a.server', p)
  unfolding socket_adapter_request
  socket_adapter_request-process p e = rw (
    a.resolves,
    a.found,
    ge→ltb_false 32 (length ip + 1) (omega (arith, a.ip_fits)),
    ge→ltb_false 1024 (length header + 1) (omega (arith, a.hdr_fits)),
    e,
  )

  socket_adapter_request-fault :
      process kind net header ip body ≡ fault
      → socket_adapter_request kind net server host uri body ≡ fault
  unfolding socket_adapter_request
  socket_adapter_request-fault e = rw (
    a.resolves,
    a.found,
    ge→ltb_false 32 (length ip + 1) (omega (arith, a.ip_fits)),
    ge→ltb_false 1024 (length header + 1) (omega (arith, a.hdr_fits)),
    e,
  )

-- What was sent by the time the response is awaited.
abbrev pub sent_of : Network → List ℕ → List ℕ
sent_of net request = (send_request request net.writes).1.sent

pub process-connected :
    (kind : Kind) (net : Network) (hdr ip body : List ℕ)
    → length hdr + length body ≤ 1024
    → is_open (connect_to_server net ip) ≡ true
    → process kind net hdr ip body ≡ by_type kind net true (sent_of net (hdr ++ body))
unfolding process
process-connected kind net hdr ip body fits c =
    rw (ge→ltb_false buff_size (length hdr + length body) fits, c)

SaysSent-all_sent :
    (request : List ℕ) (x : SendEnd × Sending)
    → SaysSent request x
    → x.0 ≡ all_sent
    → x.1.sent ≡ request
SaysSent-all_sent request (all_sent, s) h f = h
SaysSent-all_sent request (send_error, s) h f = cc
SaysSent-all_sent request (blocked, s) h f = cc

pub sent_of-request :
    (net : Network) (request : List ℕ)
    → All IsProgress net.writes
    → length request ≤ length net.writes
    → sent_of net request ≡ request
sent_of-request net request p h =
    SaysSent-all_sent request (send_request request net.writes)
      (send_request-SaysSent request net.writes) (send_request-all_sent request net.writes p h)

module _ (net : Network) (server host uri body ip : List ℕ)
    (a : IsAddressed post net server host uri body ip) where
  abbrev pub post_request : List ℕ
  post_request = header_of post uri host (length body) ++ body

  post_processed :
      (p : Processed)
      → process post net (header_of post uri host (length body)) ip body ≡ done p
      → http_1_0_post net server host uri body ≡ done (answered p)
  unfolding http_1_0_post
  post_processed p e = rw (socket_adapter_request-process post net server host uri body ip a p e)

  post_exchanged :
      length post_request ≤ 1024
      → is_open (connect_to_server net ip) ≡ true
      → http_1_0_post net server host uri body
        ≡ done (
            answered (
              process_post_get
                (isready_read net.selected)
                net.first_read
                (sent_of net post_request)))
  unfolding by_type
  post_exchanged fits c = post_processed _ (
      process-connected post net (header_of post uri host (length body)) ip body
        (omega (arith, length-append (header_of post uri host (length body)) body)) c)

  post_with :
      {selected : Option Bool} {first_read : Option (List ℕ)}
      → length post_request ≤ 1024
      → is_open (connect_to_server net ip) ≡ true
      → net.selected ≡ selected
      → net.first_read ≡ first_read
      → http_1_0_post net server host uri body
        ≡ done (
            answered
              (process_post_get (isready_read selected) first_read (sent_of net post_request)))
  post_with {selected} {first_read} fits c s r =
      post_exchanged fits c
      ∙ ap
          (λ t. done (
            answered (process_post_get (isready_read t) net.first_read (sent_of net post_request))))
          s
      ∙ ap
          (λ t.
            done (answered (process_post_get (isready_read selected) t (sent_of net post_request))))
          r

  -- A request of at most 1024 bytes that `write` takes whole is sent as its header and data, and
  -- the bytes that the first `read` returns are handed out with their number.
  pub http_1_0_post-reply :
      (bytes : List ℕ)
      → length post_request ≤ 1024
      → is_open (connect_to_server net ip) ≡ true
      → All IsProgress net.writes
      → length post_request ≤ length net.writes
      → net.selected ≡ some true
      → net.first_read ≡ some bytes
      → 0 < length bytes
      → length bytes ≤ 1024
      → http_1_0_post net server host uri body
        ≡ done (record {
          result = pos 0;
          resp = some (some (overlay bytes (replicate 1024 0)), some (length bytes));
          sent = post_request;
          file = none;
        })
  unfolding process_post_get isready_read
  http_1_0_post-reply bytes fits c progress enough ready got some_bytes few =
      let all : take buff_size bytes ≡ bytes = take_all bytes buff_size few in
      let more : (length bytes == 0) ≡ false = ground arith in
      post_with fits c ready got
      ∙ ap (λ t. done (answered (process_post_get is_ready (some bytes) t)))
          (sent_of-request net post_request progress enough)
      ∙ rw (all, more)

  -- When no response comes in time, or `select` fails, the result is -1 and nothing is handed out.
  pub http_1_0_post-timeout :
      length post_request ≤ 1024
      → is_open (connect_to_server net ip) ≡ true
      → net.selected ≢ some true
      → http_1_0_post net server host uri body
        ≡ done (record {
          result = negsuc 0;
          resp = none;
          sent = sent_of net post_request;
          file = none;
        })
  http_1_0_post-timeout fits c late =
      post_exchanged fits c ∙ timed_out net.selected net.first_read late
    where
      timed_out :
          (selected : Option Bool) (read : Option (List ℕ))
          → selected ≢ some true
          → done
              (answered (process_post_get (isready_read selected) read (sent_of net post_request)))
            ≡ done (record {
              result = negsuc 0;
              resp = none;
              sent = sent_of net post_request;
              file = none;
            })
      timed_out none none h = unfold process_post_get isready_read in refl
      timed_out none (some r) h = unfold process_post_get isready_read in refl
      timed_out (some true) read h = absurd (h refl)
      timed_out (some false) none h = unfold process_post_get isready_read in refl
      timed_out (some false) (some r) h = unfold process_post_get isready_read in refl

  -- When `read` fails, the result is 0 all the same, and a cleared block is handed out with the
  -- length -1.
  pub http_1_0_post-read_failed :
      length post_request ≤ 1024
      → is_open (connect_to_server net ip) ≡ true
      → net.selected ≡ some true
      → net.first_read ≡ none
      → http_1_0_post net server host uri body
        ≡ done (record {
          result = pos 0;
          resp = some (some (replicate 1024 0), none);
          sent = sent_of net post_request;
          file = none;
        })
  unfolding process_post_get isready_read
  http_1_0_post-read_failed fits c ready failed = post_with fits c ready failed

  -- A header and data that together have more than 1024 bytes overrun the block that they are
  -- copied into, though the header fits its own array.
  pub http_1_0_post-overrun :
      1024 < length post_request → http_1_0_post net server host uri body ≡ fault
  unfolding http_1_0_post process
  http_1_0_post-overrun long =
      let over : ltb buff_size (length (header_of post uri host (length body)) + length body)
          ≡ true =
        lt→ltb _ _ (omega (arith, length-append (header_of post uri host (length body)) body)) in
      rw (
        socket_adapter_request-fault post net server host uri body ip a (unfold process in rw over))

-- When the connection fails, a download still creates the file, empty, and its result is 0.
pub http_1_0_download-disconnected :
    (net : Network) (server host uri ip : List ℕ)
    → IsAddressed download net server host uri [] ip
    → is_open (connect_to_server net ip) ≡ false
    → net.opened ≡ true
    → http_1_0_download net server host uri
      ≡ done (record { result = pos 0; resp = none; sent = []; file = some [] })
unfolding http_1_0_download process by_type process_download download_loop downloaded
http_1_0_download-disconnected net server host uri ip a c opened =
    let fits : ltb buff_size (length (header_of download uri host 0) + 0) ≡ false =
      ge→ltb_false _ _ (omega (arith, a.hdr_fits)) in
    rw (
      socket_adapter_request-process download net server host uri [] ip a (downloaded [] (some []))
        (rw (fits, c, opened)))

-- A download over a connection has the file that `_process_download` writes, and its result.
pub http_1_0_download-file :
    (net : Network) (server host uri ip file : List ℕ)
    → IsAddressed download net server host uri [] ip
    → is_open (connect_to_server net ip) ≡ true
    → process_download net.opened net.chunks ≡ done (some file)
    → http_1_0_download net server host uri
      ≡ done (record {
        result = pos 0;
        resp = none;
        sent = sent_of net (header_of download uri host 0 ++ []);
        file = some file;
      })
unfolding http_1_0_download by_type downloaded
http_1_0_download-file net server host uri ip file a c writes = rw (
    socket_adapter_request-process download net server host uri [] ip a
      (downloaded (sent_of net (header_of download uri host 0 ++ [])) (some file))
      (process-connected download net (header_of download uri host 0) ip []
          (omega (arith, a.hdr_fits)) c
        ∙ rw writes))
