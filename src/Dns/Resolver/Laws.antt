-- ===== src/Dns/Resolver/Laws.antt =====
-- What `zgethostbyname` and `zdns_srv` of http1.0/src/zdns.c return.
use mydns.Prelude.{
  ℕ, ◌+◌, ◌≤◌, ◌≡◌, ◌≢◌, ◌⊎◌, inl, inr, refl, ◌∙◌, List, [], ◌∷◌, ◌++◌, arith, length,
  length-append, overlay, done, All, take-append, true, false, Option, none, some, Bool, fault, ltb,
  ge→ltb_false, Bool-cases, lt→ltb, if◌then◌else◌, ◌&&◌, >>=-guarded,
}
use mydns.Dns.Labels.{labels, encode, IsPlainLabel}
use mydns.Dns.ReadName.Wire.{Holds}
use mydns.Dns.Answers.{type_a, header_size, question_size, show_answers, deal_recv}
use mydns.Dns.Answers.Wire.{Rr, WireAnswers, has_address, first_address}
use mydns.Dns.Answers.Laws.{deal_recv-show_answers, deal_recv-zero}
use mydns.Dns.Resolver.{
  System, Resolution, select_error, is_ready, isready_read, HostKind, valid_ip, is_ipaddr,
  invalid_ip, not_ip, by_kind, query_server, exchange, deal_reply, receive, zgethostbyname,
  get_dns_servers, zdns_srv,
}
use mydns.Dns.Resolver.Query.{query, pack_query-query}

-- A host that is a text of four numbers from 0 to 255 is handed out as it is, and nothing is sent.
pub zgethostbyname-ip :
    (sys : System) (fuel : ℕ) (host : List ℕ) (query_type : ℕ)
    → is_ipaddr (sys.scan host) ≡ valid_ip
    → zgethostbyname sys fuel host query_type
      ≡ done (record { timed_out = false; ipstr = some host; sent = none })
unfolding zgethostbyname
zgethostbyname-ip sys fuel host query_type ip = rw ip

ready_cases :
    (selected : Option Bool)
    → selected ≢ some false
    → (isready_read selected ≡ is_ready) ⊎ (isready_read selected ≡ select_error)
unfolding isready_read
ready_cases none h = inr refl
ready_cases (some true) h = inl refl
ready_cases (some false) h = absurd (h refl)

-- A host name that the code can encode, and blocks of the sizes asked for.
pub record IsQuery (sys : System) (host : List ℕ) : Type 0 where
  pub no_ip : is_ipaddr (sys.scan host) ≢ valid_ip
  pub short : length host ≤ 30
  pub plain : All IsPlainLabel (labels host)
  pub room : 1024 ≤ length (sys.malloc 1024)

-- The receive buffer before the reply, and what the reply makes of it.
abbrev pub buffer_sent : System → List ℕ → ℕ → List ℕ
buffer_sent sys host query_type = overlay (query sys.pid host query_type) (sys.malloc 1024)

abbrev pub qname_len : List ℕ → ℕ
qname_len host = length (encode (labels host)) + 1

module _ (sys : System) (fuel : ℕ) (host : List ℕ) (query_type : ℕ) (q : IsQuery sys host) where
  zgethostbyname-exchange :
      zgethostbyname sys fuel host query_type
      ≡ exchange sys fuel
          (buffer_sent sys host query_type)
          (qname_len host)
          (query sys.pid host query_type)
          (isready_read sys.selected)
  unfolding zgethostbyname
  zgethostbyname-exchange = go (is_ipaddr (sys.scan host)) q.no_ip
    where
      packed :
          query_server sys fuel host query_type
          ≡ exchange sys fuel
              (buffer_sent sys host query_type)
              (qname_len host)
              (query sys.pid host query_type)
              (isready_read sys.selected)
      packed = rw (
        pack_query-query (sys.malloc 1024) sys.pid host query_type q.short q.plain q.room,
        take-append (query sys.pid host query_type) _ (header_size + qname_len host + question_size)
            (omega (
              arith,
              length-append (encode (labels host) ++ 0 ∷ []) _,
              length-append (encode (labels host)) (0 ∷ []),
            )),
      )

      go :
          (kind : HostKind)
          → kind ≢ valid_ip
          → by_kind kind sys fuel host query_type
            ≡ exchange sys fuel
                (buffer_sent sys host query_type)
                (qname_len host)
                (query sys.pid host query_type)
                (isready_read sys.selected)
      go valid_ip h = absurd (h refl)
      go invalid_ip h = packed
      go not_ip h = packed

  -- When no reply comes in time, the result is -1, and nothing but the query was sent.
  pub zgethostbyname-timeout :
      sys.selected ≡ some false
      → zgethostbyname sys fuel host query_type
        ≡ done
            (record { timed_out = true; ipstr = none; sent = some (query sys.pid host query_type) })
  unfolding zgethostbyname isready_read
  zgethostbyname-timeout late = zgethostbyname-exchange ∙ rw late

  zgethostbyname-deal_reply :
      sys.selected ≢ some false
      → zgethostbyname sys fuel host query_type
        ≡ deal_reply sys fuel
            (buffer_sent sys host query_type)
            (qname_len host)
            (query sys.pid host query_type)
  unfolding zgethostbyname
  zgethostbyname-deal_reply ready = elim (ready_cases sys.selected ready) [
    | inl e ↦ zgethostbyname-exchange ∙ rw e
    | inr e ↦ zgethostbyname-exchange ∙ rw e
  ]

  -- When the socket is readable, or `select` fails, and `recvfrom` fails, the result is 0 all the
  -- same, and no address is copied to `ipstr`.
  pub zgethostbyname-recv_failed :
      sys.selected ≢ some false
      → sys.received ≡ none
      → zgethostbyname sys fuel host query_type
        ≡ done (record {
          timed_out = false;
          ipstr = none;
          sent = some (query sys.pid host query_type);
        })
  unfolding deal_reply receive show_answers
  zgethostbyname-recv_failed ready failed =
      zgethostbyname-deal_reply ready
      ∙ rw (
        failed,
        deal_recv-zero sys.malloc fuel (buffer_sent sys host query_type) (qname_len host)
            (refl, (refl, tt)),
      )

  -- For a host of at most 30 bytes that is not the text of an IPv4 address and has plain labels, where
  -- `malloc` returns blocks of the size asked for or more, the socket is readable or `select` fails,
  -- and a reply comes with at most 20 records, each an address or an alias, whose names are in wire
  -- form, not the root, have at most 255 bytes and are read within the fuel: without an address among
  -- the records, the result is 0 and no text is copied to `ipstr`. With one, the result is 0 and the
  -- text of the first address is copied to `ipstr` if the block for the four bytes of an address has
  -- eight or more, and an access falls outside that block if it has fewer.
  pub zgethostbyname-reply :
      {rs : List Rr} (datagram : List ℕ)
      → sys.selected ≢ some false
      → sys.received ≡ some datagram
      → 4 ≤ length (sys.malloc 4)
      → 256 ≤ length (sys.malloc 256)
      → Holds (receive (some datagram) (buffer_sent sys host query_type)) 6 (0 ∷ length rs ∷ [])
      → length rs ≤ 20
      → WireAnswers fuel
          (receive (some datagram) (buffer_sent sys host query_type))
          (header_size + qname_len host + question_size)
          rs
      → zgethostbyname sys fuel host query_type ≡ (
          if has_address rs && ltb (length (sys.malloc 4)) 8
          then fault
          else done (record {
            timed_out = false;
            ipstr = first_address rs;
            sent = some (query sys.pid host query_type);
          }))
  unfolding deal_reply
  zgethostbyname-reply {rs} datagram ready got room name_room count few w =
      let buffer = receive (some datagram) (buffer_sent sys host query_type) in
      zgethostbyname-deal_reply ready
      ∙ rw got (
          >>=-guarded (deal_recv sys.malloc fuel buffer (qname_len host)) (show_answers buffer) _
            (has_address rs && ltb (length (sys.malloc 4)) 8) (first_address rs)
            (deal_recv-show_answers sys.malloc fuel buffer room name_room (qname_len host) count few
              w))

-- `dns_servers[0]` keeps the server last named, a text that does not fit its 32 bytes overruns it,
-- and the rest is `zgethostbyname` for an address.
pub zdns_srv_lem :
    (sys : System) (fuel : ℕ) (server domain : List ℕ) (text : List ℕ) {r : Resolution}
    → zgethostbyname sys fuel domain type_a ≡ done r
    → (zdns_srv sys fuel server domain none ≡ done (server, r))
      × (zdns_srv sys fuel server domain (some text)
          ≡ (if ltb (length text) 32 then done (text, r) else fault))
unfolding zdns_srv get_dns_servers
zdns_srv_lem sys fuel server domain text {r = r} e =
    (rw e, by_length (Bool-cases (ltb (length text) 32)))
  where
    by_length :
        (ltb (length text) 32 ≡ true) ⊎ (ltb (length text) 32 ≡ false)
        → zdns_srv sys fuel server domain (some text)
          ≡ (if ltb (length text) 32 then done (text, r) else fault)
    by_length (inl h) =
        unfold zdns_srv in
        unfold get_dns_servers in rw (ge→ltb_false 32 (length text + 1) (ground arith), h, e)
    by_length (inr h) =
        unfold zdns_srv in
        unfold get_dns_servers in rw (lt→ltb 32 (length text + 1) (ground arith), h)
