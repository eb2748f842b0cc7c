-- ===== src/Dns/Resolver.antt =====
-- `zgethostbyname`, `zdns_srv` and their helpers in http1.0/src/zdns.c: the query, the exchange
-- with the server, and what the caller gets.
pub mod Query
pub mod Laws
use mydns.Prelude.{
  ℕ, ◌+◌, ◌*◌, ◌-◌, List, [], ◌∷◌, ◌++◌, Bool, true, false, ◌&&◌, Option, none, some, ◌==◌, ltb,
  leb, if◌then◌else◌, Outcome, done, fault, ◌>>=◌, strlen, store, htons, overlay, length, take,
  drop, u16,
}
use mydns.Dns.Format.{domain_format}
use mydns.Dns.Answers.{Answer, deal_recv, show_answers, header_size, question_size, type_a}

-- `dns_header_t`; the counts and the id are the numbers that `htons` was given.
pub record DnsHeader : Type 0 where
  pub id : ℕ
  pub rd : ℕ
  pub tc : ℕ
  pub aa : ℕ
  pub opcode : ℕ
  pub qr : ℕ
  pub rcode : ℕ
  pub cd : ℕ
  pub ad : ℕ
  pub z : ℕ
  pub ra : ℕ
  pub q_count : ℕ
  pub ans_count : ℕ
  pub auth_count : ℕ
  pub add_count : ℕ

-- The twelve bytes of the header: bit fields are laid out from the low bit.
pub header_bytes : DnsHeader → List ℕ
header_bytes h =
    htons h.id
    ++ (h.rd + h.tc * 2 + h.aa * 4 + h.opcode * 8 + h.qr * 128)
      ∷ (h.rcode + h.cd * 16 + h.ad * 32 + h.z * 64 + h.ra * 128)
      ∷ (htons h.q_count ++ (htons h.ans_count ++ (htons h.auth_count ++ htons h.add_count)))

-- `_pack_dnshdr`; `pid` is what `getpid` returned.
pub pack_dnshdr : ℕ → DnsHeader
pack_dnshdr pid = record {
  id = u16 pid;
  rd = 1;
  tc = 0;
  aa = 0;
  opcode = 0;
  qr = 0;
  rcode = 0;
  cd = 0;
  ad = 0;
  z = 0;
  ra = 0;
  q_count = 1;
  ans_count = 0;
  auth_count = 0;
  add_count = 0;
}

-- The query in the block `buf`, and `qname_len`. The length is measured in the block, so it ends
-- at the first empty label.
unfoldable pub pack_query : List ℕ → ℕ → List ℕ → ℕ → Outcome (List ℕ × ℕ)
pack_query buf pid host query_type = do
  with_header ← store buf 0 (header_bytes (pack_dnshdr pid))
  qname ← domain_format host
  with_name ← store with_header header_size qname
  len ← strlen (drop header_size with_name)
  query ← store with_name (header_size + (len + 1)) (htons query_type ++ htons 1)
  done (query, len + 1)

-- What `sscanf(host, "%d.%d.%d.%d%c", …)` returned and stored. The numbers are those of the four
-- fields when they are not negative, `none` when a minus sign stands in front of one.
pub record IpScan : Type 0 where
  pub count : ℕ
  pub a : Option ℕ
  pub b : Option ℕ
  pub c : Option ℕ
  pub d : Option ℕ
  pub t : ℕ

-- `0 <= n && n <= 255`
abbrev is_octet : Option ℕ → Bool
is_octet none = false
is_octet (some n) = leb n 255

pub data HostKind : Type 0 where
  valid_ip invalid_ip not_ip : HostKind

-- `is_ipaddr`, with its results 1, 0 and -1.
unfoldable pub is_ipaddr : IpScan → HostKind
is_ipaddr s =
    if leb 4 s.count
    then (if (is_octet s.a && is_octet s.b) && (is_octet s.c && is_octet s.d) && s.t == 0
        then valid_ip
        else invalid_ip)
    else not_ip

-- `isready_read`, with its results -1, 0 and 1, from what `select` returned: `none` is an error,
-- otherwise whether the socket is in the set.
pub data Ready : Type 0 where
  select_error not_ready is_ready : Ready

unfoldable pub isready_read : Option Bool → Ready
isready_read none = select_error
isready_read (some true) = is_ready
isready_read (some false) = not_ready

-- The calls that leave the program: `getpid`, `sscanf`, `malloc`, the blocks' contents, `select`
-- and `recvfrom` (`none` is an error).
pub record System : Type 0 where
  pub pid : ℕ
  pub scan : List ℕ → IpScan
  pub malloc : ℕ → List ℕ
  pub selected : Option Bool
  pub received : Option (List ℕ)

-- `ret`, the text copied to `ipstr` if any, and the datagram sent if any.
pub record Resolution : Type 0 where
  pub timed_out : Bool
  pub ipstr : Option (List ℕ)
  pub sent : Option (List ℕ)

-- `recvfrom` into the first 1024 bytes of `buf`; on an error the block stays.
unfoldable pub receive : Option (List ℕ) → List ℕ → List ℕ
receive none buf = buf
receive (some datagram) buf = overlay (take 1024 datagram) buf

-- From the reply, or from whatever `buf` holds when none was received.
pub deal_reply : System → ℕ → List ℕ → ℕ → List ℕ → Outcome Resolution
deal_reply sys fuel buf qname_len sent = do
  let reply = receive sys.received buf
  answers ← deal_recv sys.malloc fuel reply qname_len
  text ← show_answers reply answers
  done (record { timed_out = false; ipstr = text; sent = some sent })

exchange : System → ℕ → List ℕ → ℕ → List ℕ → Ready → Outcome Resolution
exchange sys fuel buf qname_len sent not_ready =
    done (record { timed_out = true; ipstr = none; sent = some sent })
exchange sys fuel buf qname_len sent is_ready = deal_reply sys fuel buf qname_len sent
exchange sys fuel buf qname_len sent select_error = deal_reply sys fuel buf qname_len sent

query_server : System → ℕ → List ℕ → ℕ → Outcome Resolution
query_server sys fuel host query_type = do
  (buf, qname_len) ← pack_query (sys.malloc 1024) sys.pid host query_type
  let sent = take (header_size + qname_len + question_size) buf
  exchange sys fuel buf qname_len sent (isready_read sys.selected)

by_kind : HostKind → System → ℕ → List ℕ → ℕ → Outcome Resolution
by_kind valid_ip sys fuel host query_type =
    done (record { timed_out = false; ipstr = some host; sent = none })
by_kind invalid_ip sys fuel host query_type = query_server sys fuel host query_type
by_kind not_ip sys fuel host query_type = query_server sys fuel host query_type

-- `zgethostbyname`. The result is -1 exactly when `timed_out` is set, and 0 otherwise.
unfoldable pub zgethostbyname : System → ℕ → List ℕ → ℕ → Outcome Resolution
unfolding by_kind query_server exchange
zgethostbyname sys fuel host query_type =
    by_kind (is_ipaddr (sys.scan host)) sys fuel host query_type

-- `dns_servers[0]`, an array of 32 bytes, and `get_dns_servers`: `none` is a null pointer.
pub get_dns_servers : List ℕ → Option (List ℕ) → Outcome (List ℕ)
get_dns_servers server none = done server
get_dns_servers server (some text) = if ltb 32 (length text + 1) then fault else done text

-- `zdns_srv`: the new `dns_servers[0]` and what `zgethostbyname` gives.
unfoldable pub zdns_srv :
    System → ℕ → List ℕ → List ℕ → Option (List ℕ) → Outcome (List ℕ × Resolution)
zdns_srv sys fuel server domain dns_srv = do
  server' ← get_dns_servers server dns_srv
  r ← zgethostbyname sys fuel domain type_a
  done (server', r)
