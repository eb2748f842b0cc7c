-- ===== src/Firewall/Verdict.antt =====
-- `zmeng_filter` of firewall/zmfilter.c: what becomes of a forwarded packet.
use mydns.Prelude.{
  ℕ, ◌+◌, ◌*◌, ◌≡◌, ◌≢◌, ◌⊎◌, inl, inr, List, ◌∷◌, arith, Bool, true, false, ◌&&◌, ◌||◌, not, ◌==◌,
  if◌then◌else◌, Bool-cases,
}
use mydns.Firewall.Address.{Be32, Networks, is_gate, is_local}

abbrev pub nf_drop : ℕ
nf_drop = 0

abbrev pub nf_accept : ℕ
nf_accept = 1

abbrev pub ipproto_tcp : ℕ
ipproto_tcp = 6

abbrev pub ipproto_udp : ℕ
ipproto_udp = 17

-- What the filter reads of `skb`, in host order. `tcp_offset` is `(char *) tcph - (char *) iph`,
-- and `original` says that `CTINFO2DIR` of the packet is `IP_CT_DIR_ORIGINAL`.
pub record Packet : Type 0 where
  pub in_name : List ℕ
  pub original : Bool
  pub daddr : Be32
  pub protocol : ℕ
  pub tot_len : ℕ
  pub udp_dest : ℕ
  pub tcp_dest : ℕ
  pub tcp_offset : ℕ
  pub doff : ℕ
  pub fin : Bool
  pub syn : Bool
  pub rst : Bool

-- The parts of the module in other files: whether `dbm_filter_status` is `DBM_STATUS_STOP`, and
-- the verdicts of `lgi_http_handle` and of `zm_net_filter` for the destination port.
pub record Gate : Type 0 where
  pub networks : Networks
  pub net_dev_br : List ℕ
  pub stopped : Bool
  pub lgi_http_handle : Packet → ℕ
  pub zm_net_filter : Packet → ℕ → ℕ

-- `memcmp(a, b, 3) == 0`
unfoldable pub same_name : List ℕ → List ℕ → Bool
same_name (a ∷ (b ∷ (c ∷ _))) (x ∷ (y ∷ (z ∷ _))) = (a == x && b == y) && c == z
same_name _ _ = false

-- Connection control, and segments without data. The length is a signed difference, which is 0
-- exactly when the two numbers are equal.
unfoldable pub tcp_special_case : Packet → Bool
tcp_special_case p = (p.fin || p.syn || p.rst) || p.tot_len == p.tcp_offset + p.doff * 4

-- DNS and CAPWAP.
unfoldable pub udp_special_case : ℕ → Bool
udp_special_case destport = (destport == 53 || destport == 5246) || destport == 5247

-- The branch for the gateway's own network.
unfoldable pub to_gate : Gate → Packet → ℕ
to_gate g p =
    if not (ipproto_tcp == p.protocol)
    then nf_accept
    else if not (80 == p.tcp_dest)
    then nf_accept
    else g.lgi_http_handle p

-- The branch for all other networks.
unfoldable pub to_internet : Gate → Packet → ℕ
to_internet g p =
    if p.protocol == ipproto_udp
    then (if udp_special_case p.udp_dest then nf_accept else g.zm_net_filter p p.udp_dest)
    else if p.protocol == ipproto_tcp
    then (if tcp_special_case p then nf_accept else g.zm_net_filter p p.tcp_dest)
    else nf_accept

unfoldable pub zmeng_filter : Gate → Packet → ℕ
unfolding to_gate to_internet
zmeng_filter g p =
    if g.stopped
    then nf_accept
    else if not (same_name p.in_name g.net_dev_br)
    then nf_accept
    else if not p.original
    then nf_accept
    else if is_gate g.networks p.daddr
    then to_gate g p
    else if is_local g.networks p.daddr
    then nf_accept
    else to_internet g p

-- `http_inject_hook`: the verdict, and whether `inject_process` is called.
unfoldable pub http_inject_hook : Packet → ℕ × Bool
http_inject_hook p =
    if not (p.protocol == ipproto_tcp) then (nf_accept, false) else (nf_accept, true)

-- A packet that the filter looks at: not stopped, from the bridge, in the direction of the request.
abbrev pub IsWatched : Gate → Packet → Type 0
IsWatched g p =
    (g.stopped ≡ false) × (same_name p.in_name g.net_dev_br ≡ true) × (p.original ≡ true)

-- A packet that is handed to `zm_net_filter` with the port `port`: towards a network that is
-- neither the gate's nor local, by UDP to a port that is not special, or by TCP with data.
abbrev pub IsFiltered : Gate → Packet → ℕ → Type 0
IsFiltered g p port =
    IsWatched g p
    × (is_gate g.networks p.daddr ≡ false)
    × (is_local g.networks p.daddr ≡ false)
    × (((p.protocol ≡ ipproto_udp) × (port ≡ p.udp_dest) × (udp_special_case p.udp_dest ≡ false))
        ⊎ ((p.protocol ≡ ipproto_tcp) × (port ≡ p.tcp_dest) × (tcp_special_case p ≡ false)))

-- The filter never drops a packet by itself: a verdict other than to accept is that of
-- `lgi_http_handle` on HTTP to the gate's network, or that of `zm_net_filter` on a packet that
-- meets all the conditions for it.
pub zmeng_filter_verdict :
    (g : Gate) (p : Packet)
    → zmeng_filter g p ≢ nf_accept
    → (IsWatched g p
        × (is_gate g.networks p.daddr ≡ true)
        × (p.protocol ≡ ipproto_tcp)
        × (p.tcp_dest ≡ 80)
        × (zmeng_filter g p ≡ g.lgi_http_handle p))
      ⊎ ((port : ℕ) × (IsFiltered g p port) × (zmeng_filter g p ≡ g.zm_net_filter p port))
unfolding zmeng_filter
zmeng_filter_verdict g p h = elim (Bool-cases (is_gate g.networks p.daddr)) [
  | inl gate ↦ inl (ground arith)
  | inr other ↦ inr (elim (Bool-cases (p.protocol == ipproto_udp)) [
    | inl udp ↦ (p.udp_dest, ground arith, ground arith)
    | inr tcp ↦ (p.tcp_dest, ground arith, ground arith)
  ])
]

-- Every packet that meets the conditions gets the verdict of `zm_net_filter`.
pub zmeng_filter-IsFiltered :
    (g : Gate) (p : Packet) (port : ℕ)
    → IsFiltered g p port
    → zmeng_filter g p ≡ g.zm_net_filter p port
unfolding zmeng_filter
zmeng_filter-IsFiltered g p port f = ground arith

-- A packet to a local network that is not the gate's is accepted, whatever the other files say.
pub zmeng_filter-local :
    (g : Gate) (p : Packet)
    → is_gate g.networks p.daddr ≡ false
    → is_local g.networks p.daddr ≡ true
    → zmeng_filter g p ≡ nf_accept
unfolding zmeng_filter
zmeng_filter-local g p h k = ground arith
