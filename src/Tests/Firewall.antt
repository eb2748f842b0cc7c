-- ===== src/Tests/Firewall.antt =====
-- The filter and the forwarding table at concrete inputs, for firewall/zmfilter.c.
use mydns.Prelude.{some, false}
use mydns.Firewall.Wfrom.{wfrom, wfrom_absent}
use mydns.Prelude.{ℕ, ◌≡◌, ◌≢◌, ◌⊎◌, inl, refl, List, [], ◌∷◌, true, false}
use mydns.Firewall.Address.{Be32, is_gate, is_local, pre_init, masked, same_ip}
use mydns.Firewall.Verdict.{
  Packet, Gate, IsWatched, IsFiltered, ipproto_tcp, nf_accept, zmeng_filter, zmeng_filter_verdict,
  zmeng_filter-IsFiltered, udp_special_case, same_name,
}
use mydns.Firewall.Fdb.{FdbEntry, same_addr}

abbrev gateway : Be32
gateway = record { o1 = 10; o2 = 1; o3 = 0; o4 = 9 }

abbrev at_home : Be32
at_home = record { o1 = 192; o2 = 168; o3 = 3; o4 = 4 }

abbrev abroad : Be32
abroad = record { o1 = 8; o2 = 8; o3 = 8; o4 = 8 }

abbrev bridge : List ℕ
bridge = b'b' ∷ b'r' ∷ b'0' ∷ []

abbrev packet_to : Be32 → Packet
packet_to address = record {
  in_name = bridge;
  original = true;
  daddr = address;
  protocol = 17;
  tot_len = 60;
  udp_dest = 99;
  tcp_dest = 80;
  tcp_offset = 20;
  doff = 5;
  fin = false;
  syn = false;
  rst = false;
}

abbrev gate : Gate
gate = record {
  networks = pre_init;
  net_dev_br = bridge;
  stopped = false;
  lgi_http_handle = λ p. 0;
  zm_net_filter = λ p port. 0;
}

abroad-IsFiltered : IsFiltered gate (packet_to abroad) 99
unfolding is_gate is_local udp_special_case same_name masked same_ip
abroad-IsFiltered = ((refl, refl, refl), refl, refl, inl (refl, refl, refl))

abroad_is_dropped : zmeng_filter gate (packet_to abroad) ≢ nf_accept
abroad_is_dropped e =
    let dropped = zmeng_filter-IsFiltered gate (packet_to abroad) 99 abroad-IsFiltered in
    cc (e, dropped)

zmeng_filter_verdict_example :
    (IsWatched gate (packet_to abroad)
      × (is_gate pre_init abroad ≡ true)
      × ((packet_to abroad).protocol ≡ ipproto_tcp)
      × ((packet_to abroad).tcp_dest ≡ 80)
      × (zmeng_filter gate (packet_to abroad) ≡ 0))
    ⊎ ((port : ℕ) × (IsFiltered gate (packet_to abroad) port)
        × (zmeng_filter gate (packet_to abroad) ≡ 0))
zmeng_filter_verdict_example = zmeng_filter_verdict gate (packet_to abroad) abroad_is_dropped

abbrev host_a : FdbEntry
host_a = record { addr = 1 ∷ 2 ∷ []; dst = 1 }

abbrev host_b : FdbEntry
host_b = record { addr = 1 ∷ 3 ∷ []; dst = 2 }

abbrev host_c : FdbEntry
host_c = record { addr = 1 ∷ 4 ∷ []; dst = 3 }

abbrev chain : List FdbEntry
chain = host_a ∷ host_b ∷ []

-- The sender `1, 2` stands in the first chain, and the second chain has two other hosts.
wfrom_absent_example :
    wfrom false
      (some ((host_a ∷ []) ∷ (host_b ∷ host_c ∷ []) ∷ [] ∷ []))
      (1 ∷ 2 ∷ [])
      (packet_to abroad)
    ≡ (nf_accept, some 3)
unfolding same_addr
wfrom_absent_example =
    wfrom_absent ((host_a ∷ []) ∷ []) (host_b ∷ []) host_c 1 (1 ∷ 2 ∷ []) (packet_to abroad) refl
      (refl, (refl, tt))
