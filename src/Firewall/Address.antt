-- ===== src/Firewall/Address.antt =====
-- The local networks of firewall/zmfilter.c: the masks and addresses that `pre_init` sets.
use mydns.Prelude.{
  ℕ, zero, suc, not, ◌<◌, ◌≤◌, ◌≡◌, ◌↔◌, ◌⊎◌, refl, arith, Bool, true, ◌&&◌, ◌||◌, ◌==◌, bit_and,
  leb, if◌then◌else◌, ==_iff,
}

-- A `__be32`: its octets in network order.
pub record Be32 : Type 0 where
  pub o1 : ℕ
  pub o2 : ℕ
  pub o3 : ℕ
  pub o4 : ℕ

-- `ip & mask`, which works on each octet.
unfoldable pub masked : Be32 → Be32 → Be32
masked ip mask = record {
  o1 = bit_and ip.o1 mask.o1;
  o2 = bit_and ip.o2 mask.o2;
  o3 = bit_and ip.o3 mask.o3;
  o4 = bit_and ip.o4 mask.o4;
}

unfoldable pub same_ip : Be32 → Be32 → Bool
same_ip a b = (a.o1 == b.o1 && a.o2 == b.o2) && (a.o3 == b.o3 && a.o4 == b.o4)

-- The six static variables.
pub record Networks : Type 0 where
  pub b_local_net_ip : Be32
  pub b_local_net_mask : Be32
  pub c_local_net_ip : Be32
  pub c_local_net_mask : Be32
  pub local_gate_ip : Be32
  pub local_gate_mask : Be32

-- `pre_init`; `htonl(0xFFF00000)` has the octets ff, f0, 00 and 00.
abbrev pub pre_init : Networks
pre_init = record {
  b_local_net_ip = record { o1 = 0xac; o2 = 0x10; o3 = 0; o4 = 0 };
  b_local_net_mask = record { o1 = 0xff; o2 = 0xf0; o3 = 0; o4 = 0 };
  c_local_net_ip = record { o1 = 0xc0; o2 = 0xa8; o3 = 0; o4 = 0 };
  c_local_net_mask = record { o1 = 0xff; o2 = 0xff; o3 = 0; o4 = 0 };
  local_gate_ip = record { o1 = 0x0a; o2 = 0x01; o3 = 0; o4 = 0 };
  local_gate_mask = record { o1 = 0xff; o2 = 0xff; o3 = 0xff; o4 = 0 };
}

-- `LocalGate_IP == (_destip & LocalGate_Mask)`
unfoldable pub is_gate : Networks → Be32 → Bool
unfolding masked same_ip
is_gate n ip = same_ip n.local_gate_ip (masked ip n.local_gate_mask)

-- The test of both local networks.
unfoldable pub is_local : Networks → Be32 → Bool
unfolding masked same_ip
is_local n ip =
    same_ip n.b_local_net_ip (masked ip n.b_local_net_mask)
    || same_ip n.c_local_net_ip (masked ip n.c_local_net_mask)

abbrev pub IsAddress : Be32 → Type 0
IsAddress ip = (ip.o1 < 256) × (ip.o2 < 256) × (ip.o3 < 256) × (ip.o4 < 256)

-- Whether two tests agree on all octets below `n`.
agree : (ℕ → Bool) → (ℕ → Bool) → ℕ → Bool
agree p q zero = true
agree p q (suc n) = (if p n then q n else not (q n)) && agree p q n

agree_sound : (p q : ℕ → Bool) (n x : ℕ) → agree p q n ≡ true → x < n → p x ≡ q x
unfolding agree
agree_sound p q zero x h less = absurd (omega arith)
agree_sound p q (suc n) x h less = ground (arith, agree_sound p q n x)

all_ones : (x : ℕ) → x < 256 → bit_and x 0xff ≡ x
unfolding agree
all_ones x h =
    (==_iff (bit_and x 0xff) x).0 (agree_sound (λ y. bit_and y 0xff == y) (λ y. true) 256 x refl h)

no_ones : (x : ℕ) → x < 256 → bit_and x 0 ≡ 0
unfolding agree
no_ones x h =
    (==_iff (bit_and x 0) 0).0 (agree_sound (λ y. bit_and y 0 == 0) (λ y. true) 256 x refl h)

high_ones : (x : ℕ) → x < 256 → (0x10 == bit_and x 0xf0) ≡ (leb 16 x && leb x 31)
unfolding agree
high_ones x h = agree_sound (λ y. 0x10 == bit_and y 0xf0) (λ y. leb 16 y && leb y 31) 256 x refl h

-- The gate's network is 10.1.0.0 to 10.1.0.255.
pub is_gate_iff :
    (ip : Be32)
    → IsAddress ip
    → (is_gate pre_init ip ≡ true) ↔ ((ip.o1 ≡ 10) × (ip.o2 ≡ 1) × (ip.o3 ≡ 0))
unfolding is_gate
is_gate_iff ip a =
    ground (arith, all_ones ip.o1 a.0, all_ones ip.o2 a.1, all_ones ip.o3 a.2, no_ones ip.o4 a.3)

-- The local networks are 172.16.0.0 to 172.31.255.255 and 192.168.0.0 to 192.168.255.255.
pub is_local_iff :
    (ip : Be32)
    → IsAddress ip
    → (is_local pre_init ip ≡ true)
      ↔ (((ip.o1 ≡ 172) × (16 ≤ ip.o2) × (ip.o2 ≤ 31)) ⊎ ((ip.o1 ≡ 192) × (ip.o2 ≡ 168)))
unfolding is_local
is_local_iff ip a = ground (
  arith,
  all_ones ip.o1 a.0,
  all_ones ip.o2 a.1,
  high_ones ip.o2 a.1,
  no_ones ip.o3 a.2,
  no_ones ip.o4 a.3,
)

-- The gate's network is 10.1.0.0 to 10.1.0.255, and the local networks are 172.16.0.0 to
-- 172.31.255.255 and 192.168.0.0 to 192.168.255.255.
pub networks_iff :
    (ip : Be32)
    → IsAddress ip
    → ((is_gate pre_init ip ≡ true) ↔ ((ip.o1 ≡ 10) × (ip.o2 ≡ 1) × (ip.o3 ≡ 0)))
      × ((is_local pre_init ip ≡ true)
          ↔ (((ip.o1 ≡ 172) × (16 ≤ ip.o2) × (ip.o2 ≤ 31)) ⊎ ((ip.o1 ≡ 192) × (ip.o2 ≡ 168))))
networks_iff ip a = (is_gate_iff ip a, is_local_iff ip a)
