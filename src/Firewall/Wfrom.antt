-- ===== src/Firewall/Wfrom.antt =====
-- `wfrom` of firewall/zmfilter.c, which looks up the device of a packet's sender in the bridge, and
-- the hooks that the module registers.
use mydns.Prelude.{
  ℕ, zero, suc, ◌≡◌, refl, ◌∙◌, List, [], ◌∷◌, ◌++◌, Bool, true, false, ◌==◌, if◌then◌else◌, not,
  Option, none, some, replicate, ℤ,
}
use mydns.Firewall.Address.{Networks, pre_init}
use mydns.Firewall.Fdb.{FdbEntry, same_addr, IsAbsent}
use mydns.Firewall.Verdict.{Packet, Gate, nf_accept, ipproto_udp, zmeng_filter, http_inject_hook}

-- `hlist_for_each_entry_rcu` with its `break`: what `fdb` is behind the entries of a chain. The
-- macro leaves it at the last entry when the chain ends, and untouched when the chain is empty.
unfoldable pub chain_loop : Option FdbEntry → List FdbEntry → List ℕ → Option FdbEntry
chain_loop fdb [] addr = fdb
chain_loop fdb (e ∷ es) addr =
    let rest = chain_loop (some e) es addr in if same_addr e.addr addr then some e else rest

-- `for (i = 0; i < BR_HASH_SIZE; i++)` over the chains left. Nothing in the file declares `flag`.
unfoldable pub hash_loop : Bool → Option FdbEntry → List (List FdbEntry) → List ℕ → Option FdbEntry
hash_loop flag fdb [] addr = fdb
hash_loop flag fdb (chain ∷ chains) addr =
    let next = chain_loop fdb chain addr in
    let rest = hash_loop flag next chains addr in if flag then next else rest

-- `fdb->dst->dev`, when there is an entry.
abbrev pub device_of : Option FdbEntry → Option ℕ
device_of none = none
device_of (some e) = some e.dst

-- The chains of `netdev_priv(in)`; `none` is a null pointer.
abbrev pub origin_of : Bool → Option (List (List FdbEntry)) → List ℕ → Option ℕ
origin_of flag none addr = none
origin_of flag (some chains) addr = device_of (hash_loop flag none chains addr)

-- `wfrom`: the verdict, and the device printed behind `got dev`.
unfoldable pub wfrom : Bool → Option (List (List FdbEntry)) → List ℕ → Packet → ℕ × Option ℕ
wfrom flag br addr p =
    if not (p.protocol == ipproto_udp)
    then (nf_accept, none)
    else (nf_accept, origin_of flag br addr)

-- The functions that the file offers as hooks, and `hooks`, where all but the first are commented
-- out.
pub data Hook : Type 0 where
  wfrom_hook zmeng_filter_hook http_inject : Hook

abbrev pub hooks : List Hook
hooks = wfrom_hook ∷ []

-- `zmeng_filter_init`: the networks set, the hooks registered and the result of
-- `nf_register_hooks`. `pri_init` and `dbm_init` are in other files.
unfoldable pub zmeng_filter_init : (List Hook → ℤ) → Networks × List Hook × ℤ
zmeng_filter_init nf_register_hooks = (pre_init, hooks, nf_register_hooks hooks)

-- `zmeng_filter_fini`, which takes the same hooks back.
unfoldable pub zmeng_filter_fini : List Hook
zmeng_filter_fini = hooks

-- The verdict of each hook.
unfoldable pub verdict_of : Hook → Bool → Option (List (List FdbEntry)) → List ℕ → Gate → Packet → ℕ
verdict_of wfrom_hook flag br addr g p = (wfrom flag br addr p).0
verdict_of zmeng_filter_hook flag br addr g p = zmeng_filter g p
verdict_of http_inject flag br addr g p = (http_inject_hook p).0

hash_loop-empty :
    (n : ℕ) (fdb : Option FdbEntry) (addr : List ℕ)
    → hash_loop false fdb (replicate n []) addr ≡ fdb
unfolding hash_loop chain_loop
hash_loop-empty zero fdb addr = refl
hash_loop-empty (suc n) fdb addr = hash_loop-empty n fdb addr

chain_loop-cons :
    (fdb : Option FdbEntry) (e : FdbEntry) (es : List FdbEntry) (addr : List ℕ)
    → chain_loop fdb (e ∷ es) addr ≡ chain_loop none (e ∷ es) addr
unfolding chain_loop
chain_loop-cons fdb e es addr = refl

hash_loop-last :
    (front : List (List FdbEntry)) (fdb : Option FdbEntry) (e : FdbEntry) (es : List FdbEntry)
    (n : ℕ) (addr : List ℕ)
    → hash_loop false fdb (front ++ ((e ∷ es) ∷ replicate n [])) addr
      ≡ chain_loop none (e ∷ es) addr
unfolding hash_loop
hash_loop-last [] fdb e es n addr =
    hash_loop-empty n (chain_loop fdb (e ∷ es) addr) addr ∙ chain_loop-cons fdb e es addr
hash_loop-last (c ∷ front) fdb e es n addr =
    hash_loop-last front (chain_loop fdb c addr) e es n addr

chain_loop-absent :
    (fdb : Option FdbEntry) (es : List FdbEntry) (last : FdbEntry) (addr : List ℕ)
    → IsAbsent (es ++ last ∷ []) addr
    → chain_loop fdb (es ++ last ∷ []) addr ≡ some last
unfolding chain_loop
chain_loop-absent fdb [] last addr h = rw h.0
chain_loop-absent fdb (e ∷ es) last addr h = rw h.0 (chain_loop-absent (some e) es last addr h.1)

chain_loop-match :
    (fdb : Option FdbEntry) (es : List FdbEntry) (e : FdbEntry) (back : List FdbEntry)
    (addr : List ℕ)
    → IsAbsent es addr
    → same_addr e.addr addr ≡ true
    → chain_loop fdb (es ++ e ∷ back) addr ≡ some e
unfolding chain_loop
chain_loop-match fdb [] e back addr h same = rw same
chain_loop-match fdb (x ∷ es) e back addr h same =
    rw h.0 (chain_loop-match (some x) es e back addr h.1 same)

-- Unless `flag` is set, for a UDP packet from a bridge only the last chain that is not empty counts:
-- when the sender is not in it, the packet is accepted and the device of the last entry of that chain
-- is reported, also if the sender stands in a chain before it.
pub wfrom_absent :
    (front : List (List FdbEntry)) (es : List FdbEntry) (last : FdbEntry) (n : ℕ) (addr : List ℕ)
    (p : Packet)
    → p.protocol ≡ ipproto_udp
    → IsAbsent (es ++ last ∷ []) addr
    → wfrom false (some (front ++ ((es ++ last ∷ []) ∷ replicate n []))) addr p
      ≡ (nf_accept, some last.dst)
unfolding wfrom
wfrom_absent front [] last n addr p udp h =
    rw (udp, hash_loop-last front none last [] n addr, chain_loop-absent none [] last addr h)
wfrom_absent front (e ∷ es) last n addr p udp h = rw (
  udp,
  hash_loop-last front none e (es ++ last ∷ []) n addr,
  chain_loop-absent none (e ∷ es) last addr h,
)

-- When the sender is in that chain, the device of its first entry there is reported.
pub wfrom_match :
    (front : List (List FdbEntry)) (es : List FdbEntry) (e : FdbEntry) (back : List FdbEntry)
    (n : ℕ) (addr : List ℕ) (p : Packet)
    → p.protocol ≡ ipproto_udp
    → IsAbsent es addr
    → same_addr e.addr addr ≡ true
    → wfrom false (some (front ++ ((es ++ e ∷ back) ∷ replicate n []))) addr p
      ≡ (nf_accept, some e.dst)
unfolding wfrom
wfrom_match front [] e back n addr p udp h same =
    rw (udp, hash_loop-last front none e back n addr, chain_loop-match none [] e back addr tt same)
wfrom_match front (x ∷ es) e back n addr p udp h same = rw (
  udp,
  hash_loop-last front none x (es ++ e ∷ back) n addr,
  chain_loop-match none (x ∷ es) e back addr h same,
)
