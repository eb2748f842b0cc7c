-- ===== src/Dnsmasq/Cache/Chain.antt =====
-- The hash chains of src/cache.c in http1.0/src/dnsmasq/dnsmasq-2.45: `cache_hash`, and the part of
-- `cache_scan_free` that works on one chain. A chain is the list of its entries.
pub mod Laws
pub mod Scan
pub mod Forward
use mydns.Prelude.{
  ℕ, ◌+◌, ◌^◌, ◌%◌, List, [], ◌∷◌, ◌==◌, ltb, ◌&&◌, ◌||◌, if◌then◌else◌, Bool, true, false, not,
  Option, none, some,
}
use mydns.Dnsmasq.Names.{hostname_isequal}

-- The bits of `flags` that this code reads.
pub record Flags : Type 0 where
  pub immortal : Bool
  pub reverse : Bool
  pub forward : Bool
  pub dhcp : Bool
  pub hosts : Bool
  pub ipv4 : Bool
  pub ipv6 : Bool
  pub cname : Bool
  pub bigname : Bool

-- The fields of `struct crec` that it reads. `at` is the address of the entry, `name` is what
-- `cache_get_name` gives, `addr` has the bytes of the address, and `target` is `addr.cname`, the
-- entry pointed to and the identifier expected there: `none` for a null pointer.
pub record Crec : Type 0 where
  pub flags : Flags
  pub at : ℕ
  pub ttd : ℕ
  pub name : List ℕ
  pub addr : List ℕ
  pub target : Option (ℕ × ℕ)

-- The field `uid` of every entry, and the variable `uid`, which is an int.
pub record Uids : Type 0 where
  pub of : ℕ → ℕ
  pub uid : ℕ

-- `crecp->uid = uid++` in `cache_free`
unfoldable pub free_uid : ℕ → Uids → Uids
free_uid crecp uids = record {
  of = λ i. if i == crecp then uids.uid else uids.of i;
  uid = (uids.uid + 1) % 2 ^ 32;
}

-- The loops of `cache_hash`: past the entries that are not immortal, and past those with F_REVERSE.
unfoldable pub past_mortal : Crec → List Crec → List Crec
past_mortal crecp [] = crecp ∷ []
past_mortal crecp (up ∷ chain) =
    let rest = past_mortal crecp chain in
    if not up.flags.immortal then up ∷ rest else crecp ∷ (up ∷ chain)

unfoldable pub past_reverse : Crec → List Crec → List Crec
past_reverse crecp [] = crecp ∷ []
past_reverse crecp (up ∷ chain) =
    let rest = past_reverse crecp chain in
    if up.flags.reverse
    then up ∷ rest
    else if crecp.flags.immortal
    then past_mortal crecp (up ∷ chain)
    else crecp ∷ (up ∷ chain)

-- `cache_hash`, on the chain of the entry's bucket.
unfoldable pub cache_hash : Crec → List Crec → List Crec
cache_hash crecp chain = if not crecp.flags.reverse then past_reverse crecp chain else crecp ∷ chain

-- `is_outdated_cname_pointer`
unfoldable pub is_outdated_cname_pointer : Uids → Crec → Bool
is_outdated_cname_pointer uids crecp = if not crecp.flags.cname then false else elim crecp.target [
  | none ↦ true
  | some (cache, uid) ↦ if uid == uids.of cache then false else true
]

-- `is_expired`
unfoldable pub is_expired : ℕ → Crec → Bool
is_expired now crecp =
    if crecp.flags.immortal then false else if ltb now crecp.ttd then false else true

-- An entry of the hosts file or of DHCP is never given back.
abbrev pub is_kept : Crec → Bool
is_kept crecp = crecp.flags.hosts || crecp.flags.dhcp

-- What a scan leaves of a chain, the entries that it unlinks and frees, and the result.
pub record Scanned : Type 0 where
  pub chain : List Crec
  pub freed : List Crec
  pub result : Bool

abbrev pub keep : Crec → Scanned → Scanned
keep crecp s = record s { chain = crecp ∷ s.chain }

abbrev pub drop_entry : Crec → Scanned → Scanned
drop_entry crecp s = record s { freed = crecp ∷ s.freed }

-- `flags & crecp->flags & (F_IPV4 | F_IPV6)`
abbrev pub same_family : Flags → Flags → Bool
same_family f g = (f.ipv4 && g.ipv4) || (f.ipv6 && g.ipv6)

-- The test for a forward entry of the name.
unfoldable pub is_named : List ℕ → Flags → Crec → Bool
is_named name flags crecp =
    (crecp.flags.forward && (same_family flags crecp.flags || (crecp.flags.cname || flags.cname)))
    && hostname_isequal crecp.name name

-- The identifiers behind one round: `cache_free` has changed that of an entry that it frees.
abbrev pub uids_behind : Bool → Bool → Crec → Uids → Uids
uids_behind stale named crecp uids =
    if (stale || named) && not (is_kept crecp) then free_uid crecp.at uids else uids

-- The loop for F_FORWARD.
unfoldable pub scan_forward : List ℕ → ℕ → Flags → Uids → List Crec → Scanned
scan_forward name now flags uids [] = record { chain = []; freed = []; result = true }
scan_forward name now flags uids (crecp ∷ chain) =
    let stale = is_expired now crecp || is_outdated_cname_pointer uids crecp in
    let named = is_named name flags crecp in
    let rest = scan_forward name now flags (uids_behind stale named crecp uids) chain in
    if stale
    then (if not (is_kept crecp) then drop_entry crecp rest else rest)
    else if named
    then (if is_kept crecp
        then record { chain = crecp ∷ chain; freed = []; result = false }
        else drop_entry crecp rest)
    else keep crecp rest

-- The test for a reverse entry of the address; `memcmp` is over the bytes of the family.
unfoldable pub is_addressed : (List ℕ → Bool) → Flags → Crec → Bool
is_addressed same_addr flags crecp =
    (not (is_kept crecp) && (flags.reverse && crecp.flags.reverse))
    && (same_family flags crecp.flags && same_addr crecp.addr)

-- The loop otherwise, over one chain, which ends at the first entry that is immortal and has no
-- F_REVERSE.
unfoldable pub scan_all : (List ℕ → Bool) → ℕ → Flags → List Crec → Scanned
scan_all same_addr now flags [] = record { chain = []; freed = []; result = true }
scan_all same_addr now flags (crecp ∷ chain) =
    let rest = scan_all same_addr now flags chain in
    if not (crecp.flags.reverse || not crecp.flags.immortal)
    then record { chain = crecp ∷ chain; freed = []; result = true }
    else if is_expired now crecp
    then (if not (is_kept crecp) then drop_entry crecp rest else rest)
    else if is_addressed same_addr flags crecp
    then drop_entry crecp rest
    else keep crecp rest
