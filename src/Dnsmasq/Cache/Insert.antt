-- ===== src/Dnsmasq/Cache/Insert.antt =====
-- The insertion of entries in src/cache.c of http1.0/src/dnsmasq/dnsmasq-2.45: `rehash`,
-- `cache_scan_free` in full, `cache_start_insert`, `cache_insert` and `cache_end_insert`.
pub mod Order
pub mod Waiting
pub mod Rounds
pub mod Sorted
pub mod Reach
use mydns.Prelude.{
  ℕ, zero, suc, ◌+◌, ◌-◌, ◌^◌, ◌%◌, List, [], ◌∷◌, ◌++◌, ◌==◌, ltb, leb, ◌&&◌, ◌||◌, if◌then◌else◌,
  Bool, true, false, not, Option, none, some, Outcome, done, fault, no_fuel, ◌>>=◌, length,
  get_elem?, set, take, replicate,
}
use mydns.Dnsmasq.Cache.Chain.{
  Flags, Crec, Uids, free_uid, Scanned, cache_hash, is_outdated_cname_pointer, scan_forward,
  scan_all,
}
use mydns.Dnsmasq.Cache.Bucket.{hash_bucket, rehash_size}
use mydns.Dnsmasq.Cache.Find.{unlinked, freed_entry}

-- The static variables: the hash table, the list by age, the identifiers, the number of names in
-- `big_free`, `bignames_left`, the entries inserted and not yet committed, and the rest.
pub record Store : Type 0 where
  pub table : List (List Crec)
  pub lru : List Crec
  pub uids : Uids
  pub big_free : ℕ
  pub bignames_left : ℕ
  pub new_chain : List Crec
  pub insert_error : Bool
  pub cache_live_freed : ℕ
  pub cache_inserted : ℕ

-- `cache_free`
unfoldable pub cache_free : Crec → Store → Store
cache_free crecp st = record st {
  lru = st.lru ++ freed_entry crecp ∷ [];
  uids = free_uid crecp.at st.uids;
  big_free = if crecp.flags.bigname then st.big_free + 1 else st.big_free;
}

-- `cache_unlink` and `cache_free` of the entries that a scan takes out.
unfoldable pub give_back : List Crec → Store → Store
give_back [] st = st
give_back (crecp ∷ rest) st =
    give_back rest (cache_free crecp (record st { lru = unlinked crecp st.lru }))

-- `memcmp(a, b, n) == 0`
unfoldable pub same_bytes : ℕ → List ℕ → List ℕ → Bool
same_bytes zero a b = true
same_bytes (suc n) [] b = false
same_bytes (suc n) (x ∷ a) [] = false
same_bytes (suc n) (x ∷ a) (y ∷ b) = let rest = same_bytes n a b in x == y && rest

abbrev pub no_flags : Flags
no_flags = record {
  immortal = false;
  reverse = false;
  forward = false;
  dhcp = false;
  hosts = false;
  ipv4 = false;
  ipv6 = false;
  cname = false;
  bigname = false;
}

abbrev pub chain_at : List (List Crec) → ℕ → List Crec
chain_at table i = elim (get_elem? table i) [ none ↦ [] | some chain ↦ chain ]

-- The scan over every chain: the table, and what is given back.
unfoldable pub scan_table : List ℕ → ℕ → Flags → List (List Crec) → List (List Crec) × List Crec
scan_table addr now flags [] = ([], [])
scan_table addr now flags (chain ∷ table) =
    let addrlen = if flags.ipv6 then 16 else 4 in
    let first = scan_all (λ other. same_bytes addrlen other addr) now flags chain in
    let (rest, freed) = scan_table addr now flags table in
    (first.chain ∷ rest, first.freed ++ freed)

-- The entries of the old table, chain by chain.
unfoldable pub entries : List (List Crec) → List Crec
entries [] = []
entries (chain ∷ table) = chain ++ entries table

-- `cache_start_insert`
unfoldable pub start_loop : List Crec → Store → Store
start_loop [] st = record st { new_chain = []; insert_error = false }
start_loop (crecp ∷ rest) st = start_loop rest (cache_free crecp st)

abbrev pub cache_start_insert : Store → Store
cache_start_insert st = start_loop st.new_chain st

-- The entry at the end of the list, or a null pointer.
unfoldable pub tail_of : List Crec → Option Crec
tail_of [] = none
tail_of (x ∷ []) = some x
tail_of (x ∷ y ∷ lru) = tail_of (y ∷ lru)

abbrev pub failed : Store → Option Crec × Store
failed st = (none, record st { insert_error = true })

-- The entry filled in. Without an address, `addr.cname.cache` is a null pointer.
abbrev pub filled : List ℕ → Option (List ℕ) → ℕ → Flags → Bool → Crec → Crec
filled name addr ttd flags big crecp = record crecp {
  flags = record flags { bigname = flags.bigname || big };
  name = name;
  addr = elim addr [ none ↦ crecp.addr | some a ↦ a ];
  target = elim addr [ none ↦ none | some a ↦ crecp.target ];
  ttd = ttd;
}

-- It is taken out of the list and put in front of `new_chain`.
unfoldable pub fill :
    List ℕ → Option (List ℕ) → ℕ → Flags → Bool → Crec → Store → Option Crec × Store
fill name addr ttd flags big crecp st =
    let new = filled name addr ttd flags big crecp in
    (some new, record st { lru = unlinked crecp st.lru; new_chain = new ∷ st.new_chain })

-- The block for a name of 40 bytes or more: from `big_free`, or by `whine_malloc` as long as there
-- are `bignames_left`.
unfoldable pub grab :
    List ℕ → Option (List ℕ) → ℕ → Flags → Bool → Crec → Store → Option Crec × Store
grab name addr ttd flags malloced crecp st =
    if not (ltb 39 (length name))
    then fill name addr ttd flags false crecp st
    else if ltb 0 st.big_free
    then fill name addr ttd flags true crecp (record st { big_free = st.big_free - 1 })
    else if st.bignames_left == 0 || not malloced
    then failed st
    else fill name addr ttd flags true crecp (record st { bignames_left = st.bignames_left - 1 })

module _ (mix_tab : ℕ → ℕ) where
  -- The index of the chain of a name.
  abbrev pub bucket : List ℕ → Store → ℕ
  bucket name st = hash_bucket mix_tab (length st.table) name

  -- An entry put into the chain of its name.
  unfoldable pub hash_entry : Crec → Store → Store
  hash_entry crecp st =
      let i = bucket crecp.name st in
      record st { table = set st.table i (cache_hash crecp (chain_at st.table i)) }

  unfoldable pub hash_all : List Crec → Store → Store
  hash_all [] st = st
  hash_all (crecp ∷ rest) st = hash_all rest (hash_entry crecp st)

  -- `rehash` of the table, with the rounds of the loop for its size and the result of `whine_malloc`;
  -- the first table, which replaces none, is from `safe_malloc`, which succeeds.
  unfoldable pub rehash : ℕ → Bool → ℕ → Store → Outcome Store
  rehash fuel malloced size st = do
    new_size ← rehash_size fuel size
    done (
        if leb new_size (length st.table) || not malloced
        then st
        else hash_all (entries st.table) (record st { table = replicate new_size [] }))

  -- `cache_scan_free`, whose argument `name` is read for F_FORWARD only.
  unfoldable pub cache_scan_free : List ℕ → List ℕ → ℕ → Flags → Store → Bool × Store
  cache_scan_free name addr now flags st =
      let i = bucket name st in
      let one = scan_forward name now flags st.uids (chain_at st.table i) in
      let (table, freed) = scan_table addr now flags st.table in
      if flags.forward
      then (one.result, give_back one.freed (record st { table = set st.table i one.chain }))
      else (true, give_back freed (record st { table = table }))

  -- One round of the loop for an entry that is not in use: whether the last entry is in use, whether
  -- `free_avail` and `freed_all` are set, how the loop goes on, and what is done with the entry.
  unfoldable pub insert_round :
      ℕ
      → (Bool → Bool → Store → Outcome (Option Crec × Store))
      → (Crec → Store → Option Crec × Store)
      → Bool
      → Bool
      → Bool
      → Crec
      → Store
      → Outcome (Option Crec × Store)
  insert_round now again got false free_avail freed_all new st = done (got new st)
  insert_round now again got true true freed_all new st = done (failed st)
  insert_round now again got true false true new st =
      let after = (cache_scan_free new.name new.addr now new.flags st).1 in
      again true true (record after { cache_live_freed = (after.cache_live_freed + 1) % 2 ^ 32 })
  insert_round now again got true false false new st =
      again true false (cache_scan_free [] [] now no_flags st).1

  unfoldable pub insert_tail :
      ℕ
      → (Bool → Bool → Store → Outcome (Option Crec × Store))
      → (Crec → Store → Option Crec × Store)
      → Bool
      → Bool
      → Store
      → Option Crec
      → Outcome (Option Crec × Store)
  insert_tail now again got free_avail freed_all st none = done (failed st)
  insert_tail now again got free_avail freed_all st (some new) =
      insert_round now again got (new.flags.forward || new.flags.reverse) free_avail freed_all new
        st

  -- The loop, with its rounds as fuel, from `freed_all` and `free_avail`.
  unfoldable pub insert_loop :
      ℕ
      → ℕ
      → (Crec → Store → Option Crec × Store)
      → Bool
      → Bool
      → Store
      → Outcome (Option Crec × Store)
  insert_loop zero now got freed_all free_avail st = no_fuel
  insert_loop (suc fuel) now got freed_all free_avail st =
      insert_tail now (insert_loop fuel now got) got free_avail freed_all st (tail_of st.lru)

  -- The returns in front of the loop: an insertion failed before, and the scan met a name of the hosts
  -- file or of DHCP.
  unfoldable pub insert_checked :
      Bool → Bool → Outcome (Option Crec × Store) → Store → Store → Outcome (Option Crec × Store)
  insert_checked true free looped st scanned = done (none, st)
  insert_checked false true looped st scanned = looped
  insert_checked false false looped st scanned = done (failed scanned)

  -- `cache_insert`, with the rounds of its loop and the result of `whine_malloc`. A null pointer for
  -- the name is the empty text, which is what the entry then holds; with F_FORWARD there is a name.
  unfoldable pub cache_insert :
      ℕ → List ℕ → Option (List ℕ) → ℕ → ℕ → Flags → Bool → Store → Outcome (Option Crec × Store)
  cache_insert fuel name addr now ttl flags malloced st =
      let bytes : List ℕ = elim addr [ none ↦ [] | some a ↦ a ] in
      let (free, scanned) = cache_scan_free name bytes now flags st in
      insert_checked st.insert_error free
        (insert_loop fuel now (grab name addr (now + ttl) flags malloced) flags.reverse false
          scanned)
        st scanned

  -- `cache_end_insert`
  unfoldable pub end_loop : List Crec → Store → Store
  end_loop [] st = record st { new_chain = [] }
  end_loop (crecp ∷ rest) st =
      let freed = cache_free crecp st in
      let hashed = hash_entry crecp st in
      end_loop rest (
        if is_outdated_cname_pointer st.uids crecp then freed else record hashed {
          lru = crecp ∷ hashed.lru;
          cache_inserted = (hashed.cache_inserted + 1) % 2 ^ 32;
        })

  unfoldable pub cache_end_insert : Store → Store
  cache_end_insert st = if st.insert_error then st else end_loop st.new_chain st
