-- ===== src/Dnsmasq/Cache/Insert/Rounds.antt =====
-- The loop of `cache_insert` in src/cache.c of http1.0/src/dnsmasq/dnsmasq-2.45, which waits for an
-- entry that is not in use.
use mydns.Prelude.{
  ℕ, ◌+◌, ◌≤◌, ◌≡◌, List, [], ◌∷◌, Bool, true, false, ◌⊎◌, ◌%◌, ◌^◌, ◌<◌, Option, none, some,
  Outcome, done, ◌||◌, length,
}
use mydns.Dnsmasq.Cache.Chain.{Flags, Crec}
use mydns.Dnsmasq.Cache.Find.{unlinked}
use mydns.Dnsmasq.Cache.Insert.{Store, no_flags, cache_scan_free, tail_of, grab, insert_loop}

abbrev pub in_use : Crec → Bool
in_use crecp = crecp.flags.forward || crecp.flags.reverse

module _ (mix_tab : ℕ → ℕ) where
  -- The cache after the last entry of the list was removed by its name or address.
  abbrev pub spill : ℕ → Crec → Store → Store
  spill now last st =
      let after = (cache_scan_free mix_tab last.name last.addr now last.flags st).1 in
      record after { cache_live_freed = (after.cache_live_freed + 1) % 2 ^ 32 }

  module _ (name : List ℕ) (addr : Option (List ℕ)) (now ttl : ℕ) (flags : Flags) (malloced : Bool)
      (st : Store) where
    -- The scan for the entry to insert: whether it was free to, and what it leaves.
    abbrev pub first_scan : Bool × Store
    first_scan = cache_scan_free mix_tab name (elim addr [ none ↦ [] | some a ↦ a ]) now flags st

    -- The caches in which the last entry of the list is tried, by whether the expired entries were
    -- removed and whether an entry in use was: that behind the first scan, and, each time that the
    -- last entry is in use, the next one. The expired entries are removed once, and not at all for a
    -- reverse entry, and then one entry in use.
    pub data IsTried : Bool → Bool → Store → Type 0 where
      scanned : IsTried flags.reverse false first_scan.1
      swept :
          (s : Store) (last : Crec)
          → IsTried false false s
          → tail_of s.lru ≡ some last
          → in_use last ≡ true
          → IsTried true false (cache_scan_free mix_tab [] [] now no_flags s).1
      spilled :
          (s : Store) (last : Crec)
          → IsTried true false s
          → tail_of s.lru ≡ some last
          → in_use last ≡ true
          → IsTried true true (spill now last s)

    -- Why a call gives a null pointer, and the cache that it leaves.
    pub data IsRefused : Option Crec × Store → Type 0 where
      failed_before : st.insert_error ≡ true → IsRefused (none, st)
      is_taken_name :
          first_scan.0 ≡ false → IsRefused (none, record first_scan.1 { insert_error = true })
      no_entry :
          (is_swept is_spilled : Bool) (s : Store)
          → IsTried is_swept is_spilled s
          → tail_of s.lru ≡ none
          → IsRefused (none, record s { insert_error = true })
      still_in_use :
          (is_swept : Bool) (s : Store) (last : Crec)
          → IsTried is_swept true s
          → tail_of s.lru ≡ some last
          → in_use last ≡ true
          → IsRefused (none, record s { insert_error = true })
      no_memory :
          (is_swept is_spilled : Bool) (s : Store) (last : Crec)
          → IsTried is_swept is_spilled s
          → tail_of s.lru ≡ some last
          → in_use last ≡ false
          → 39 < length name
          → s.big_free ≡ 0
          → (s.bignames_left ≡ 0) ⊎ (malloced ≡ false)
          → IsRefused (none, record s { insert_error = true })

    -- The entry given: it was the last of the list in a cache that was tried, and not in use, it is
    -- taken out of that list, and it is the first to wait for `cache_end_insert`.
    pub record IsTaken (r : Option Crec × Store) : Type 0 where
      pub no_error_before : st.insert_error ≡ false
      pub is_free : first_scan.0 ≡ true
      pub is_swept : Bool
      pub is_spilled : Bool
      pub from : Store
      pub is_tried : IsTried is_swept is_spilled from
      pub last : Crec
      pub was_last : tail_of from.lru ≡ some last
      pub not_in_use : in_use last ≡ false
      pub new : Crec
      pub same_entry : new.at ≡ last.at
      pub is_new : r.0 ≡ some new
      pub lru_is : r.1.lru ≡ unlinked last from.lru
      pub table_is : r.1.table ≡ from.table
      pub name_is : new.name ≡ name
      pub addr_is : (bytes : List ℕ) → addr ≡ some bytes → new.addr ≡ bytes
      pub ttd_is : new.ttd ≡ now + ttl
      pub flags_are : record new.flags { bigname = flags.bigname } ≡ flags
      pub waits : r.1.new_chain ≡ new ∷ st.new_chain
      pub no_error : r.1.insert_error ≡ false

    abbrev pub IsInserted : Option Crec × Store → Type 0
    IsInserted r = IsRefused r ⊎ IsTaken r

    -- What is known when the last entry `last` of a cache that was tried is not in use.
    record IsGrabbed (s : Store) (last : Crec) : Type 0 where
      no_error_before : st.insert_error ≡ false
      is_free : first_scan.0 ≡ true
      is_swept : Bool
      is_spilled : Bool
      is_tried : IsTried is_swept is_spilled s
      was_last : tail_of s.lru ≡ some last
      not_in_use : in_use last ≡ false

    -- The loop returns, and what it returns is as stated.
    abbrev pub Returns : Outcome (Option Crec × Store) → Type 0
    Returns o = (r : Option Crec × Store) × (o ≡ done r) × IsInserted r

    -- How many rounds are left.
    abbrev rounds : Bool → Bool → ℕ
    rounds is_swept true = 1
    rounds true false = 2
    rounds false false = 3

    abbrev got : Crec → Store → Option Crec × Store
    got = grab name addr (now + ttl) flags malloced

    -- The loop from every cache that is tried, on this fuel.
    abbrev LoopReturns : ℕ → Type 0
    LoopReturns fuel =
        (a b : Bool) (s : Store)
        → rounds a b ≤ fuel
        → IsTried a b s
        → Returns (insert_loop mix_tab fuel now got a b s)
