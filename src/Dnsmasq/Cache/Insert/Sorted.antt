-- ===== src/Dnsmasq/Cache/Insert/Sorted.antt =====
-- What the operations of src/cache.c in http1.0/src/dnsmasq/dnsmasq-2.45 make of the order of the
-- chains.
use mydns.Prelude.{
  ℕ, ◌+◌, ◌≡◌, refl, List, [], ◌∷◌, Bool, true, false, All, Option, none, some, Outcome, done,
  fault, no_fuel, arith, set, if◌then◌else◌, ◌||◌, zero, suc,
}
use mydns.Dnsmasq.Cache.Chain.{Flags, Crec, scan_forward, is_outdated_cname_pointer}
use mydns.Dnsmasq.Cache.Chain.Laws.{IsOrdered, cache_hash-IsOrdered}
use mydns.Dnsmasq.Cache.Insert.{
  Store, cache_free, give_back, chain_at, no_flags, scan_table, bucket, hash_entry, hash_all,
  cache_scan_free, start_loop, tail_of, fill, grab, insert_loop, insert_round, insert_tail,
  insert_checked, cache_insert, end_loop,
}
use mydns.Dnsmasq.Cache.Insert.Order.{
  IsThinned-IsOrdered, scan_forward-IsThinned, scan_table-IsOrdered, set-IsOrdered,
  chain_at-IsOrdered,
}

-- Every chain of the hash table is ordered.
abbrev pub IsSorted : Store → Type 0
IsSorted st = All IsOrdered st.table

pub pick-IsSorted :
    (b : Bool) (x y : Store) → IsSorted x → IsSorted y → IsSorted (if b then x else y)
pick-IsSorted true x y h k = h
pick-IsSorted false x y h k = k

give_back-table : (freed : List Crec) (st : Store) → (give_back freed st).table ≡ st.table
unfolding give_back cache_free
give_back-table [] st = refl
give_back-table (c ∷ freed) st = give_back-table freed _

module _ (mix_tab : ℕ → ℕ) where
  hash_entry-IsSorted : (c : Crec) (st : Store) → IsSorted st → IsSorted (hash_entry mix_tab c st)
  unfolding hash_entry
  hash_entry-IsSorted c st o =
      set-IsOrdered st.table _ _ o (cache_hash-IsOrdered c _ (chain_at-IsOrdered st.table _ o)).0

  pub hash_all-IsSorted :
      (cs : List Crec) (st : Store) → IsSorted st → IsSorted (hash_all mix_tab cs st)
  unfolding hash_all
  hash_all-IsSorted [] st o = o
  hash_all-IsSorted (c ∷ cs) st o = hash_all-IsSorted cs _ (hash_entry-IsSorted c st o)

  cache_scan_free-IsSorted :
      (name addr : List ℕ) (now : ℕ) (flags : Flags) (st : Store)
      → IsSorted st
      → IsSorted (cache_scan_free mix_tab name addr now flags st).1
  unfolding cache_scan_free
  cache_scan_free-IsSorted name addr now flags st o =
      let i = bucket mix_tab name st in
      let chain = chain_at st.table i in
      let one = scan_forward name now flags st.uids chain in
      let whole = scan_table addr now flags st.table in
      let by_name = give_back one.freed (record st { table = set st.table i one.chain }) in
      let by_table = give_back whole.1 (record st { table = whole.0 }) in
      let ordered_one : All IsOrdered by_name.table =
        rw (give_back-table one.freed (record st { table = set st.table i one.chain })) (
          set-IsOrdered st.table i one.chain o (
            IsThinned-IsOrdered (scan_forward-IsThinned name now flags chain st.uids)
              (chain_at-IsOrdered st.table i o))) in
      let ordered_all : All IsOrdered by_table.table =
        rw (give_back-table whole.1 (record st { table = whole.0 }))
          (scan_table-IsOrdered addr now flags st.table o) in
      pick flags.forward one.result by_name by_table ordered_one ordered_all
    where
      pick :
          (b result : Bool) (x y : Store)
          → IsSorted x
          → IsSorted y
          → IsSorted (let r : Bool × Store = if b then (result, x) else (true, y) in r.1)
      pick true result x y h k = h
      pick false result x y h k = k

  pub start_loop-IsSorted :
      (cs : List Crec) (st : Store) → IsSorted st → IsSorted (start_loop cs st)
  unfolding start_loop cache_free
  start_loop-IsSorted [] st o = o
  start_loop-IsSorted (c ∷ cs) st o = start_loop-IsSorted cs (cache_free c st) o

  pub end_loop-IsSorted :
      (cs : List Crec) (st : Store) → IsSorted st → IsSorted (end_loop mix_tab cs st)
  unfolding end_loop cache_free
  end_loop-IsSorted [] st o = o
  end_loop-IsSorted (c ∷ cs) st o =
      end_loop-IsSorted cs _
        (pick-IsSorted (is_outdated_cname_pointer st.uids c) _ _ o (hash_entry-IsSorted c st o))

  -- Where an insertion ends, the chains are ordered.
  abbrev pub EndsSorted : Outcome (Option Crec × Store) → Type 0
  EndsSorted (done r) = IsSorted r.1
  EndsSorted fault = Unit
  EndsSorted no_fuel = Unit

  fill-IsSorted :
      (name : List ℕ) (addr : Option (List ℕ)) (ttd : ℕ) (flags : Flags) (big : Bool) (c : Crec)
      (st : Store)
      → IsSorted st
      → IsSorted (fill name addr ttd flags big c st).1
  unfolding fill
  fill-IsSorted name addr ttd flags big c st o = o

  grab-IsSorted :
      (name : List ℕ) (addr : Option (List ℕ)) (ttd : ℕ) (flags : Flags) (malloced : Bool)
      (c : Crec) (st : Store)
      → IsSorted st
      → IsSorted (grab name addr ttd flags malloced c st).1
  unfolding grab fill
  grab-IsSorted name addr ttd flags malloced c st o = ground (arith, o)

  insert_round-EndsSorted :
      (now : ℕ) (again : Bool → Bool → Store → Outcome (Option Crec × Store))
      (got : Crec → Store → Option Crec × Store) (used free_avail freed_all : Bool) (new : Crec)
      (st : Store)
      → ((a b : Bool) (st : Store) → IsSorted st → EndsSorted (again a b st))
      → ((new : Crec) (st : Store) → IsSorted st → IsSorted (got new st).1)
      → IsSorted st
      → EndsSorted (insert_round mix_tab now again got used free_avail freed_all new st)
  unfolding insert_round
  insert_round-EndsSorted now again got false free_avail freed_all new st h k o = k new st o
  insert_round-EndsSorted now again got true true freed_all new st h k o = o
  insert_round-EndsSorted now again got true false true new st h k o =
      h true true _ (cache_scan_free-IsSorted new.name new.addr now new.flags st o)
  insert_round-EndsSorted now again got true false false new st h k o =
      h true false _ (cache_scan_free-IsSorted [] [] now no_flags st o)

  insert_tail-EndsSorted :
      (now : ℕ) (again : Bool → Bool → Store → Outcome (Option Crec × Store))
      (got : Crec → Store → Option Crec × Store) (free_avail freed_all : Bool) (st : Store)
      (last : Option Crec)
      → ((a b : Bool) (st : Store) → IsSorted st → EndsSorted (again a b st))
      → ((new : Crec) (st : Store) → IsSorted st → IsSorted (got new st).1)
      → IsSorted st
      → EndsSorted (insert_tail mix_tab now again got free_avail freed_all st last)
  unfolding insert_tail
  insert_tail-EndsSorted now again got free_avail freed_all st none h k o = o
  insert_tail-EndsSorted now again got free_avail freed_all st (some new) h k o =
      insert_round-EndsSorted now again got (new.flags.forward || new.flags.reverse) free_avail
        freed_all new st h k o

  insert_loop-EndsSorted :
      (fuel now : ℕ) (got : Crec → Store → Option Crec × Store) (freed_all free_avail : Bool)
      (st : Store)
      → ((new : Crec) (st : Store) → IsSorted st → IsSorted (got new st).1)
      → IsSorted st
      → EndsSorted (insert_loop mix_tab fuel now got freed_all free_avail st)
  unfolding insert_loop
  insert_loop-EndsSorted zero now got freed_all free_avail st k o = tt
  insert_loop-EndsSorted (suc fuel) now got freed_all free_avail st k o =
      insert_tail-EndsSorted now _ got free_avail freed_all st (tail_of st.lru)
        (λ a b s h. insert_loop-EndsSorted fuel now got a b s k h) k o

  insert_checked-EndsSorted :
      (failing free : Bool) (looped : Outcome (Option Crec × Store)) (st scanned : Store)
      → EndsSorted looped
      → IsSorted st
      → IsSorted scanned
      → EndsSorted (insert_checked mix_tab failing free looped st scanned)
  unfolding insert_checked
  insert_checked-EndsSorted true free looped st scanned l o h = o
  insert_checked-EndsSorted false true looped st scanned l o h = l
  insert_checked-EndsSorted false false looped st scanned l o h = h

  pub cache_insert-EndsSorted :
      (fuel : ℕ) (name : List ℕ) (addr : Option (List ℕ)) (now ttl : ℕ) (flags : Flags)
      (malloced : Bool) (st : Store)
      → IsSorted st
      → EndsSorted (cache_insert mix_tab fuel name addr now ttl flags malloced st)
  unfolding cache_insert
  cache_insert-EndsSorted fuel name addr now ttl flags malloced st o =
      let scanned = cache_scan_free-IsSorted name _ now flags st o in
      insert_checked-EndsSorted st.insert_error _ _ st _
        (insert_loop-EndsSorted fuel now (grab name addr (now + ttl) flags malloced) flags.reverse
          false _ (λ new s h. grab-IsSorted name addr (now + ttl) flags malloced new s h) scanned)
        o scanned
