-- ===== src/Dnsmasq/Cache/Insert/Reach.antt =====
-- The states that the cache of src/cache.c in http1.0/src/dnsmasq/dnsmasq-2.45 comes to.
use mydns.Prelude.{ℕ, ◌≡◌, List, Bool, Option, none, Outcome, done, fault, no_fuel, set}
use mydns.Dnsmasq.Cache.Chain.{Flags, Crec}
use mydns.Dnsmasq.Cache.Find.{cache_find_by_addr}
use mydns.Dnsmasq.Cache.ByName.{cache_find_by_name}
use mydns.Dnsmasq.Cache.Insert.{
  Store, chain_at, bucket, rehash, cache_start_insert, cache_insert, cache_end_insert,
}
use mydns.Dnsmasq.Cache.Insert.Sorted.{IsSorted}

module _ (mix_tab : ℕ → ℕ) where
  -- One call of an operation, on any arguments. Of a lookup, only the chains that it leaves are
  -- stated, so that whatever else it does is allowed.
  pub data Step : Store → Store → Type 0 where
    start : (st : Store) → Step st (cache_start_insert st)
    insert :
        (fuel : ℕ) (name : List ℕ) (addr : Option (List ℕ)) (now ttl : ℕ) (flags : Flags)
        (malloced : Bool) (st : Store) (r : Option Crec × Store)
        → cache_insert mix_tab fuel name addr now ttl flags malloced st ≡ done r
        → Step st r.1
    finish : (st : Store) → Step st (cache_end_insert mix_tab st)
    grow :
        (fuel : ℕ) (malloced : Bool) (size : ℕ) (st left : Store)
        → rehash mix_tab fuel malloced size st ≡ done left
        → Step st left
    by_name :
        (name : List ℕ) (now : ℕ) (prot : Flags) (st left : Store)
        → left.table
          ≡ set st.table
              (bucket mix_tab name st)
              (cache_find_by_name name now prot none st.uids
                (chain_at st.table (bucket mix_tab name st))
                st.lru).chain
        → Step st left
    by_addr :
        (same_addr : List ℕ → Bool) (now : ℕ) (prot : Flags) (st left : Store)
        → left.table ≡ (cache_find_by_addr same_addr now prot none st.table st.lru).table
        → Step st left

  pub data Reaches : Store → Store → Type 0 where
    here : (st : Store) → Reaches st st
    further : (first st next : Store) → Reaches first st → Step st next → Reaches first next

  abbrev EndsOrdered : Outcome Store → Type 0
  EndsOrdered (done st) = IsSorted st
  EndsOrdered fault = Unit
  EndsOrdered no_fuel = Unit
