-- ===== src/Tests/Insert.antt =====
-- Insertions into the cache and lookups by name, for src/cache.c of
-- http1.0/src/dnsmasq/dnsmasq-2.45.
use mathlib.Core.List.{Perm}
use mydns.Prelude.{ℕ, ◌≡◌, refl, List, [], ◌∷◌, arith, true, false, none, codes}
use mydns.Dnsmasq.Names.{to_lower, hostname_isequal}
use mydns.Dnsmasq.Cache.Chain.{Flags, Crec, Uids, is_expired, is_outdated_cname_pointer}
use mydns.Dnsmasq.Cache.Chain.Laws.{rank, IsOrdered}
use mydns.Dnsmasq.Cache.ByName.{cache_find_by_name, name_loop, pass, has_name}
use mydns.Dnsmasq.Cache.ByName.Laws.{survivors, cache_find_by_name-IsOrdered}
use mydns.Dnsmasq.Cache.Insert.{Store, cache_end_insert, no_flags}

abbrev forward_ipv4 : Flags
forward_ipv4 = record no_flags { forward = true; ipv4 = true }

abbrev entry : ℕ → Flags → Crec
entry at flags = record {
  flags = flags;
  at = at;
  ttd = 9;
  name = codes "a";
  addr = [];
  target = none;
}

-- Two entries of a name that expire, and one that does not.
abbrev chain : List Crec
chain =
    entry 1 forward_ipv4
    ∷ entry 2 forward_ipv4
    ∷ entry 3 (record forward_ipv4 { immortal = true })
    ∷ []

abbrev fresh : Uids
fresh = record { of = λ i. 0; uid = 1 }

chain-IsOrdered : IsOrdered chain
unfolding rank
chain-IsOrdered = ((omega arith, (omega arith, tt)), ((omega arith, tt), (tt, tt)))

cache_find_by_name-IsOrdered_example :
    IsOrdered
      (cache_find_by_name
        (codes "a")
        6
        forward_ipv4
        none
        fresh
        chain
        (entry 1 forward_ipv4 ∷ [])).chain
    × Perm
        (cache_find_by_name
          (codes "a")
          6
          forward_ipv4
          none
          fresh
          chain
          (entry 1 forward_ipv4 ∷ [])).chain
        (survivors (codes "a") 6 forward_ipv4 fresh chain)
cache_find_by_name-IsOrdered_example =
    cache_find_by_name-IsOrdered (codes "a") 6 forward_ipv4 fresh chain (entry 1 forward_ipv4 ∷ [])
      chain-IsOrdered

-- The entry that was first is behind the other one of its group.
turned_round :
    (cache_find_by_name (codes "a") 6 forward_ipv4 none fresh chain []).chain
    ≡ entry 2 forward_ipv4
      ∷ entry 1 forward_ipv4
      ∷ entry 3 (record forward_ipv4 { immortal = true })
      ∷ []
unfolding cache_find_by_name name_loop is_expired is_outdated_cname_pointer pass has_name
    hostname_isequal to_lower
turned_round = refl

-- A table of two chains, with one entry that is free.
abbrev store : Store
store = record {
  table = chain ∷ [] ∷ [];
  lru = entry 2 forward_ipv4 ∷ entry 1 forward_ipv4 ∷ entry 4 no_flags ∷ [];
  uids = fresh;
  big_free = 0;
  bignames_left = 0;
  new_chain = [];
  insert_error = false;
  cache_live_freed = 0;
  cache_inserted = 0;
}

-- An entry that waits.
abbrev waiting : Store
waiting = record store { new_chain = entry 5 forward_ipv4 ∷ [] }

abbrev committed : Store
committed = cache_end_insert (λ i. i) waiting
