-- ===== src/Tests/Cache.antt =====
-- Entries, chains and buckets of the cache, for src/cache.c of http1.0/src/dnsmasq/dnsmasq-2.45.
use mydns.Prelude.{
  inl, ℕ, ◌≡◌, refl, List, [], ◌∷◌, arith, Bool, true, false, if◌then◌else◌, none, some, done, All,
  codes, ◌==◌,
}
use mydns.Dnsmasq.Names.{to_lower, hostname_isequal}
use mydns.Dnsmasq.Cache.Lru.{Lru, cache_link, cache_unlink, append_tail}
use mydns.Dnsmasq.Cache.Lru.Laws.{IsLru, cache_link-cache_unlink}
use mydns.Dnsmasq.Cache.Chain.{
  Crec, is_expired, is_outdated_cname_pointer, is_named, scan_forward, scan_all, Uids, free_uid,
}
use mydns.Dnsmasq.Cache.Chain.Laws.{rank, IsOrdered}
use mydns.Dnsmasq.Cache.Chain.Scan.{full_scan, scan_all-full_scan}
use mydns.Dnsmasq.Cache.Chain.Forward.{is_dirty, scan_forward-IsClean}
use mydns.Dnsmasq.Cache.Chain.Scan.{select}
use mydns.Dnsmasq.Cache.Find.{FoundByAddr, has_addr, cache_find_by_addr}
use mydns.Dnsmasq.Cache.Find.Laws.{IsBacked}
use mydns.Dnsmasq.Cache.Find.Calls.{calls, cache_find_by_addr-answers_of}

-- The entries 4, 7 and 2.
abbrev three : Lru
three = record {
  next = λ i. if i == 4 then some 7 else if i == 7 then some 2 else none;
  prev = λ i. if i == 7 then some 4 else if i == 2 then some 7 else none;
  head = some 4;
  tail = some 2;
}

three-IsLru : IsLru three (4 ∷ 7 ∷ 2 ∷ [])
three-IsLru = record {
  seg = (refl, refl, (refl, (refl, tt)), (refl, refl, (refl, tt), (refl, refl, tt, tt)));
  from_head = refl;
  to_tail = refl;
}

cache_link-cache_unlink_example :
    IsLru (cache_link 7 (cache_unlink 7 three)) (7 ∷ 4 ∷ 2 ∷ [])
    × IsLru (append_tail 7 (cache_unlink 7 three)) (4 ∷ 2 ∷ 7 ∷ [])
cache_link-cache_unlink_example = cache_link-cache_unlink three (4 ∷ []) 7 (2 ∷ []) three-IsLru

abbrev entry : Bool → Bool → ℕ → Crec
entry immortal reverse ttd = record {
  flags = record {
    immortal = immortal;
    reverse = reverse;
    forward = true;
    dhcp = false;
    hosts = false;
    ipv4 = true;
    ipv6 = false;
    cname = false;
    bigname = false;
  };
  at = 0;
  ttd = ttd;
  name = codes "a";
  addr = [];
  target = none;
}

-- One entry of each group.
abbrev chain : List Crec
chain = entry false true 5 ∷ entry false false 9 ∷ entry true false 0 ∷ []

chain-IsOrdered : IsOrdered chain
unfolding rank
chain-IsOrdered = ((omega arith, (omega arith, tt)), ((omega arith, tt), (tt, tt)))

scan_all-full_scan_example :
    scan_all (λ addr. false) 6 (entry false true 0).flags chain
    ≡ full_scan (λ addr. false) 6 (entry false true 0).flags chain
scan_all-full_scan_example =
    scan_all-full_scan (λ addr. false) 6 (entry false true 0).flags chain chain-IsOrdered

abbrev fresh : Uids
fresh = record { of = λ i. 0; uid = 1 }

scan_forward-IsClean_example :
    All
      (λ c. is_dirty (codes "b") 6 (entry false false 0).flags fresh c ≡ false)
      (scan_forward (codes "b") 6 (entry false false 0).flags fresh chain).chain
unfolding scan_forward is_expired is_outdated_cname_pointer is_named hostname_isequal to_lower
scan_forward-IsClean_example =
    scan_forward-IsClean (codes "b") 6 (entry false false 0).flags fresh chain
      ((λ a b e. cc), ((λ a b e. cc), ((λ a b e. cc), tt))) (omega arith) refl

-- An alias whose target was freed in front of it is freed in the same scan.
abbrev alias_chain : List Crec
alias_chain =
    record (entry false false 5) { at = 1 }
    ∷ record (entry false false 9) {
      at = 2;
      flags = record (entry false false 9).flags { cname = true };
      target = some (1, 0);
    }
    ∷ []

alias_is_freed :
    (scan_forward (codes "b") 6 (entry false false 0).flags fresh alias_chain).chain ≡ []
unfolding scan_forward is_expired is_outdated_cname_pointer is_named hostname_isequal to_lower
    free_uid
alias_is_freed = refl

-- Two entries of the address, the second one from the hosts file.
abbrev by_age : Crec
by_age = record (entry false true 9) { at = 1 }

abbrev from_hosts : Crec
from_hosts = record (entry true true 0) {
  at = 2;
  flags = record (entry true true 0).flags { hosts = true };
}

by_age-IsBacked :
    All (IsBacked (λ addr. true) 6 by_age.flags (by_age ∷ from_hosts ∷ [])) (by_age ∷ [])
by_age-IsBacked = ((refl, λ h. inl refl), tt)

cache_find_by_addr-answers_of_example :
    (let first : FoundByAddr (λ addr. true) 6 by_age.flags =
        cache_find_by_addr
          (λ addr. true)
          6
          by_age.flags
          none
          ((by_age ∷ from_hosts ∷ []) ∷ [])
          (by_age ∷ []) in
      calls (λ addr. true) 6 by_age.flags 2 first.table first.lru first.found
      ≡ done (from_hosts ∷ by_age ∷ []))
unfolding rank is_expired select has_addr
cache_find_by_addr-answers_of_example =
    cache_find_by_addr-answers_of (λ addr. true) 6 by_age.flags 2 ((by_age ∷ from_hosts ∷ []) ∷ [])
      (by_age ∷ []) (((omega arith, tt), (tt, tt)), tt) ((refl, tt), (tt, tt)) by_age-IsBacked
      (omega arith)
