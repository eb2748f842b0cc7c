-- ===== src/Dnsmasq/Cache/Find.antt =====
-- `cache_find_by_addr` of src/cache.c in http1.0/src/dnsmasq/dnsmasq-2.45. The list of entries by age
-- is the sequence of its entries, on which `cache_unlink`, `cache_link` and `cache_free` work as
-- Cache/Lru shows; a pointer to an entry is the sequence that begins with it, through `next`.
pub mod Laws
pub mod Visits
pub mod Calls
use mydns.Prelude.{
  ℕ, List, [], ◌∷◌, ◌++◌, ◌==◌, ◌&&◌, if◌then◌else◌, Bool, true, false, not, Option, none, some,
}
use mydns.Dnsmasq.Cache.Chain.{Flags, Crec, is_expired, is_kept, same_family}

-- `cache_unlink`: an entry stands in the list once.
unfoldable pub unlinked : Crec → List Crec → List Crec
unlinked crecp [] = []
unlinked crecp (y ∷ lru) =
    let rest = unlinked crecp lru in if y.at == crecp.at then rest else y ∷ rest

-- An entry that `cache_free` has appended to the list.
unfoldable pub freed_entry : Crec → Crec
freed_entry crecp = record crecp {
  flags = record crecp.flags { forward = false; reverse = false; bigname = false };
}

-- The entries of the hosts file and of DHCP that the search has found so far, each of which leads to
-- the next, and the list by age.
pub record Search : Type 0 where
  pub hosts : List Crec
  pub lru : List Crec

-- One entry of the loop, which is expired or not, and is what is looked for or not.
unfoldable pub visit : Bool → Bool → Crec → Search → Search
visit true found crecp s =
    if not (is_kept crecp)
    then record s { lru = unlinked crecp s.lru ++ freed_entry crecp ∷ [] }
    else s
visit false true crecp s =
    if is_kept crecp
    then record s { hosts = s.hosts ++ crecp ∷ [] }
    else record s { lru = crecp ∷ unlinked crecp s.lru }
visit false false crecp s = s

module _ (same_addr : List ℕ → Bool) (now : ℕ) (prot : Flags) where
  -- `(crecp->flags & prot) && memcmp(…) == 0`; `prot` is F_IPV4 or F_IPV6.
  unfoldable pub has_addr : Crec → Bool
  has_addr crecp = same_family crecp.flags prot && same_addr crecp.addr

  -- The loop over a chain, which ends at the first entry without F_REVERSE.
  unfoldable pub find_in_chain : Search → List Crec → Search × List Crec
  find_in_chain s [] = (s, [])
  find_in_chain s (crecp ∷ chain) =
      let expired = is_expired now crecp in
      let (after, rest) = find_in_chain (visit expired (has_addr crecp) crecp s) chain in
      if not crecp.flags.reverse
      then (s, crecp ∷ chain)
      else (after, if not expired then crecp ∷ rest else rest)

  -- The loop over the hash table.
  unfoldable pub find_in_table : Search → List (List Crec) → Search × List (List Crec)
  find_in_table s [] = (s, [])
  find_in_table s (chain ∷ table) =
      let (first, left) = find_in_chain s chain in
      let (after, rest) = find_in_table first table in (after, left ∷ rest)

  -- The test of `ans` at the end, which gives a null pointer where it fails.
  unfoldable pub is_answer : Crec → Bool
  is_answer ans = ans.flags.reverse && has_addr ans

  unfoldable pub answer : List Crec → Option (List Crec)
  answer [] = none
  answer (ans ∷ rest) = if is_answer ans then some (ans ∷ rest) else none

  -- What a call gives: the entry found, the hash table and the list by age.
  pub record FoundByAddr : Type 0 where
    pub found : Option (List Crec)
    pub table : List (List Crec)
    pub lru : List Crec

  -- `cache_find_by_addr`, for a null pointer and for an entry.
  unfoldable pub cache_find_by_addr :
      Option (Crec × List Crec) → List (List Crec) → List Crec → FoundByAddr
  cache_find_by_addr none table lru =
      let (s, left) = find_in_table (record { hosts = []; lru = lru }) table in
      record { found = answer (s.hosts ++ s.lru); table = left; lru = s.lru }
  cache_find_by_addr (some (crecp, next)) table lru = record {
    found = answer next;
    table = table;
    lru = lru;
  }
