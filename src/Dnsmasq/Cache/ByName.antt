-- ===== src/Dnsmasq/Cache/ByName.antt =====
-- `cache_find_by_name` of src/cache.c in http1.0/src/dnsmasq/dnsmasq-2.45. A pointer to an entry and
-- the list of entries by age are as in Cache/Find.
pub mod Laws
use mydns.Prelude.{
  ℕ, List, [], ◌∷◌, ◌++◌, ◌&&◌, ◌||◌, if◌then◌else◌, Bool, true, false, not, Option, none, some,
}
use mydns.Dnsmasq.Names.{hostname_isequal}
use mydns.Dnsmasq.Cache.Chain.{
  Flags, Crec, Uids, is_expired, is_outdated_cname_pointer, is_kept, uids_behind,
}
use mydns.Dnsmasq.Cache.Find.{Search, visit}

-- The part of the chain that the loop has passed: `looking` as long as `insert` is a null pointer,
-- then `inserting` with `ins_flags`, F_REVERSE and F_IMMORTAL, and what stands in front of `*insert`
-- and from there on.
pub data Passed : Type 0 where
  looking : List Crec → Passed
  inserting : Bool → Bool → List Crec → List Crec → Passed

-- The chain up to `*up`.
abbrev pub chain_of : Passed → List Crec
chain_of (looking front) = front
chain_of (inserting reverse immortal front back) = front ++ back

abbrev pub same_bit : Bool → Bool → Bool
same_bit true b = b
same_bit false b = not b

-- `(crecp->flags & (F_REVERSE | F_IMMORTAL)) == ins_flags`
abbrev pub same_group : Bool → Bool → Crec → Bool
same_group reverse immortal crecp =
    same_bit reverse crecp.flags.reverse && same_bit immortal crecp.flags.immortal

-- An entry that is what is looked for, or is not.
unfoldable pub pass : Bool → Crec → Passed → Passed
pass found crecp (looking front) =
    if found
    then inserting crecp.flags.reverse crecp.flags.immortal front (crecp ∷ [])
    else looking (front ++ crecp ∷ [])
pass found crecp (inserting reverse immortal front back) =
    if found && same_group reverse immortal crecp
    then inserting reverse immortal (front ++ crecp ∷ []) back
    else inserting reverse immortal front (back ++ crecp ∷ [])

-- `crecp->flags & prot`
abbrev pub shares : Flags → Flags → Bool
shares f g =
    (((f.immortal && g.immortal) || (f.reverse && g.reverse))
      || ((f.forward && g.forward) || (f.dhcp && g.dhcp)))
    || (((f.hosts && g.hosts) || (f.cname && g.cname))
        || ((f.ipv4 && g.ipv4) || (f.ipv6 && g.ipv6)))

module _ (name : List ℕ) (now : ℕ) (prot : Flags) where
  -- The test of an entry, in the loop and of `ans` at the end.
  unfoldable pub has_name : Crec → Bool
  has_name crecp =
      (crecp.flags.forward && shares crecp.flags prot) && hostname_isequal crecp.name name

  abbrev pub is_stale : Uids → Crec → Bool
  is_stale uids crecp = is_expired now crecp || is_outdated_cname_pointer uids crecp

  -- The loop over the chain of the name, with `cache_free` of the entries that are stale.
  unfoldable pub name_loop : Uids → Search → Passed → List Crec → Search × Passed
  name_loop uids s passed [] = (s, passed)
  name_loop uids s passed (crecp ∷ chain) =
      let stale = is_stale uids crecp in
      let found = has_name crecp in
      name_loop (uids_behind stale false crecp uids) (visit stale found crecp s)
        (if not stale then pass found crecp passed else passed) chain

  unfoldable pub named_answer : List Crec → Option (List Crec)
  named_answer [] = none
  named_answer (ans ∷ rest) = if has_name ans then some (ans ∷ rest) else none

  -- What a call gives: the entry found, the chain of the name and the list by age.
  pub record FoundByName : Type 0 where
    pub found : Option (List Crec)
    pub chain : List Crec
    pub lru : List Crec

  -- `cache_find_by_name`, for a null pointer and for an entry.
  unfoldable pub cache_find_by_name :
      Option (Crec × List Crec) → Uids → List Crec → List Crec → FoundByName
  cache_find_by_name none uids chain lru =
      let (s, passed) = name_loop uids (record { hosts = []; lru = lru }) (looking []) chain in
      record { found = named_answer (s.hosts ++ s.lru); chain = chain_of passed; lru = s.lru }
  cache_find_by_name (some (crecp, next)) uids chain lru = record {
    found = named_answer next;
    chain = chain;
    lru = lru;
  }
