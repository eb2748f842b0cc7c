-- ===== src/Dnsmasq/Cache/Insert/Order.antt =====
-- The order of the hash chains under the operations of src/cache.c in
-- http1.0/src/dnsmasq/dnsmasq-2.45.
use mydns.Prelude.{
  ℕ, zero, suc, ◌≤◌, List, [], ◌∷◌, ◌||◌, if◌then◌else◌, Bool, true, false, not, All, set,
  replicate,
}
use mydns.Dnsmasq.Cache.Chain.{
  Flags, Crec, Uids, Scanned, is_expired, is_kept, is_outdated_cname_pointer, is_named,
  is_addressed, keep, drop_entry, scan_forward, scan_all,
}
use mydns.Dnsmasq.Cache.Chain.Laws.{rank, IsOrdered}
use mydns.Dnsmasq.Cache.Find.{Search, find_in_chain, find_in_table}
use mydns.Dnsmasq.Cache.Insert.{chain_at, scan_table}

-- A chain from which entries were taken.
pub data IsThinned : List Crec → List Crec → Type 0 where
  same : (chain : List Crec) → IsThinned chain chain
  left_in : (c : Crec) (new old : List Crec) → IsThinned new old → IsThinned (c ∷ new) (c ∷ old)
  taken : (c : Crec) (new old : List Crec) → IsThinned new old → IsThinned new (c ∷ old)

IsThinned-All :
    (P : Crec → Type 0) {new old : List Crec} → IsThinned new old → All P old → All P new
IsThinned-All P (same chain) a = a
IsThinned-All P (left_in c new old t) a = (a.0, IsThinned-All P t a.1)
IsThinned-All P (taken c new old t) a = IsThinned-All P t a.1

pub IsThinned-IsOrdered : {new old : List Crec} → IsThinned new old → IsOrdered old → IsOrdered new
IsThinned-IsOrdered (same chain) o = o
IsThinned-IsOrdered (left_in c new old t) o =
    (IsThinned-All (λ y. rank c ≤ rank y) t o.0, IsThinned-IsOrdered t o.1)
IsThinned-IsOrdered (taken c new old t) o = IsThinned-IsOrdered t o.1

-- What each loop does with one entry, from its tests.
forward_turn :
    (stale named kept : Bool) (c : Crec) (chain : List Crec) (s : Scanned)
    → IsThinned s.chain chain
    → IsThinned
        (if stale
          then (if not kept then drop_entry c s else s)
          else if named
          then (if kept
              then record { chain = c ∷ chain; freed = []; result = false }
              else drop_entry c s)
          else keep c s).chain
        (c ∷ chain)
forward_turn true named true c chain s t = taken c s.chain chain t
forward_turn true named false c chain s t = taken c s.chain chain t
forward_turn false true true c chain s t = same (c ∷ chain)
forward_turn false true false c chain s t = taken c s.chain chain t
forward_turn false false kept c chain s t = left_in c s.chain chain t

all_turn :
    (ended expired addressed kept : Bool) (c : Crec) (chain : List Crec) (s : Scanned)
    → IsThinned s.chain chain
    → IsThinned
        (if ended
          then record { chain = c ∷ chain; freed = []; result = true }
          else if expired
          then (if not kept then drop_entry c s else s)
          else if addressed
          then drop_entry c s
          else keep c s).chain
        (c ∷ chain)
all_turn true expired addressed kept c chain s t = same (c ∷ chain)
all_turn false true addressed true c chain s t = taken c s.chain chain t
all_turn false true addressed false c chain s t = taken c s.chain chain t
all_turn false false true kept c chain s t = taken c s.chain chain t
all_turn false false false kept c chain s t = left_in c s.chain chain t

find_turn :
    (other live : Bool) (c : Crec) (chain left : List Crec) (before after : Search)
    → IsThinned left chain
    → IsThinned
        (let r : Search × List Crec =
            if other then (before, c ∷ chain) else (after, if live then c ∷ left else left) in
          r.1)
        (c ∷ chain)
find_turn true live c chain left before after t = same (c ∷ chain)
find_turn false true c chain left before after t = left_in c left chain t
find_turn false false c chain left before after t = taken c left chain t

pub scan_forward-IsThinned :
    (name : List ℕ) (now : ℕ) (flags : Flags) (chain : List Crec) (uids : Uids)
    → IsThinned (scan_forward name now flags uids chain).chain chain
unfolding scan_forward
scan_forward-IsThinned name now flags [] uids = same []
scan_forward-IsThinned name now flags (c ∷ chain) uids =
    forward_turn (is_expired now c || is_outdated_cname_pointer uids c) (is_named name flags c)
      (is_kept c) c chain _ (scan_forward-IsThinned name now flags chain _)

scan_all-IsThinned :
    (same_addr : List ℕ → Bool) (now : ℕ) (flags : Flags) (chain : List Crec)
    → IsThinned (scan_all same_addr now flags chain).chain chain
unfolding scan_all
scan_all-IsThinned same_addr now flags [] = same []
scan_all-IsThinned same_addr now flags (c ∷ chain) =
    all_turn (not (c.flags.reverse || not c.flags.immortal)) (is_expired now c)
      (is_addressed same_addr flags c) (is_kept c) c chain _
      (scan_all-IsThinned same_addr now flags chain)

find_in_chain-IsThinned :
    (same_addr : List ℕ → Bool) (now : ℕ) (prot : Flags) (chain : List Crec) (s : Search)
    → IsThinned (find_in_chain same_addr now prot s chain).1 chain
unfolding find_in_chain
find_in_chain-IsThinned same_addr now prot [] s = same []
find_in_chain-IsThinned same_addr now prot (c ∷ chain) s =
    find_turn (not c.flags.reverse) (not (is_expired now c)) c chain _ s _
      (find_in_chain-IsThinned same_addr now prot chain _)

-- The tables that the operations leave.
pub find_in_table-IsOrdered :
    (same_addr : List ℕ → Bool) (now : ℕ) (prot : Flags) (table : List (List Crec)) (s : Search)
    → All IsOrdered table
    → All IsOrdered (find_in_table same_addr now prot s table).1
unfolding find_in_table
find_in_table-IsOrdered same_addr now prot [] s o = tt
find_in_table-IsOrdered same_addr now prot (chain ∷ table) s o = (
  IsThinned-IsOrdered (find_in_chain-IsThinned same_addr now prot chain s) o.0,
  find_in_table-IsOrdered same_addr now prot table _ o.1,
)

pub scan_table-IsOrdered :
    (addr : List ℕ) (now : ℕ) (flags : Flags) (table : List (List Crec))
    → All IsOrdered table
    → All IsOrdered (scan_table addr now flags table).0
unfolding scan_table
scan_table-IsOrdered addr now flags [] o = tt
scan_table-IsOrdered addr now flags (chain ∷ table) o = (
  IsThinned-IsOrdered (scan_all-IsThinned _ now flags chain) o.0,
  scan_table-IsOrdered addr now flags table o.1,
)

pub set-IsOrdered :
    (table : List (List Crec)) (i : ℕ) (chain : List Crec)
    → All IsOrdered table
    → IsOrdered chain
    → All IsOrdered (set table i chain)
set-IsOrdered [] i chain o h = tt
set-IsOrdered (x ∷ table) zero chain o h = (h, o.1)
set-IsOrdered (x ∷ table) (suc i) chain o h = (o.0, set-IsOrdered table i chain o.1 h)

pub chain_at-IsOrdered :
    (table : List (List Crec)) (i : ℕ) → All IsOrdered table → IsOrdered (chain_at table i)
chain_at-IsOrdered [] i o = tt
chain_at-IsOrdered (x ∷ table) zero o = o.0
chain_at-IsOrdered (x ∷ table) (suc i) o = chain_at-IsOrdered table i o.1

pub replicate-IsOrdered : (n : ℕ) → All IsOrdered (replicate n [])
replicate-IsOrdered zero = tt
replicate-IsOrdered (suc n) = (tt, replicate-IsOrdered n)
