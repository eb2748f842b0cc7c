-- ===== src/Firewall/Fdb.antt =====
-- The lookups in the bridge's forwarding table of firewall/zmfilter.c, over one hash chain.
use mydns.Prelude.{
  ℕ, ◌≡◌, refl, ap, List, [], ◌∷◌, ◌++◌, Bool, true, false, ◌&&◌, ◌==◌, if◌then◌else◌, Option, none,
  some, Outcome, done, fault, Bool-cases, inl, inr, All,
}

-- `struct net_bridge_fdb_entry`, as far as the lookups read it.
pub record FdbEntry : Type 0 where
  pub addr : List ℕ
  pub dst : ℕ

-- `!compare_ether_addr(a, b)`
unfoldable pub same_addr : List ℕ → List ℕ → Bool
same_addr [] [] = true
same_addr (x ∷ xs) (y ∷ ys) = x == y && same_addr xs ys
same_addr _ _ = false

-- `fdb_find_zm`; `fdb_find_rcu_zm` has the same text over the read-side list macro.
unfoldable pub fdb_find_zm : List FdbEntry → List ℕ → Option FdbEntry
fdb_find_zm [] addr = none
fdb_find_zm (e ∷ es) addr =
    let rest = fdb_find_zm es addr in if same_addr e.addr addr then some e else rest

-- The loop of `__br_fdb_get_zm`, from the value that `fdb` has before the entries left. The list
-- macro sets `fdb` for each entry and does not clear it at the end of the chain.
unfoldable pub br_fdb_get_loop : Outcome FdbEntry → List FdbEntry → List ℕ → Outcome FdbEntry
br_fdb_get_loop fdb [] addr = fdb
br_fdb_get_loop fdb (e ∷ es) addr =
    let rest = br_fdb_get_loop (done e) es addr in if same_addr e.addr addr then done e else rest

-- `__br_fdb_get_zm`: the value of `fdb` is not set when the chain is empty.
unfoldable pub br_fdb_get_zm : List FdbEntry → List ℕ → Outcome FdbEntry
unfolding br_fdb_get_loop
br_fdb_get_zm chain addr = br_fdb_get_loop fault chain addr

-- No entry has the address.
abbrev pub IsAbsent : List FdbEntry → List ℕ → Type 0
IsAbsent es addr = All (λ e. same_addr e.addr addr ≡ false) es

-- What a lookup should return: an entry with the address that no other precedes, or nothing when
-- no entry has it.
abbrev pub Finds : List FdbEntry → List ℕ → Option FdbEntry → Type 0
Finds es addr none = IsAbsent es addr
Finds es addr (some e) =
    (front : List FdbEntry) × (back : List FdbEntry) × (es ≡ front ++ e ∷ back)
    × IsAbsent front addr
    × (same_addr e.addr addr ≡ true)

Finds-cons :
    (e : FdbEntry) (es : List FdbEntry) (addr : List ℕ) (o : Option FdbEntry)
    → same_addr e.addr addr ≡ false
    → Finds es addr o
    → Finds (e ∷ es) addr o
Finds-cons e es addr none h f = (h, f)
Finds-cons e es addr (some x) h (front, back, split, absent, same) =
    (e ∷ front, back, ap (◌∷◌ e) split, (h, absent), same)

-- `fdb_find_zm` returns the first entry with the address, and a null pointer when there is none.
pub fdb_find_zm-Finds : (es : List FdbEntry) (addr : List ℕ) → Finds es addr (fdb_find_zm es addr)
unfolding fdb_find_zm
fdb_find_zm-Finds [] addr = tt
fdb_find_zm-Finds (e ∷ es) addr = elim (Bool-cases (same_addr e.addr addr)) [
  | inl same ↦ rw same ([], es, refl, tt, same)
  | inr other ↦ rw other (Finds-cons e es addr _ other (fdb_find_zm-Finds es addr))
]

br_fdb_get_loop-absent :
    (fdb : Outcome FdbEntry) (es : List FdbEntry) (last : FdbEntry) (addr : List ℕ)
    → IsAbsent (es ++ last ∷ []) addr
    → br_fdb_get_loop fdb (es ++ last ∷ []) addr ≡ done last
unfolding br_fdb_get_loop
br_fdb_get_loop-absent fdb [] last addr h = rw h.0
br_fdb_get_loop-absent fdb (e ∷ es) last addr h =
    rw h.0 (br_fdb_get_loop-absent (done e) es last addr h.1)

fdb_find_zm-absent :
    (es : List FdbEntry) (addr : List ℕ) → IsAbsent es addr → fdb_find_zm es addr ≡ none
unfolding fdb_find_zm
fdb_find_zm-absent [] addr h = refl
fdb_find_zm-absent (e ∷ es) addr h = rw h.0 (fdb_find_zm-absent es addr h.1)

-- When no entry of a chain has the address, `__br_fdb_get_zm` returns the chain's last entry, which
-- is another host's.
pub br_fdb_get_zm-absent :
    (es : List FdbEntry) (last : FdbEntry) (addr : List ℕ)
    → IsAbsent (es ++ last ∷ []) addr
    → (br_fdb_get_zm (es ++ last ∷ []) addr ≡ done last)
      × (fdb_find_zm (es ++ last ∷ []) addr ≡ none)
unfolding br_fdb_get_zm
br_fdb_get_zm-absent es last addr h =
    (br_fdb_get_loop-absent fault es last addr h, fdb_find_zm-absent (es ++ last ∷ []) addr h)
