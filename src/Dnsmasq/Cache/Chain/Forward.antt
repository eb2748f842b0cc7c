-- ===== src/Dnsmasq/Cache/Chain/Forward.antt =====
-- The scan for a name in `cache_scan_free` of src/cache.c, http1.0/src/dnsmasq/dnsmasq-2.45.
use mydns.Prelude.{
  ℕ, ◌+◌, ◌^◌, ◌<◌, ◌≤◌, ◌==◌, ◌⊎◌, inl, inr, arith, sym, Option, none, some, Bool-cases, length,
  ◌≡◌, refl, List, [], ◌∷◌, ◌||◌, ◌&&◌, if◌then◌else◌, Bool, true, false, not, All,
}
use mydns.Dnsmasq.Cache.Chain.{
  Flags, Crec, is_expired, is_outdated_cname_pointer, is_kept, is_named, Scanned, keep, drop_entry,
  scan_forward, Uids, free_uid, uids_behind,
}

-- One entry of the loop, from its three tests.
abbrev turn : Bool → Bool → Bool → Crec → List Crec → Scanned → Scanned
turn stale named kept c chain rest =
    if stale
    then (if not kept then drop_entry c rest else rest)
    else if named
    then (if kept
        then record { chain = c ∷ chain; freed = []; result = false }
        else drop_entry c rest)
    else keep c rest

turn-All :
    (P : Crec → Type 0) (stale named kept : Bool) (c : Crec) (chain : List Crec) (rest : Scanned)
    → ((stale || named) ≡ false → P c)
    → (rest.result ≡ true → All P rest.chain)
    → (turn stale named kept c chain rest).result ≡ true
    → All P (turn stale named kept c chain rest).chain
turn-All P true named true c chain rest h k e = k e
turn-All P true named false c chain rest h k e = k e
turn-All P false true true c chain rest h k e = cc
turn-All P false true false c chain rest h k e = k e
turn-All P false false kept c chain rest h k e = (h refl, k e)

-- What the scan has made of the identifiers: an entry keeps its own, or has a new one.
record IsLater (old new : Uids) : Type 0 where
  own : (i : ℕ) → (new.of i ≡ old.of i) ⊎ (old.uid ≤ new.of i)
  counted : old.uid ≤ new.uid

IsLater-refl : (uids : Uids) → IsLater uids uids
IsLater-refl uids = record { own = λ i. inl refl; counted = omega arith }

IsLater-free_uid :
    (old new : Uids) (c : ℕ) → IsLater old new → new.uid + 1 < 2 ^ 32 → IsLater old (free_uid c new)
unfolding free_uid
IsLater-free_uid old new c l h = record {
  own = λ i. elim (Bool-cases (i == c)) [
    | inl same ↦ rw same (inr l.counted)
    | inr other ↦ rw other (l.own i)
  ];
  counted = omega (arith, l.counted, h);
}

-- The identifier that an alias expects has been given out.
abbrev pub IsGiven : ℕ → Crec → Type 0
IsGiven uid c = (cache expected : ℕ) → c.target ≡ some (cache, expected) → expected < uid

outdated_target :
    (alias : Bool) (old new : Uids) (target : Option (ℕ × ℕ))
    → IsLater old new
    → ((cache expected : ℕ) → target ≡ some (cache, expected) → expected < old.uid)
    → (if not alias then false else elim target [
      | none ↦ true
      | some (cache, uid) ↦ if uid == new.of cache then false else true
    ])
      ≡ false
    → (if not alias then false else elim target [
      | none ↦ true
      | some (cache, uid) ↦ if uid == old.of cache then false else true
    ])
      ≡ false
outdated_target false old new target l g e = refl
outdated_target true old new none l g e = e
outdated_target true old new (some (cache, expected)) l g e =
    let given = g cache expected refl in
    elim (l.own cache) [ inl same ↦ rw (sym same) e | inr fresh ↦ ground arith ]

is_outdated-IsLater :
    (old new : Uids) (c : Crec)
    → IsLater old new
    → IsGiven old.uid c
    → is_outdated_cname_pointer new c ≡ false
    → is_outdated_cname_pointer old c ≡ false
unfolding is_outdated_cname_pointer
is_outdated-IsLater old new c l g e = outdated_target c.flags.cname old new c.target l g e

-- Not expired, an alias that points nowhere, or named.
abbrev pub is_dirty : List ℕ → ℕ → Flags → Uids → Crec → Bool
is_dirty name now flags uids c =
    (is_expired now c || is_outdated_cname_pointer uids c) || is_named name flags c

dirty_lem :
    (expired old_outdated new_outdated named : Bool)
    → (new_outdated ≡ false → old_outdated ≡ false)
    → ((expired || new_outdated) || named) ≡ false
    → ((expired || old_outdated) || named) ≡ false
dirty_lem true o n named h e = e
dirty_lem false o true named h e = cc
dirty_lem false o false named h e = rw (h refl) e

IsLater-if :
    (freed : Bool) (old new : Uids) (c : ℕ)
    → IsLater old new
    → new.uid + 1 < 2 ^ 32
    → (let after = if freed then free_uid c new else new in
        IsLater old after × (after.uid ≤ new.uid + 1))
unfolding free_uid
IsLater-if true old new c l h = (IsLater-free_uid old new c l h, omega (arith, h))
IsLater-if false old new c l h = (l, omega arith)

scan_forward_from :
    (name : List ℕ) (now : ℕ) (flags : Flags) (old new : Uids) (chain : List Crec)
    → IsLater old new
    → All (IsGiven old.uid) chain
    → new.uid + length chain < 2 ^ 32
    → (scan_forward name now flags new chain).result ≡ true
    → All (λ c. is_dirty name now flags old c ≡ false) (scan_forward name now flags new chain).chain
unfolding scan_forward
scan_forward_from name now flags old new [] l g h e = tt
scan_forward_from name now flags old new (c ∷ chain) l g h e =
    let stale = is_expired now c || is_outdated_cname_pointer new c in
    let after = uids_behind stale (is_named name flags c) c new in
    let later : IsLater old after × (after.uid ≤ new.uid + 1) =
      IsLater-if ((stale || is_named name flags c) && not (is_kept c)) old new c.at l
        (omega (arith, h)) in
    turn-All (λ d. is_dirty name now flags old d ≡ false) stale (is_named name flags c) (is_kept c)
      c chain (scan_forward name now flags after chain)
      (dirty_lem (is_expired now c) _ (is_outdated_cname_pointer new c) (is_named name flags c)
        (is_outdated-IsLater old new c l g.0))
      (scan_forward_from name now flags old after chain later.0 g.1 (omega (arith, h, later.1))) e

-- When the scan for a name does not fail, none of the entries that it leaves in the chain is expired
-- or a forward entry of the name for the family asked for or an alias, and none was an alias without
-- its target before the scan, if the identifiers that the aliases expect have been given out and
-- those that the scan gives out do not come round.
pub scan_forward-IsClean :
    (name : List ℕ) (now : ℕ) (flags : Flags) (uids : Uids) (chain : List Crec)
    → All (IsGiven uids.uid) chain
    → uids.uid + length chain < 2 ^ 32
    → (scan_forward name now flags uids chain).result ≡ true
    → All
        (λ c. is_dirty name now flags uids c ≡ false)
        (scan_forward name now flags uids chain).chain
scan_forward-IsClean name now flags uids chain g h e =
    scan_forward_from name now flags uids uids chain (IsLater-refl uids) g h e
