-- ===== src/Dnsmasq/Cache/ByName/Laws.antt =====
-- The order of the chain behind a lookup by name, for src/cache.c of
-- http1.0/src/dnsmasq/dnsmasq-2.45.
use mathlib.Core.List.{Perm, perm_middle}
use mathlib.Core.List.Perm
use mydns.Prelude.{
  ℕ, ◌≤◌, ◌≡◌, refl, ap, sym, subst, List, [], ◌∷◌, ◌++◌, ◌&&◌, if◌then◌else◌, Bool, true, false,
  not, All, All-append, All-append_left, Bool-cases, inl, inr, arith, append_assoc, append-nil,
  none,
}
use mydns.Dnsmasq.Cache.Chain.{Flags, Crec, Uids, uids_behind}
use mydns.Dnsmasq.Cache.Chain.Laws.{rank, IsOrdered}
use mydns.Dnsmasq.Cache.Find.{Search, visit}
use mydns.Dnsmasq.Cache.ByName.{
  Passed, looking, inserting, chain_of, same_group, pass, has_name, is_stale, name_loop,
  cache_find_by_name,
}

All-append_right : (P : Crec → Type 0) (xs ys : List Crec) → All P (xs ++ ys) → All P ys
All-append_right P [] ys a = a
All-append_right P (x ∷ xs) ys a = All-append_right P xs ys a.1

IsOrdered-right : (xs ys : List Crec) → IsOrdered (xs ++ ys) → IsOrdered ys
IsOrdered-right [] ys o = o
IsOrdered-right (x ∷ xs) ys o = IsOrdered-right xs ys o.1

All-without :
    (P : Crec → Type 0) (xs : List Crec) (c : Crec) (ys : List Crec)
    → All P (xs ++ c ∷ ys)
    → All P (xs ++ ys)
All-without P [] c ys a = a.1
All-without P (x ∷ xs) c ys a = (a.0, All-without P xs c ys a.1)

IsOrdered-without :
    (xs : List Crec) (c : Crec) (ys : List Crec) → IsOrdered (xs ++ c ∷ ys) → IsOrdered (xs ++ ys)
IsOrdered-without [] c ys o = o.1
IsOrdered-without (x ∷ xs) c ys o = (All-without _ xs c ys o.0, IsOrdered-without xs c ys o.1)

-- An entry moved in front of entries of which none ranks below it.
IsOrdered-moved :
    (xs ys : List Crec) (c : Crec) (zs : List Crec)
    → All (λ y. rank c ≤ rank y) ys
    → IsOrdered (xs ++ (ys ++ c ∷ zs))
    → IsOrdered (xs ++ c ∷ (ys ++ zs))
IsOrdered-moved [] ys c zs a o =
    (All-append _ ys zs a (IsOrdered-right ys (c ∷ zs) o).0, IsOrdered-without ys c zs o)
IsOrdered-moved (x ∷ xs) ys c zs a o = (
  moved (All-append_left _ xs _ o.0) (All-append_right _ xs _ o.0),
  IsOrdered-moved xs ys c zs a o.1,
)
  where
    moved :
        All (λ y. rank x ≤ rank y) xs
        → All (λ y. rank x ≤ rank y) (ys ++ c ∷ zs)
        → All (λ y. rank x ≤ rank y) (xs ++ c ∷ (ys ++ zs))
    moved front back =
        All-append _ xs _ front
          ((All-append_right _ ys (c ∷ zs) back).0, All-without _ ys c zs back)

-- The rank of an entry with these flags.
abbrev group_rank : Bool → Bool → ℕ
group_rank reverse immortal = if reverse then 0 else if immortal then 2 else 1

-- What has been passed is in order with what is left, and from the place of insertion on, no entry
-- ranks below the one that was found first.
abbrev IsInOrder : Passed → List Crec → Type 0
IsInOrder (looking front) rest = IsOrdered (front ++ rest)
IsInOrder (inserting reverse immortal front back) rest =
    IsOrdered (front ++ (back ++ rest))
    × All (λ y. group_rank reverse immortal ≤ rank y) (back ++ rest)

same_group-rank :
    (reverse immortal : Bool) (c : Crec)
    → same_group reverse immortal c ≡ true
    → rank c ≡ group_rank reverse immortal
unfolding rank
same_group-rank true true c h = ground arith
same_group-rank true false c h = ground arith
same_group-rank false true c h = ground arith
same_group-rank false false c h = ground arith

and-right : (a b : Bool) → (a && b) ≡ true → b ≡ true
and-right true b h = h
and-right false b h = cc

rank-group : (c : Crec) → group_rank c.flags.reverse c.flags.immortal ≡ rank c
unfolding rank
rank-group c = refl

pass-inserting :
    (found reverse immortal : Bool) (c : Crec) (front back : List Crec) (same : Bool)
    → (found && same_group reverse immortal c) ≡ same
    → pass found c (inserting reverse immortal front back) ≡ (
        if same
        then inserting reverse immortal (front ++ c ∷ []) back
        else inserting reverse immortal front (back ++ c ∷ []))
unfolding pass
pass-inserting found reverse immortal c front back same h =
    ap
      (λ b.
        if b
        then inserting reverse immortal (front ++ c ∷ []) back
        else inserting reverse immortal front (back ++ c ∷ []))
      h

pass-IsInOrder :
    (found : Bool) (c : Crec) (p : Passed) (rest : List Crec)
    → IsInOrder p (c ∷ rest)
    → IsInOrder (pass found c p) rest
unfolding pass
pass-IsInOrder true c (looking front) rest o =
    let later = (IsOrdered-right front (c ∷ rest) o).0 in
    (o, subst (λ r. All (λ y. r ≤ rank y) (c ∷ rest)) (sym (rank-group c)) (omega arith, later))
pass-IsInOrder false c (looking front) rest o = rw (append_assoc front (c ∷ []) rest) o
pass-IsInOrder found c (inserting reverse immortal front back) rest o =
    elim (Bool-cases (found && same_group reverse immortal c)) [
      | inl moved ↦
          let group = same_group-rank reverse immortal c (and-right found _ moved) in
          rw (pass-inserting found reverse immortal c front back true moved) (
            rw (append_assoc front (c ∷ []) (back ++ rest))
                (IsOrdered-moved front back c rest (rw group (All-append_left _ back _ o.1)) o.0),
            All-without _ back c rest o.1,
          )
      | inr stays ↦
          rw
            (
              pass-inserting found reverse immortal c front back false stays,
              append_assoc back (c ∷ []) rest,
            )
            o
    ]

-- Passing an entry leaves the same entries.
pass-Perm :
    (found : Bool) (c : Crec) (p : Passed) → Perm (chain_of (pass found c p)) (chain_of p ++ c ∷ [])
unfolding pass
pass-Perm true c (looking front) = Perm.rfl
pass-Perm false c (looking front) = Perm.rfl
pass-Perm found c (inserting reverse immortal front back) =
    elim (Bool-cases (found && same_group reverse immortal c)) [
      | inl moved ↦
          rw
            (
              pass-inserting found reverse immortal c front back true moved,
              append_assoc front (c ∷ []) back,
              append_assoc front back (c ∷ []),
            )
            (Perm.append_left front
              (Perm.symm (Perm.trans (perm_middle back []) (rw (append-nil back) Perm.rfl))))
      | inr stays ↦
          rw
            (
              pass-inserting found reverse immortal c front back false stays,
              append_assoc front back (c ∷ []),
            )
            Perm.rfl
    ]

-- A stale entry is left out.
IsInOrder-without :
    (c : Crec) (p : Passed) (rest : List Crec) → IsInOrder p (c ∷ rest) → IsInOrder p rest
IsInOrder-without c (looking front) rest o = IsOrdered-without front c rest o
IsInOrder-without c (inserting reverse immortal front back) rest o = (
  rw (sym (append_assoc front back rest))
      (IsOrdered-without (front ++ back) c rest (rw (append_assoc front back (c ∷ rest)) o.0)),
  All-without _ back c rest o.1,
)

chain_of-IsOrdered : (p : Passed) → IsInOrder p [] → IsOrdered (chain_of p)
chain_of-IsOrdered (looking front) o = rw (sym (append-nil front)) o
chain_of-IsOrdered (inserting reverse immortal front back) o = rw (sym (append-nil back)) o.0

module _ (name : List ℕ) (now : ℕ) (prot : Flags) where
  -- The entries that are not stale when the loop comes to them.
  unfoldable pub survivors : Uids → List Crec → List Crec
  survivors uids [] = []
  survivors uids (c ∷ chain) =
      let stale = is_stale name now prot uids c in
      let rest = survivors (uids_behind stale false c uids) chain in
      if not stale then c ∷ rest else rest

  name_loop-chain :
      (chain : List Crec) (uids : Uids) (s : Search) (p : Passed)
      → IsInOrder p chain
      → IsInOrder (name_loop name now prot uids s p chain).1 []
        × Perm
            (chain_of (name_loop name now prot uids s p chain).1)
            (chain_of p ++ survivors uids chain)
  unfolding name_loop survivors
  name_loop-chain [] uids s p o = (o, rw (append-nil (chain_of p)) Perm.rfl)
  name_loop-chain (c ∷ chain) uids s p o =
      let stale = is_stale name now prot uids c in
      let found = has_name name now prot c in
      let after = uids_behind stale false c uids in
      let next = visit stale found c s in
      let rest = survivors after chain in
      let goal : Bool → Type 0 = λ b.
        let r = name_loop name now prot after next (if not b then pass found c p else p) chain in
        IsInOrder r.1 [] × Perm (chain_of r.1) (chain_of p ++ (if not b then c ∷ rest else rest)) in
      elim (Bool-cases stale) [
        | inl out ↦
            subst goal (sym out)
              (name_loop-chain chain after next p (IsInOrder-without c p chain o))
        | inr live ↦
            let (order, same) =
              name_loop-chain chain after next (pass found c p)
                (pass-IsInOrder found c p chain o) in
            subst goal (sym live) (
              order,
              Perm.trans same (
                  Perm.trans (Perm.append_right rest (pass-Perm found c p))
                    (rw (append_assoc (chain_of p) (c ∷ []) rest) Perm.rfl)),
            )
      ]

  -- A first lookup by name on an ordered chain leaves it ordered, and leaves in it exactly the
  -- entries that are neither expired nor an alias without its target when it comes to them.
  pub cache_find_by_name-IsOrdered :
      (uids : Uids) (chain lru : List Crec)
      → IsOrdered chain
      → (let first = cache_find_by_name name now prot none uids chain lru in
          IsOrdered first.chain × Perm first.chain (survivors uids chain))
  unfolding cache_find_by_name
  cache_find_by_name-IsOrdered uids chain lru o =
      let (order, same) =
        name_loop-chain chain uids (record { hosts = []; lru = lru }) (looking []) o in
      (chain_of-IsOrdered _ order, same)
