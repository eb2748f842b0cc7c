-- ===== src/Dnsmasq/Cache/Chain/Laws.antt =====
-- The order of a hash chain in src/cache.c of http1.0/src/dnsmasq/dnsmasq-2.45, and the scans that
-- rely on it.
use mydns.Prelude.{
  ℕ, ◌≤◌, ◌≡◌, refl, ap, ◌∙◌, List, [], ◌∷◌, ◌++◌, arith, if◌then◌else◌, true, false, not, All,
  Bool-cases, inl, inr,
}
use mydns.Dnsmasq.Cache.Chain.{Crec, past_mortal, past_reverse, cache_hash}

-- The three groups of a chain: F_REVERSE, the others, and those that are immortal.
unfoldable pub rank : Crec → ℕ
rank crecp = if crecp.flags.reverse then 0 else if crecp.flags.immortal then 2 else 1

abbrev pub IsOrdered : List Crec → Type 0
IsOrdered [] = Unit
IsOrdered (x ∷ xs) = All (λ y. rank x ≤ rank y) xs × IsOrdered xs

-- Ordered, from this rank on.
abbrev IsFrom : ℕ → List Crec → Type 0
IsFrom n chain = All (λ y. n ≤ rank y) chain × IsOrdered chain

All-weaken_rank :
    (m n : ℕ) (chain : List Crec)
    → m ≤ n
    → All (λ y. n ≤ rank y) chain
    → All (λ y. m ≤ rank y) chain
All-weaken_rank m n [] h a = tt
All-weaken_rank m n (x ∷ xs) h a = (omega (arith, a.0), All-weaken_rank m n xs h a.1)

rank-reverse : (x : Crec) → x.flags.reverse ≡ true → rank x ≡ 0
unfolding rank
rank-reverse x h = rw h

pub rank-other : (x : Crec) → x.flags.reverse ≡ false → 1 ≤ rank x
unfolding rank
rank-other x h = ground arith

rank-immortal : (x : Crec) → x.flags.immortal ≡ true → 1 ≤ rank x → rank x ≡ 2
unfolding rank
rank-immortal x h low = ground arith

rank-mortal : (x : Crec) → x.flags.immortal ≡ false → rank x ≤ 1
unfolding rank
rank-mortal x h = ground arith

rank-le : (x : Crec) → rank x ≤ 2
unfolding rank
rank-le x = ground arith

All-ranks : (chain : List Crec) → All (λ y. 0 ≤ rank y) chain
All-ranks [] = tt
All-ranks (x ∷ xs) = (omega arith, All-ranks xs)

past_mortal-stop :
    (e x : Crec) (xs : List Crec) → x.flags.immortal ≡ true → past_mortal e (x ∷ xs) ≡ e ∷ x ∷ xs
unfolding past_mortal
past_mortal-stop e x xs h = ap (λ b. if not b then x ∷ past_mortal e xs else e ∷ x ∷ xs) h

past_mortal-next :
    (e x : Crec) (xs : List Crec)
    → x.flags.immortal ≡ false
    → past_mortal e (x ∷ xs) ≡ x ∷ past_mortal e xs
unfolding past_mortal
past_mortal-next e x xs h = ap (λ b. if not b then x ∷ past_mortal e xs else e ∷ x ∷ xs) h

past_reverse-next :
    (e x : Crec) (xs : List Crec)
    → x.flags.reverse ≡ true
    → past_reverse e (x ∷ xs) ≡ x ∷ past_reverse e xs
unfolding past_reverse
past_reverse-next e x xs h =
    ap
      (λ b.
        if b
        then x ∷ past_reverse e xs
        else if e.flags.immortal
        then past_mortal e (x ∷ xs)
        else e ∷ x ∷ xs)
      h

past_reverse-stop :
    (e x : Crec) (xs : List Crec)
    → x.flags.reverse ≡ false
    → past_reverse e (x ∷ xs) ≡ (if e.flags.immortal then past_mortal e (x ∷ xs) else e ∷ x ∷ xs)
unfolding past_reverse
past_reverse-stop e x xs h =
    ap
      (λ b.
        if b
        then x ∷ past_reverse e xs
        else if e.flags.immortal
        then past_mortal e (x ∷ xs)
        else e ∷ x ∷ xs)
      h

-- Where `e` is immortal, and where it is not.
past_reverse-immortal :
    (e x : Crec) (xs : List Crec)
    → x.flags.reverse ≡ false
    → e.flags.immortal ≡ true
    → past_reverse e (x ∷ xs) ≡ past_mortal e (x ∷ xs)
past_reverse-immortal e x xs h k =
    past_reverse-stop e x xs h ∙ ap (λ b. if b then past_mortal e (x ∷ xs) else e ∷ x ∷ xs) k

past_reverse-mortal :
    (e x : Crec) (xs : List Crec)
    → x.flags.reverse ≡ false
    → e.flags.immortal ≡ false
    → past_reverse e (x ∷ xs) ≡ e ∷ x ∷ xs
past_reverse-mortal e x xs h k =
    past_reverse-stop e x xs h ∙ ap (λ b. if b then past_mortal e (x ∷ xs) else e ∷ x ∷ xs) k

past_mortal-IsFrom :
    (n : ℕ) (e : Crec) (chain : List Crec)
    → rank e ≡ 2
    → n ≤ 2
    → All (λ y. 1 ≤ rank y) chain
    → IsFrom n chain
    → IsFrom n (past_mortal e chain)
unfolding past_mortal
past_mortal-IsFrom n e [] r h low s = ((omega (arith, r), tt), (tt, tt))
past_mortal-IsFrom n e (x ∷ xs) r h low s = elim (Bool-cases x.flags.immortal) [
  | inl immortal ↦
      let top : rank x ≡ 2 = rank-immortal x immortal low.0 in
      rw (past_mortal-stop e x xs immortal) (
        (omega (arith, r), s.0),
        (
          (
            omega (arith, r, top),
            All-weaken_rank (rank e) (rank x) xs (omega (arith, r, top)) s.1.0,
          ),
          s.1,
        ),
      )
  | inr mortal ↦
      let rest = past_mortal-IsFrom (rank x) e xs r (rank-le x) low.1 s.1 in
      rw (past_mortal-next e x xs mortal) ((s.0.0, All-weaken_rank n (rank x) _ s.0.0 rest.0), rest)
]

past_reverse-IsFrom :
    (n : ℕ) (e : Crec) (chain : List Crec)
    → e.flags.reverse ≡ false
    → n ≤ rank e
    → IsFrom n chain
    → IsFrom n (past_reverse e chain)
unfolding past_reverse
past_reverse-IsFrom n e [] r h s = ((h, tt), (tt, tt))
past_reverse-IsFrom n e (x ∷ xs) r h s = elim (Bool-cases x.flags.reverse) [
  | inl reverse ↦
      let rest = past_reverse-IsFrom (rank x) e xs r (omega (arith, rank-reverse x reverse)) s.1 in
      rw (past_reverse-next e x xs reverse)
        ((s.0.0, All-weaken_rank n (rank x) _ s.0.0 rest.0), rest)
  | inr other ↦
      let low : 1 ≤ rank x = rank-other x other in
      let all_low : All (λ y. 1 ≤ rank y) (x ∷ xs) =
        (low, All-weaken_rank 1 (rank x) xs low s.1.0) in
      elim (Bool-cases e.flags.immortal) [
        | inl immortal ↦
            let top : rank e ≡ 2 = rank-immortal e immortal (rank-other e r) in
            rw (past_reverse-immortal e x xs other immortal)
              (past_mortal-IsFrom n e (x ∷ xs) top (omega (arith, h, top)) all_low s)
        | inr mortal ↦
            rw (past_reverse-mortal e x xs other mortal)
              ((h, s.0), (All-weaken_rank (rank e) 1 (x ∷ xs) (rank-mortal e mortal) all_low, s.1))
      ]
]

-- Where an entry stands in a chain.
abbrev pub IsInserted : Crec → List Crec → List Crec → Type 0
IsInserted e old new =
    (front : List Crec) × (back : List Crec) × (old ≡ front ++ back) × (new ≡ front ++ e ∷ back)

IsInserted-cons :
    (e x : Crec) (old new : List Crec) → IsInserted e old new → IsInserted e (x ∷ old) (x ∷ new)
IsInserted-cons e x old new (front, back, h, k) =
    (x ∷ front, back, ap (λ t. x ∷ t) h, ap (λ t. x ∷ t) k)

past_mortal-IsInserted : (e : Crec) (chain : List Crec) → IsInserted e chain (past_mortal e chain)
unfolding past_mortal
past_mortal-IsInserted e [] = ([], [], refl, refl)
past_mortal-IsInserted e (x ∷ xs) = elim (Bool-cases x.flags.immortal) [
  | inl immortal ↦ rw (past_mortal-stop e x xs immortal) ([], x ∷ xs, refl, refl)
  | inr mortal ↦
      rw (past_mortal-next e x xs mortal) (IsInserted-cons e x xs _ (past_mortal-IsInserted e xs))
]

past_reverse-IsInserted : (e : Crec) (chain : List Crec) → IsInserted e chain (past_reverse e chain)
unfolding past_reverse
past_reverse-IsInserted e [] = ([], [], refl, refl)
past_reverse-IsInserted e (x ∷ xs) = elim (Bool-cases x.flags.reverse) [
  | inl reverse ↦
      rw (past_reverse-next e x xs reverse)
        (IsInserted-cons e x xs _ (past_reverse-IsInserted e xs))
  | inr other ↦ elim (Bool-cases e.flags.immortal) [
    | inl immortal ↦
        rw (past_reverse-immortal e x xs other immortal) (past_mortal-IsInserted e (x ∷ xs))
    | inr mortal ↦ rw (past_reverse-mortal e x xs other mortal) ([], x ∷ xs, refl, refl)
  ]
]

-- `cache_hash` puts the entry into the chain, leaves the others in their order, and keeps the chain
-- ordered: those with F_REVERSE first, then those that expire, and last those that are immortal.
pub cache_hash-IsOrdered :
    (e : Crec) (chain : List Crec)
    → IsOrdered chain
    → IsOrdered (cache_hash e chain) × IsInserted e chain (cache_hash e chain)
unfolding cache_hash
cache_hash-IsOrdered e chain s = elim (Bool-cases e.flags.reverse) [
  | inl reverse ↦
      let low : rank e ≤ 0 = omega (arith, rank-reverse e reverse) in
      let first : cache_hash e chain ≡ e ∷ chain =
        ap (λ b. if not b then past_reverse e chain else e ∷ chain) reverse in
      rw first
        ((All-weaken_rank (rank e) 0 chain low (All-ranks chain), s), ([], chain, refl, refl))
  | inr other ↦
      let later : cache_hash e chain ≡ past_reverse e chain =
        ap (λ b. if not b then past_reverse e chain else e ∷ chain) other in
      rw later (
        (past_reverse-IsFrom 0 e chain other (omega arith) (All-ranks chain, s)).1,
        past_reverse-IsInserted e chain,
      )
]
