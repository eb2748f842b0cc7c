-- ===== src/Dnsmasq/Cache/Find/Laws.antt =====
-- What the loops of `cache_find_by_addr` do with the entries that they visit, for src/cache.c of
-- http1.0/src/dnsmasq/dnsmasq-2.45.
use mydns.Prelude.{
  ℕ, ◌≡◌, refl, ap, ◌∙◌, List, [], ◌∷◌, ◌++◌, ◌==◌, if◌then◌else◌, Bool, true, false, All,
  Bool-cases, inl, inr, ◌⊎◌, arith,
}
use mydns.Dnsmasq.Cache.Chain.{Flags, Crec, is_kept}
use mydns.Dnsmasq.Cache.Chain.Scan.{select}
use mydns.Dnsmasq.Cache.Find.{unlinked, has_addr, is_answer}

-- An entry stands in a list.
abbrev pub Holds : Crec → List Crec → Type 0
Holds y [] = ⊥
Holds y (c ∷ cs) = (y ≡ c) ⊎ Holds y cs

-- The addresses of the entries differ.
abbrev pub IsApart : List Crec → Type 0
IsApart [] = Unit
IsApart (c ∷ cs) = All (λ d. (c.at == d.at) ≡ false) cs × IsApart cs

-- The last entry first, in front of a list.
abbrev pub newest_first : List Crec → List Crec → List Crec
newest_first [] out = out
newest_first (c ∷ cs) out = newest_first cs (c ∷ out)

same_number : (n : ℕ) → (n == n) ≡ true
same_number n = ground arith

pub select-true :
    (test : Crec → Bool) (c : Crec) (cs : List Crec)
    → test c ≡ true
    → select test (c ∷ cs) ≡ c ∷ select test cs
unfolding select
select-true test c cs h = ap (λ b. if b then c ∷ select test cs else select test cs) h

pub select-false :
    (test : Crec → Bool) (c : Crec) (cs : List Crec)
    → test c ≡ false
    → select test (c ∷ cs) ≡ select test cs
unfolding select
select-false test c cs h = ap (λ b. if b then c ∷ select test cs else select test cs) h

pub unlinked-append :
    (c : Crec) (moved others : List Crec)
    → All (λ m. (m.at == c.at) ≡ false) moved
    → unlinked c (moved ++ others) ≡ moved ++ unlinked c others
unfolding unlinked
unlinked-append c [] others h = refl
unlinked-append c (m ∷ moved) others h =
    ap (λ b. if b then unlinked c (moved ++ others) else m ∷ unlinked c (moved ++ others)) h.0
    ∙ ap (λ t. m ∷ t) (unlinked-append c moved others h.1)

module _ (same_addr : List ℕ → Bool) (now : ℕ) (prot : Flags) where
  -- An entry in the list by age is from neither the hosts file nor DHCP, and what is looked for
  -- stands in a chain.
  abbrev pub IsBacked : List Crec → Crec → Type 0
  IsBacked rs y = (is_kept y ≡ false) × (is_answer same_addr now prot y ≡ true → Holds y rs)

  IsBacked-drop : (c y : Crec) (rs : List Crec) → IsBacked (c ∷ rs) y → (y ≡ c → ⊥) → IsBacked rs y
  IsBacked-drop c y rs b other =
      (b.0, λ h. elim (b.1 h) [ inl same ↦ elim (other same) [ ] | inr later ↦ later ])

  pub IsBacked-kept :
      (c : Crec) (rs : List Crec) (others : List Crec)
      → is_kept c ≡ true
      → All (IsBacked (c ∷ rs)) others
      → All (IsBacked rs) others
  IsBacked-kept c rs [] k a = tt
  IsBacked-kept c rs (y ∷ others) k a = (
    IsBacked-drop c y rs a.0 (λ same. let e = ap is_kept same in cc),
    IsBacked-kept c rs others k a.1,
  )

  is_answer-has_addr :
      (y : Crec) → is_answer same_addr now prot y ≡ true → has_addr same_addr now prot y ≡ true
  unfolding is_answer
  is_answer-has_addr y h = ground arith

  pub IsBacked-other :
      (c : Crec) (rs : List Crec) (others : List Crec)
      → has_addr same_addr now prot c ≡ false
      → All (IsBacked (c ∷ rs)) others
      → All (IsBacked rs) others
  IsBacked-other c rs [] k a = tt
  IsBacked-other c rs (y ∷ others) k a = (
    (
      a.0.0,
      λ h. elim (a.0.1 h) [
        | inl same ↦
            let e = ap (has_addr same_addr now prot) same in
            let found = is_answer-has_addr y h in cc
        | inr later ↦ later
      ],
    ),
    IsBacked-other c rs others k a.1,
  )

  pub IsBacked-unlinked :
      (c : Crec) (rs : List Crec) (others : List Crec)
      → All (IsBacked (c ∷ rs)) others
      → All (IsBacked rs) (unlinked c others)
  unfolding unlinked
  IsBacked-unlinked c rs [] a = tt
  IsBacked-unlinked c rs (y ∷ others) a = elim (Bool-cases (y.at == c.at)) [
    | inl same ↦
        let out : unlinked c (y ∷ others) ≡ unlinked c others =
          ap (λ b. if b then unlinked c others else y ∷ unlinked c others) same in
        rw out (IsBacked-unlinked c rs others a.1)
    | inr other ↦
        let stays : unlinked c (y ∷ others) ≡ y ∷ unlinked c others =
          ap (λ b. if b then unlinked c others else y ∷ unlinked c others) other in
        rw stays (
          IsBacked-drop c y rs a.0 (λ eq.
              let at : (y.at == c.at) ≡ (c.at == c.at) = ap (λ (z : Crec). z.at == c.at) eq in
              let self = same_number c.at in cc),
          IsBacked-unlinked c rs others a.1,
        )
  ]
