-- ===== src/Dnsmasq/Cache/Chain/Scan.antt =====
-- The scan over a whole chain in `cache_scan_free` of src/cache.c, http1.0/src/dnsmasq/dnsmasq-2.45.
use mydns.Prelude.{
  ℕ, ◌≤◌, ◌≡◌, refl, ap, sym, ◌∙◌, List, [], ◌∷◌, arith, ◌&&◌, ◌||◌, if◌then◌else◌, Bool, true,
  false, not, All, Bool-cases, inl, inr,
}
use mydns.Dnsmasq.Cache.Chain.{
  Flags, Crec, is_expired, is_kept, Scanned, keep, drop_entry, is_addressed, scan_all,
}
use mydns.Dnsmasq.Cache.Chain.Laws.{rank, IsOrdered}

-- The entries that pass a test.
unfoldable pub select : (Crec → Bool) → List Crec → List Crec
select test [] = []
select test (c ∷ chain) = let rest = select test chain in if test c then c ∷ rest else rest

module _ (same_addr : List ℕ → Bool) (now : ℕ) (flags : Flags) where
  -- An entry is taken out when it is expired or has the address.
  abbrev pub is_removed : Crec → Bool
  is_removed c = is_expired now c || is_addressed same_addr flags c

  -- What a scan without an early end leaves and frees.
  abbrev pub full_scan : List Crec → Scanned
  full_scan chain = record {
    chain = select (λ c. not (is_removed c)) chain;
    freed = select (λ c. is_removed c && not (is_kept c)) chain;
    result = true;
  }

  scan_step :
      (expired addressed kept : Bool) (c : Crec) (rest : List Crec) (freed : List Crec)
      → (addressed ≡ true → kept ≡ false)
      → (let s : Scanned = record { chain = rest; freed = freed; result = true } in
          if expired
          then (if not kept then drop_entry c s else s)
          else if addressed
          then drop_entry c s
          else keep c s)
        ≡ record {
          chain = if not (expired || addressed) then c ∷ rest else rest;
          freed = if (expired || addressed) && not kept then c ∷ freed else freed;
          result = true;
        }
  scan_step true addressed true c rest freed h = refl
  scan_step true addressed false c rest freed h = refl
  scan_step false true true c rest freed h = let e : true ≡ false = h refl in cc
  scan_step false true false c rest freed h = refl
  scan_step false false kept c rest freed h = refl

  is_addressed-kept : (c : Crec) → is_addressed same_addr flags c ≡ true → is_kept c ≡ false
  unfolding is_addressed
  is_addressed-kept c h = ground arith

  immortal-removed : (c : Crec) → 2 ≤ rank c → is_removed c ≡ false
  unfolding rank is_expired is_addressed
  immortal-removed c h = ground arith

  full_scan-immortal :
      (chain : List Crec)
      → All (λ c. 2 ≤ rank c) chain
      → full_scan chain ≡ record { chain = chain; freed = []; result = true }
  unfolding select
  full_scan-immortal [] h = refl
  full_scan-immortal (c ∷ chain) h =
      let after = full_scan chain in
      ap
        (λ b. record {
          chain = if not b then c ∷ after.chain else after.chain;
          freed = if b && not (is_kept c) then c ∷ after.freed else after.freed;
          result = true;
        })
        (immortal-removed c h.0)
      ∙ ap (λ (t : Scanned). record t { chain = c ∷ t.chain }) (full_scan-immortal chain h.1)

  -- What the loop does with an entry at which it does not end.
  abbrev turn : Crec → Scanned → Scanned
  turn c rest =
      if is_expired now c
      then (if not (is_kept c) then drop_entry c rest else rest)
      else if is_addressed same_addr flags c
      then drop_entry c rest
      else keep c rest

  abbrev ends_at : Crec → Bool
  ends_at c = not (c.flags.reverse || not c.flags.immortal)

  ends_at-rank : (c : Crec) → ends_at c ≡ true → rank c ≡ 2
  unfolding rank
  ends_at-rank c h = ground arith

  scan_all-cons :
      (c : Crec) (chain : List Crec)
      → scan_all same_addr now flags (c ∷ chain) ≡ (
          if ends_at c
          then record { chain = c ∷ chain; freed = []; result = true }
          else turn c (scan_all same_addr now flags chain))
  unfolding scan_all
  scan_all-cons c chain = refl

  full_scan-cons : (c : Crec) (chain : List Crec) → turn c (full_scan chain) ≡ full_scan (c ∷ chain)
  unfolding select
  full_scan-cons c chain =
      scan_step (is_expired now c) (is_addressed same_addr flags c) (is_kept c) c
        (full_scan chain).chain (full_scan chain).freed (is_addressed-kept c)

  IsOrdered-immortal :
      (c : Crec) (chain : List Crec)
      → rank c ≡ 2
      → All (λ y. rank c ≤ rank y) chain
      → All (λ y. 2 ≤ rank y) chain
  IsOrdered-immortal c [] h a = tt
  IsOrdered-immortal c (x ∷ chain) h a = (omega (arith, h, a.0), IsOrdered-immortal c chain h a.1)

  -- On an ordered chain the loop, which ends at the first entry that is immortal and has no
  -- F_REVERSE, leaves and frees the same entries as a scan to the end of the chain: it takes out the
  -- entries that are expired or have the address, and frees those of them that are from neither the
  -- hosts file nor DHCP, all in their order.
  pub scan_all-full_scan :
      (chain : List Crec) → IsOrdered chain → scan_all same_addr now flags chain ≡ full_scan chain
  unfolding scan_all select
  scan_all-full_scan [] s = refl
  scan_all-full_scan (c ∷ chain) s = elim (Bool-cases (ends_at c)) [
    | inl end ↦
        let top = ends_at-rank c end in
        scan_all-cons c chain
        ∙ ap
            (λ b.
              if b
              then record { chain = c ∷ chain; freed = []; result = true }
              else turn c (scan_all same_addr now flags chain))
            end
        ∙ sym (
            full_scan-immortal (c ∷ chain) (omega (arith, top), IsOrdered-immortal c chain top s.0))
    | inr more ↦
        scan_all-cons c chain
        ∙ ap
            (λ b.
              if b
              then record { chain = c ∷ chain; freed = []; result = true }
              else turn c (scan_all same_addr now flags chain))
            more
        ∙ ap (turn c) (scan_all-full_scan chain s.1)
        ∙ full_scan-cons c chain
  ]
