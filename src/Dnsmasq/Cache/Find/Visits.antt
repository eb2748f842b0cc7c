-- ===== src/Dnsmasq/Cache/Find/Visits.antt =====
-- The entries visited by `cache_find_by_addr`, one after the other, for src/cache.c of
-- http1.0/src/dnsmasq/dnsmasq-2.45.
use mydns.Prelude.{
  ℕ, ◌≡◌, refl, ap, sym, ◌∙◌, List, [], ◌∷◌, ◌++◌, ◌==◌, ◌&&◌, if◌then◌else◌, Bool, true, false,
  not, All, All-append, Bool-cases, inl, inr, append_assoc, append-nil,
}
use mydns.Dnsmasq.Cache.Chain.{Flags, Crec, is_expired, is_kept}
use mydns.Dnsmasq.Cache.Chain.Scan.{select}
use mydns.Dnsmasq.Cache.Find.{unlinked, freed_entry, Search, visit, has_addr, is_answer}
use mydns.Dnsmasq.Cache.Find.Laws.{
  IsApart, newest_first, select-true, select-false, unlinked-append, IsBacked, IsBacked-kept,
  IsBacked-other, IsBacked-unlinked,
}

visit_expired :
    (c : Crec) (s : Search) (found : Bool)
    → is_kept c ≡ false
    → visit true found c s ≡ record s { lru = unlinked c s.lru ++ freed_entry c ∷ [] }
unfolding visit
visit_expired c s found h =
    ap (λ b. if not b then record s { lru = unlinked c s.lru ++ freed_entry c ∷ [] } else s) h

visit_expired_kept :
    (c : Crec) (s : Search) (found : Bool) → is_kept c ≡ true → visit true found c s ≡ s
unfolding visit
visit_expired_kept c s found h =
    ap (λ b. if not b then record s { lru = unlinked c s.lru ++ freed_entry c ∷ [] } else s) h

visit_found :
    (c : Crec) (s : Search)
    → is_kept c ≡ false
    → visit false true c s ≡ record s { lru = c ∷ unlinked c s.lru }
unfolding visit
visit_found c s h =
    ap
      (λ b.
        if b
        then record s { hosts = s.hosts ++ c ∷ [] }
        else record s { lru = c ∷ unlinked c s.lru })
      h

visit_host :
    (c : Crec) (s : Search)
    → is_kept c ≡ true
    → visit false true c s ≡ record s { hosts = s.hosts ++ c ∷ [] }
unfolding visit
visit_host c s h =
    ap
      (λ b.
        if b
        then record s { hosts = s.hosts ++ c ∷ [] }
        else record s { lru = c ∷ unlinked c s.lru })
      h

visit_other : (c : Crec) (s : Search) → visit false false c s ≡ s
unfolding visit
visit_other c s = refl

All-fresh_rest :
    (c : Crec) (rs moved : List Crec)
    → All (λ m. All (λ d. (m.at == d.at) ≡ false) (c ∷ rs)) moved
    → All (λ m. (m.at == c.at) ≡ false) moved
      × All (λ m. All (λ d. (m.at == d.at) ≡ false) rs) moved
All-fresh_rest c rs [] a = (tt, tt)
All-fresh_rest c rs (m ∷ moved) a =
    let (first, rest) = All-fresh_rest c rs moved a.1 in ((a.0.0, first), (a.0.1, rest))

module _ (same_addr : List ℕ → Bool) (now : ℕ) (prot : Flags) where
  unfoldable pub visits : Search → List Crec → Search
  visits s [] = s
  visits s (c ∷ cs) = visits (visit (is_expired now c) (has_addr same_addr now prot c) c s) cs

  -- An entry that is not expired and has the address.
  abbrev pub is_match : Crec → Bool
  is_match c = not (is_expired now c) && has_addr same_addr now prot c

  -- What is found among these entries stands behind the entries found before, and no other entry in
  -- the list is an answer.
  pub record IsVisited (s : Search) (hosts moved matches : List Crec) : Type 0 where
    pub rest : List Crec
    pub hosts_are : s.hosts ≡ hosts ++ select is_kept matches
    pub lru_is : s.lru ≡ newest_first (select (λ c. not (is_kept c)) matches) moved ++ rest
    pub no_answer : All (λ y. is_answer same_addr now prot y ≡ false) rest

  freed_entry-no_answer : (c : Crec) → is_answer same_addr now prot (freed_entry c) ≡ false
  unfolding is_answer freed_entry
  freed_entry-no_answer c = refl

  freed_entry-kept : (c : Crec) → is_kept (freed_entry c) ≡ is_kept c
  unfolding freed_entry
  freed_entry-kept c = refl

  IsBacked-freed :
      (c : Crec) (rs : List Crec)
      → is_kept c ≡ false
      → IsBacked same_addr now prot rs (freed_entry c)
  IsBacked-freed c rs h = (freed_entry-kept c ∙ h, λ found. let e = freed_entry-no_answer c in cc)

  no_answer_left :
      (others : List Crec)
      → All (IsBacked same_addr now prot []) others
      → All (λ y. is_answer same_addr now prot y ≡ false) others
  no_answer_left [] a = tt
  no_answer_left (y ∷ others) a = (
    elim (Bool-cases (is_answer same_addr now prot y)) [
      | inl found ↦ elim (a.0.1 found) [ ]
      | inr none ↦ none
    ],
    no_answer_left others a.1,
  )

  visits-visit :
      (c : Crec) (rs : List Crec) (s t : Search) (expired found : Bool)
      → is_expired now c ≡ expired
      → has_addr same_addr now prot c ≡ found
      → visit expired found c s ≡ t
      → visits s (c ∷ rs) ≡ visits t rs
  unfolding visits
  visits-visit c rs s t expired found p q r =
      ap (λ b. visits (visit b (has_addr same_addr now prot c) c s) rs) p
      ∙ ap (λ b. visits (visit expired b c s) rs) q
      ∙ ap (λ u. visits u rs) r

  is_match_lem :
      (c : Crec) (expired found : Bool)
      → is_expired now c ≡ expired
      → has_addr same_addr now prot c ≡ found
      → is_match c ≡ (not expired && found)
  is_match_lem c expired found p q =
      ap (λ b. not b && has_addr same_addr now prot c) p ∙ ap (λ b. not expired && b) q

  IsVisited-eq :
      (s t : Search) (hosts moved ms ns : List Crec)
      → s ≡ t
      → ms ≡ ns
      → IsVisited t hosts moved ns
      → IsVisited s hosts moved ms
  IsVisited-eq s t hosts moved ms ns p q v = rw (p, q) v

  -- A host found is the last of them, and any other entry found is the first of the list.
  IsVisited-host :
      (s : Search) (hosts moved ms : List Crec) (c : Crec)
      → is_kept c ≡ true
      → IsVisited s (hosts ++ c ∷ []) moved ms
      → IsVisited s hosts moved (c ∷ ms)
  IsVisited-host s hosts moved ms c h v = record {
    rest = v.rest;
    hosts_are =
        v.hosts_are
        ∙ append_assoc hosts (c ∷ []) (select is_kept ms)
        ∙ ap (λ t. hosts ++ t) (sym (select-true is_kept c ms h));
    lru_is =
        v.lru_is
        ∙ ap (λ t. newest_first t moved ++ v.rest)
            (sym (select-false (λ d. not (is_kept d)) c ms (ap not h)));
    no_answer = v.no_answer;
  }

  IsVisited-moved :
      (s : Search) (hosts moved ms : List Crec) (c : Crec)
      → is_kept c ≡ false
      → IsVisited s hosts (c ∷ moved) ms
      → IsVisited s hosts moved (c ∷ ms)
  IsVisited-moved s hosts moved ms c h v = record {
    rest = v.rest;
    hosts_are = v.hosts_are ∙ ap (λ t. hosts ++ t) (sym (select-false is_kept c ms h));
    lru_is =
        v.lru_is
        ∙ ap (λ t. newest_first t moved ++ v.rest)
            (sym (select-true (λ d. not (is_kept d)) c ms (ap not h)));
    no_answer = v.no_answer;
  }

  -- What is shown of the entries behind one, wherever those before it stand.
  abbrev IsVisitedFrom : List Crec → Type 0
  IsVisitedFrom rs =
      (hosts moved others : List Crec)
      → All (λ m. All (λ d. (m.at == d.at) ≡ false) rs) moved
      → All (IsBacked same_addr now prot rs) others
      → IsVisited (visits (record { hosts = hosts; lru = moved ++ others }) rs) hosts moved
          (select is_match rs)

  -- A step over an entry that is expired, and over one that is not.
  visits-expired :
      (c : Crec) (rs : List Crec)
      → IsVisitedFrom rs
      → is_expired now c ≡ true
      → IsVisitedFrom (c ∷ rs)
  visits-expired c rs more expired hosts moved others away backed =
      let s : Search = record { hosts = hosts; lru = moved ++ others } in
      let (first, later) = All-fresh_rest c rs moved away in
      let freed : List Crec = freed_entry c ∷ [] in
      let rest : List Crec = unlinked c others ++ freed in
      let none_found = select-false is_match c rs (is_match_lem c true _ expired refl) in
      let at_end : (unlinked c (moved ++ others)) ++ freed ≡ moved ++ rest =
        ap (λ l. l ++ freed) (unlinked-append c moved others first)
        ∙ append_assoc moved (unlinked c others) freed in
      elim (Bool-cases (is_kept c)) [
        | inl kept ↦
            IsVisited-eq _ _ hosts moved _ _
              (visits-visit c rs s s true _ expired refl (visit_expired_kept c s _ kept)) none_found
              (more hosts moved others later
                (IsBacked-kept same_addr now prot c rs others kept backed))
        | inr free ↦
            IsVisited-eq _ _ hosts moved _ _
              (visits-visit c rs s (record { hosts = hosts; lru = moved ++ rest }) true _ expired
                refl
                (visit_expired c s _ free ∙ ap (λ l. record { hosts = hosts; lru = l }) at_end))
              none_found
              (more hosts moved rest later (
                All-append _ (unlinked c others) freed
                  (IsBacked-unlinked same_addr now prot c rs others backed)
                  (IsBacked-freed c rs free, tt)))
      ]

  visits-live :
      (c : Crec) (rs : List Crec)
      → All (λ d. (c.at == d.at) ≡ false) rs
      → IsVisitedFrom rs
      → is_expired now c ≡ false
      → IsVisitedFrom (c ∷ rs)
  visits-live c rs apart more live hosts moved others away backed =
      let s : Search = record { hosts = hosts; lru = moved ++ others } in
      let (first, later) = All-fresh_rest c rs moved away in
      let gone = unlinked-append c moved others first in
      elim (Bool-cases (has_addr same_addr now prot c)) [
        | inl found ↦
            let matches = select-true is_match c rs (is_match_lem c false true live found) in
            elim (Bool-cases (is_kept c)) [
              | inl kept ↦
                  IsVisited-eq _ _ hosts moved _ _
                    (visits-visit c rs s (record { hosts = hosts ++ c ∷ []; lru = moved ++ others })
                      false true live found (visit_host c s kept))
                    matches
                    (IsVisited-host _ hosts moved _ c kept (
                      more (hosts ++ c ∷ []) moved others later
                        (IsBacked-kept same_addr now prot c rs others kept backed)))
              | inr free ↦
                  IsVisited-eq _ _ hosts moved _ _
                    (visits-visit c rs s
                      (record { hosts = hosts; lru = (c ∷ moved) ++ unlinked c others }) false true
                      live found
                      (visit_found c s free ∙ ap (λ l. record { hosts = hosts; lru = c ∷ l }) gone))
                    matches
                    (IsVisited-moved _ hosts moved _ c free (
                      more hosts (c ∷ moved) (unlinked c others) (apart, later)
                        (IsBacked-unlinked same_addr now prot c rs others backed)))
            ]
        | inr other ↦
            IsVisited-eq _ _ hosts moved _ _
              (visits-visit c rs s s false false live other (visit_other c s))
              (select-false is_match c rs (is_match_lem c false false live other))
              (more hosts moved others later
                (IsBacked-other same_addr now prot c rs others other backed))
      ]

  pub visits-IsVisited :
      (rs hosts moved others : List Crec)
      → IsApart rs
      → All (λ m. All (λ d. (m.at == d.at) ≡ false) rs) moved
      → All (IsBacked same_addr now prot rs) others
      → IsVisited
          (visits (record { hosts = hosts; lru = moved ++ others }) rs)
          hosts
          moved
          (select is_match rs)
  unfolding visits select
  visits-IsVisited [] hosts moved others apart away backed = record {
    rest = others;
    hosts_are = sym (append-nil hosts);
    lru_is = refl;
    no_answer = no_answer_left others backed;
  }
  visits-IsVisited (c ∷ rs) hosts moved others apart away backed =
      let more : IsVisitedFrom rs = λ h m o a b. visits-IsVisited rs h m o apart.1 a b in
      elim (Bool-cases (is_expired now c)) [
        | inl expired ↦ visits-expired c rs more expired hosts moved others away backed
        | inr live ↦ visits-live c rs apart.0 more live hosts moved others away backed
      ]
