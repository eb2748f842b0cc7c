-- ===== src/Dnsmasq/Cache/Find/Calls.antt =====
-- Repeated calls of `cache_find_by_addr` in src/cache.c of http1.0/src/dnsmasq/dnsmasq-2.45.
use mydns.Prelude.{
  ℕ, zero, suc, ◌≤◌, ◌≡◌, refl, ap, sym, ◌∙◌, List, [], ◌∷◌, ◌++◌, if◌then◌else◌, Bool, true, false,
  not, All, All-append, Bool-cases, inl, inr, arith, append_assoc, Option, none, some, Outcome,
  done, no_fuel, ◌>>=◌, length,
}
use mydns.Dnsmasq.Cache.Chain.{Flags, Crec, is_expired, is_kept}
use mydns.Dnsmasq.Cache.Chain.Laws.{rank, IsOrdered, rank-other}
use mydns.Dnsmasq.Cache.Chain.Scan.{select}
use mydns.Dnsmasq.Cache.Find.{
  Search, visit, has_addr, find_in_chain, find_in_table, is_answer, answer, cache_find_by_addr,
}
use mydns.Dnsmasq.Cache.Find.Laws.{IsApart, newest_first, IsBacked, select-true, select-false}
use mydns.Dnsmasq.Cache.Find.Visits.{visits, is_match, visits-IsVisited}

-- The entries with F_REVERSE, chain by chain.
abbrev pub reverse_entries : List (List Crec) → List Crec
reverse_entries [] = []
reverse_entries (chain ∷ table) = select (λ c. c.flags.reverse) chain ++ reverse_entries table

rank-not_reverse : (c : Crec) → 1 ≤ rank c → c.flags.reverse ≡ false
unfolding rank
rank-not_reverse c h = ground arith

ordered_ranks :
    (c : Crec) (chain : List Crec)
    → c.flags.reverse ≡ false
    → IsOrdered (c ∷ chain)
    → All (λ y. 1 ≤ rank y) (c ∷ chain)
ordered_ranks c chain h o = (rank-other c h, weaken chain o.0)
  where
    weaken : (ys : List Crec) → All (λ y. rank c ≤ rank y) ys → All (λ y. 1 ≤ rank y) ys
    weaken [] a = tt
    weaken (y ∷ ys) a = (omega (arith, a.0, rank-other c h), weaken ys a.1)

select-none :
    (chain : List Crec) → All (λ y. 1 ≤ rank y) chain → select (λ c. c.flags.reverse) chain ≡ []
unfolding select
select-none [] a = refl
select-none (c ∷ chain) a =
    select-false (λ c. c.flags.reverse) c chain (rank-not_reverse c a.0) ∙ select-none chain a.1

select-All : (test : Crec → Bool) (cs : List Crec) → All (λ c. test c ≡ true) (select test cs)
unfolding select
select-All test [] = tt
select-All test (c ∷ cs) = elim (Bool-cases (test c)) [
  | inl taken ↦ rw (select-true test c cs taken) (taken, select-All test cs)
  | inr left ↦ rw (select-false test c cs left) (select-All test cs)
]

All-select :
    (P : Crec → Type 0) (test : Crec → Bool) (cs : List Crec) → All P cs → All P (select test cs)
unfolding select
All-select P test [] a = tt
All-select P test (c ∷ cs) a = elim (Bool-cases (test c)) [
  | inl taken ↦ rw (select-true test c cs taken) (a.0, All-select P test cs a.1)
  | inr left ↦ rw (select-false test c cs left) (All-select P test cs a.1)
]

All-newest_first :
    (P : Crec → Type 0) (cs out : List Crec) → All P cs → All P out → All P (newest_first cs out)
All-newest_first P [] out a b = b
All-newest_first P (c ∷ cs) out a b = All-newest_first P cs (c ∷ out) a.1 (a.0, b)

reverse_entries-All :
    (table : List (List Crec)) → All (λ c. c.flags.reverse ≡ true) (reverse_entries table)
reverse_entries-All [] = tt
reverse_entries-All (chain ∷ table) =
    All-append _ (select (λ c. c.flags.reverse) chain) _ (select-All (λ c. c.flags.reverse) chain)
      (reverse_entries-All table)

module _ (same_addr : List ℕ → Bool) (now : ℕ) (prot : Flags) where
  -- The calls of a loop that asks for the next entry until there is none.
  unfoldable pub calls : ℕ → List (List Crec) → List Crec → Option (List Crec) → Outcome (List Crec)
  calls n table lru none = done []
  calls n table lru (some []) = done []
  calls zero table lru (some (c ∷ next)) = no_fuel
  calls (suc n) table lru (some (c ∷ next)) =
      let r = cache_find_by_addr same_addr now prot (some (c, next)) table lru in
      calls n r.table r.lru r.found >>= λ rest. done (c ∷ rest)

  calls-answer :
      (n : ℕ) (table : List (List Crec)) (lru found rest : List Crec)
      → All (λ c. is_answer same_addr now prot c ≡ true) found
      → All (λ c. is_answer same_addr now prot c ≡ false) rest
      → length found ≤ n
      → calls n table lru (answer same_addr now prot (found ++ rest)) ≡ done found
  unfolding calls answer cache_find_by_addr
  calls-answer n table lru [] [] a b h = refl
  calls-answer n table lru [] (y ∷ rest) a b h = rw b.0 refl
  calls-answer zero table lru (c ∷ found) rest a b h = elim (none_left h) [ ]
    where
      none_left : suc (length found) ≤ 0 → ⊥
      none_left h = omega (arith, h)
  calls-answer (suc n) table lru (c ∷ found) rest a b h =
      rw (a.0, calls-answer n table lru found rest a.1 b (omega (arith, h))) refl

  match-answer :
      (c : Crec)
      → c.flags.reverse ≡ true
      → is_match same_addr now prot c ≡ true
      → is_answer same_addr now prot c ≡ true
  unfolding is_answer
  match-answer c h m = ground arith

  matches-answer :
      (rs : List Crec)
      → All (λ c. c.flags.reverse ≡ true) rs
      → All (λ c. is_answer same_addr now prot c ≡ true) (select (is_match same_addr now prot) rs)
  unfolding select
  matches-answer [] a = tt
  matches-answer (c ∷ rs) a = elim (Bool-cases (is_match same_addr now prot c)) [
    | inl taken ↦
        rw (select-true (is_match same_addr now prot) c rs taken)
          (match-answer c a.0 taken, matches-answer rs a.1)
    | inr left ↦ rw (select-false (is_match same_addr now prot) c rs left) (matches-answer rs a.1)
  ]

  visits-append :
      (s : Search) (xs ys : List Crec)
      → visits same_addr now prot s (xs ++ ys)
        ≡ visits same_addr now prot (visits same_addr now prot s xs) ys
  unfolding visits
  visits-append s [] ys = refl
  visits-append s (c ∷ xs) ys =
      visits-append (visit (is_expired now c) (has_addr same_addr now prot c) c s) xs ys

  find_in_chain-visits :
      (s : Search) (chain : List Crec)
      → IsOrdered chain
      → (find_in_chain same_addr now prot s chain).0
        ≡ visits same_addr now prot s (select (λ c. c.flags.reverse) chain)
  unfolding find_in_chain visits select
  find_in_chain-visits s [] o = refl
  find_in_chain-visits s (c ∷ chain) o =
      let next = visit (is_expired now c) (has_addr same_addr now prot c) c s in
      let (after, left) = find_in_chain same_addr now prot next chain in
      let turn : Bool → Search × List Crec = λ b.
        if not b
        then (s, c ∷ chain)
        else (after, if not (is_expired now c) then c ∷ left else left) in
      elim (Bool-cases c.flags.reverse) [
        | inl reverse ↦
            ap (λ b. (turn b).0) reverse
            ∙ find_in_chain-visits next chain o.1
            ∙ ap (visits same_addr now prot s)
                (sym (select-true (λ d. d.flags.reverse) c chain reverse))
        | inr other ↦
            ap (λ b. (turn b).0) other
            ∙ ap (visits same_addr now prot s)
                (sym (select-none (c ∷ chain) (ordered_ranks c chain other o)))
      ]

  find_in_table-visits :
      (s : Search) (table : List (List Crec))
      → All IsOrdered table
      → (find_in_table same_addr now prot s table).0
        ≡ visits same_addr now prot s (reverse_entries table)
  unfolding find_in_table visits
  find_in_table-visits s [] o = refl
  find_in_table-visits s (chain ∷ table) o =
      find_in_table-visits (find_in_chain same_addr now prot s chain).0 table o.1
      ∙ ap (λ t. visits same_addr now prot t (reverse_entries table))
          (find_in_chain-visits s chain o.0)
      ∙ sym (visits-append s (select (λ c. c.flags.reverse) chain) (reverse_entries table))

  -- The entries of the table that have F_REVERSE, are not expired and have the address: those of the
  -- hosts file and of DHCP as they stand, and behind them the others, the last one first.
  abbrev pub answers_of : List (List Crec) → List Crec
  answers_of table =
      let matches = select (is_match same_addr now prot) (reverse_entries table) in
      select is_kept matches ++ newest_first (select (λ c. not (is_kept c)) matches) []

  -- When every chain is ordered, the entries with F_REVERSE have different addresses in memory, and
  -- an entry in the list by age is from neither the hosts file nor DHCP and is in a chain if it is
  -- an answer, a first call of `cache_find_by_addr` and repeated calls from the entry returned give
  -- exactly the entries that are not expired and have the address: first those of the hosts file and
  -- of DHCP in the order of the table, then the others, the last one first. As many calls as there
  -- are such entries, and one, are enough.
  pub cache_find_by_addr-answers_of :
      (n : ℕ) (table : List (List Crec)) (lru : List Crec)
      → All IsOrdered table
      → IsApart (reverse_entries table)
      → All (IsBacked same_addr now prot (reverse_entries table)) lru
      → length (answers_of table) ≤ n
      → (let first = cache_find_by_addr same_addr now prot none table lru in
          calls n first.table first.lru first.found ≡ done (answers_of table))
  unfolding cache_find_by_addr
  cache_find_by_addr-answers_of n table lru o apart backed h =
      let rs = reverse_entries table in
      let matches = select (is_match same_addr now prot) rs in
      let start : Search = record { hosts = []; lru = lru } in
      let (s, left) = find_in_table same_addr now prot start table in
      let v = visits-IsVisited same_addr now prot rs [] [] lru apart tt backed in
      let at = find_in_table-visits start table o in
      let all : s.hosts ++ s.lru ≡ answers_of table ++ v.rest =
        ap (λ (t : Search). t.hosts ++ t.lru) at
        ∙ ap (λ t. t ++ (visits same_addr now prot start rs).lru) v.hosts_are
        ∙ ap (λ t. select is_kept matches ++ t) v.lru_is
        ∙ sym (append_assoc (select is_kept matches) _ v.rest) in
      let found = matches-answer rs (reverse_entries-All table) in
      ap (λ l. calls n left s.lru (answer same_addr now prot l)) all
      ∙ calls-answer n left s.lru (answers_of table) v.rest
          (All-append _ (select is_kept matches) _ (All-select _ is_kept matches found)
            (All-newest_first _ _ [] (All-select _ (λ c. not (is_kept c)) matches found) tt))
          v.no_answer h
