-- ===== src/Dnsmasq/Extract/Safe.antt =====
-- `extract_name` of src/rfc1035.c in http1.0/src/dnsmasq/dnsmasq-2.45 returns on every packet, and
-- stays inside its blocks.
use mydns.Prelude.{
  ℕ, zero, suc, ◌+◌, ◌-◌, ◌*◌, ◌≤◌, ◌<◌, ◌≡◌, ap, List, [], ◌∷◌, arith, length, Option, none, some,
  Bool, true, false, ◌==◌, leb, Outcome, done, ◌>>=◌, Returns, Returns->>=, Returns-if,
  Returns-done, inl, inr,
}
use mathlib.Core.Option
use mydns.Dnsmasq.Extract.{
  Cursor, round_of, next_round, extract_loop, extract_name, extract_end, Extracted, start_at,
  without_last,
}
use mydns.Dnsmasq.Extract.Rounds.{Moved, AfterRound, read-any, round_of-Returns}

-- How many rounds `b` more pointers allow.
abbrev pub budget : ℕ → ℕ → ℕ
budget plen zero = 0
budget plen (suc b) = plen + 1 + budget plen b

budget-pred : (plen b : ℕ) → 0 < b → budget plen b ≡ plen + 1 + budget plen (b - 1)
budget-pred plen zero h = absurd (omega arith)
budget-pred plen (suc b) h = ap (λ (k : ℕ). plen + 1 + budget plen k) (omega arith)

pub budget_lem : (plen b : ℕ) → budget plen b ≡ b * (plen + 1)
budget_lem plen zero = omega arith
budget_lem plen (suc b) = grind (arith, budget_lem plen b)

-- The name read out fits its block with a terminator.
abbrev Fits : Option Cursor → Type 0
Fits none = Unit
Fits (some c) = length c.name ≤ 1024

abbrev pub FitsBlock : Option Extracted → Type 0
FitsBlock none = Unit
FitsBlock (some e) = length e.name ≤ 1024

length-without_last : (s : List ℕ) → length (without_last s) ≤ length s
unfolding without_last
length-without_last [] = omega arith
length-without_last (c ∷ []) = omega arith
length-without_last (c ∷ (d ∷ s)) = omega (arith, length-without_last (d ∷ s))

extract_end-FitsBlock :
    (is_extract : Bool) (name : List ℕ) (o : Option Cursor)
    → length name ≤ 1024
    → Fits o
    → FitsBlock (Option.map (extract_end is_extract name) o)
unfolding extract_end
extract_end-FitsBlock is_extract name none h f = tt
extract_end-FitsBlock true name (some c) h f = omega (arith, f, length-without_last c.name)
extract_end-FitsBlock false name (some c) h f = h

module _ (packet : List ℕ) (plen : ℕ) (room : plen + 64 ≤ length packet) where
  next_round-Returns :
      (loop : Cursor → Outcome (Option Cursor)) (c : Cursor) (o : Option Cursor)
      → AfterRound plen c o
      → ((d : Cursor) → d.p < plen → Moved plen c d → length d.name ≤ 1024 → Returns Fits (loop d))
      → Returns Fits (next_round loop plen o)
  next_round-Returns loop c none a k = tt
  next_round-Returns loop c (some d) a k =
      Returns-if Fits (leb plen d.p) _ _ (λ e. tt) (λ e. k d (ground (arith, e)) a.0 a.1)

  extract_loop-Returns :
      (is_extract : Bool) (fuel b : ℕ) (c : Cursor)
      → c.hops + b ≡ 256
      → c.p < plen
      → length c.name ≤ 1024
      → budget plen b + (plen - c.p) < fuel
      → Returns Fits (extract_loop is_extract packet plen fuel c)
  unfolding extract_loop
  extract_loop-Returns is_extract zero b c left inside fits enough = absurd (omega arith)
  extract_loop-Returns is_extract (suc fuel) b c left inside fits enough =
      read-any packet plen room Fits c.p _ (omega (arith, room)) (λ l at.
        by_byte l (l == 0) (λ d inside' moved fits'. elim moved [
          | inl same ↦
              extract_loop-Returns is_extract fuel b d (omega (arith, same, left)) inside' fits'
                (omega (arith, same, enough, inside))
          | inr hop ↦
              extract_loop-Returns is_extract fuel (b - 1) d (omega (arith, hop, left)) inside'
                fits'
                (omega
                  (arith, hop, left, enough, inside, budget-pred plen b (omega (arith, hop, left))))
        ]))
    where
      by_byte :
          (l : ℕ) (at_end : Bool)
          → ((d : Cursor)
              → d.p < plen
              → Moved plen (record c { p = c.p + 1 }) d
              → length d.name ≤ 1024
              → Returns Fits (extract_loop is_extract packet plen fuel d))
          → Returns Fits (elim at_end [
            | true ↦ done (some (record c { p = c.p + 1 }))
            | false ↦ (do
              o ← round_of is_extract packet plen l (record c { p = c.p + 1 })
              next_round (extract_loop is_extract packet plen fuel) plen o)
          ])
      by_byte l true k = fits
      by_byte l false k =
          Returns->>= _ _ (round_of is_extract packet plen l (record c { p = c.p + 1 })) _
            (round_of-Returns packet plen room is_extract l (record c { p = c.p + 1 })
              (omega (arith, inside)) fits)
            (λ o a. next_round-Returns _ (record c { p = c.p + 1 }) o a k)

  -- On every packet, whatever its bytes, in a block that is 64 bytes longer than `plen`, from a place
  -- inside `plen` and for a name of at most 1024 bytes, the code returns: the fuel stated is enough, no
  -- byte is read behind the block, and the name read out fits 1025 bytes with a terminator.
  pub extract_name-returns :
      (is_extract : Bool) (fuel p : ℕ) (name : List ℕ)
      → p < plen
      → 257 * (plen + 1) ≤ fuel
      → length name ≤ 1024
      → (o : Option Extracted) × (extract_name is_extract packet plen fuel p name ≡ done o)
        × FitsBlock o
  unfolding extract_name
  extract_name-returns is_extract fuel p name inside enough fits =
      let (o, runs, f) =
        Returns-done Fits (extract_loop is_extract packet plen fuel (start_at p name)) (
          extract_loop-Returns is_extract fuel 256 (start_at p name) (omega arith) inside
            (omega arith) (omega (arith, budget_lem plen 256))) in
      (
        Option.map (extract_end is_extract name) o,
        rw runs,
        extract_end-FitsBlock is_extract name o fits f,
      )
