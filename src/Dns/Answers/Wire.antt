-- ===== src/Dns/Answers/Wire.antt =====
-- Answer records as RFC 1035, section 4.1.3, lays them out, independent of the code of
-- http1.0/src/zdns.c: addresses and aliases, the two kinds that the code reads.
use mydns.Prelude.{
  Bool, true, false, Outcome, done, fault, ltb, ◌&&◌, if◌then◌else◌, ℕ, ◌+◌, ◌<◌, ◌≤◌, List, [],
  ◌∷◌, Option, none, some, length,
}
use mydns.Dns.Labels.{encode}
use mydns.Dns.ReadName.Wire.{Holds, WireName, rounds}
use mydns.Dns.Answers.{inet_ntoa}

pub data Rr : Type 0 where
  address : ℕ → ℕ → ℕ → ℕ → Rr
  alias : Rr

-- A name that fits the code's block, read within the fuel.
pub record NameAt (fuel : ℕ) (buffer : List ℕ) (r k : ℕ) : Type 0 where
  pub first : List ℕ
  pub others : List (List ℕ)
  pub wire : WireName buffer r (first ∷ others) k
  pub short : length (encode (first ∷ others)) < 256
  pub enough : rounds wire ≤ fuel

-- The records stand one behind the other from index `r`.
pub data WireAnswers (fuel : ℕ) (buffer : List ℕ) : ℕ → List Rr → Type 0 where
  end : {r : ℕ} → WireAnswers fuel buffer r []
  address_record :
      {r k : ℕ} {a b c d : ℕ} {rs : List Rr}
      → NameAt fuel buffer r k
      → Holds buffer (r + k) (0 ∷ 1 ∷ [])
      → Holds buffer (r + k + 8) (0 ∷ 4 ∷ [])
      → Holds buffer (r + k + 10) (a ∷ b ∷ c ∷ d ∷ [])
      → WireAnswers fuel buffer (r + k + 10 + 4) rs
      → WireAnswers fuel buffer r (address a b c d ∷ rs)
  alias_record :
      {r k j : ℕ} {rs : List Rr}
      → NameAt fuel buffer r k
      → Holds buffer (r + k) (0 ∷ 5 ∷ [])
      → NameAt fuel buffer (r + k + 10) j
      → WireAnswers fuel buffer (r + k + 10 + j) rs
      → WireAnswers fuel buffer r (alias ∷ rs)

-- The first address among the records, as text.
abbrev pub first_address : List Rr → Option (List ℕ)
first_address [] = none
first_address (address a b c d ∷ rs) = some (inet_ntoa a b c d)
first_address (alias ∷ rs) = first_address rs

abbrev pub has_address : List Rr → Bool
has_address [] = false
has_address (address a b c d ∷ rs) = true
has_address (alias ∷ rs) = has_address rs

-- What the code makes of the records: an address is copied to a block of `size` bytes for its four
-- ones and read from there as eight, of which the first four are the address; an access outside the
-- block is a fault.
abbrev pub handed_out : ℕ → List Rr → Outcome (Option (List ℕ))
handed_out size rs = if has_address rs && ltb size 8 then fault else done (first_address rs)
