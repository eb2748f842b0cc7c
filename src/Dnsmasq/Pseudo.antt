-- ===== src/Dnsmasq/Pseudo.antt =====
-- `find_pseudoheader` of src/rfc1035.c in http1.0/src/dnsmasq/dnsmasq-2.45, which looks for the
-- record of type OPT in the additional section, and for signatures.
pub mod Laws
use mydns.Prelude.{
  ℕ, zero, suc, ◌+◌, ◌-◌, ◌/◌, ◌%◌, List, ltb, ◌==◌, ◌&&◌, ◌||◌, if◌then◌else◌, Bool, true, false,
  Option, none, some, Outcome, done, ◌>>=◌, read, ntohs_at,
}
use mydns.Dnsmasq.Skip.{skip_name, skip_questions, skip_section}

-- The result and what is stored: `none` is a null pointer for `ret`, and nothing stored for `len`
-- and `p`. `is_sign` is what it points to.
pub record Pseudo : Type 0 where
  pub ret : Option ℕ
  pub len : Option ℕ
  pub p : Option ℕ
  pub is_sign : Bool

-- `return NULL`
abbrev pub null_of : Pseudo → Pseudo
null_of s = record s { ret = none }

-- The questions, with those left: where they end, and `*is_sign`.
unfoldable pub tkey_loop : List ℕ → ℕ → ℕ → ℕ → ℕ → Bool → Outcome (Option ℕ × Bool)
tkey_loop packet plen fuel zero ansp sign = done (some ansp, sign)
tkey_loop packet plen fuel (suc i) ansp sign = do
  o ← skip_name packet plen fuel ansp
  elim o [
    | none ↦ done (none, sign)
    | some a ↦ (do
      type ← ntohs_at packet a
      class ← ntohs_at packet (a + 2)
      tkey_loop packet plen fuel i (a + 4) (sign || (class == 1 && type == 249)))
  ]

-- `header->opcode`, which is 0 for a query.
abbrev pub opcode_of : ℕ → ℕ
opcode_of b = b / 8 % 16

-- What is done with the questions. `wants` says that `is_sign` is not null.
unfoldable pub behind_questions : Bool → List ℕ → ℕ → ℕ → Outcome (Option ℕ × Bool)
behind_questions true packet plen fuel = do
  flags ← read packet 2
  if opcode_of flags == 0
      then (do qdcount ← ntohs_at packet 4; tkey_loop packet plen fuel qdcount 12 false)
      else done (some 12, false)
behind_questions false packet plen fuel = do o ← skip_questions packet plen fuel; done (o, false)

-- What a record of the additional section from `start` to `next` does, `save` being behind its type.
unfoldable pub mark : Bool → Bool → ℕ → ℕ → ℕ → ℕ → ℕ → Pseudo → Pseudo
mark wants last type class start save next s =
    if type == 41
    then record s { ret = some start; len = some (next - start); p = some save }
    else if ((wants && last) && class == 255) && (type == 24 || type == 250)
    then record s { is_sign = true }
    else s

-- The additional section, with the records left.
unfoldable pub additional_loop : Bool → List ℕ → ℕ → ℕ → ℕ → ℕ → Pseudo → Outcome Pseudo
additional_loop wants packet plen fuel zero ansp s = done s
additional_loop wants packet plen fuel (suc i) ansp s = do
  o ← skip_name packet plen fuel ansp
  elim o [
    | none ↦ done (null_of s)
    | some a ↦ (do
      type ← ntohs_at packet a
      class ← ntohs_at packet (a + 2)
      rdlen ← ntohs_at packet (a + 8)
      let next = a + 10 + rdlen
      if ltb plen next
          then done (null_of s)
          else additional_loop wants packet plen fuel i next
              (mark wants (i == 0) type class ansp (a + 2) next s))
  ]

-- Behind the questions.
unfoldable pub search_additional : Bool → List ℕ → ℕ → ℕ → ℕ → Pseudo → Option ℕ → Outcome Pseudo
search_additional wants packet plen fuel arcount s none = done (null_of s)
search_additional wants packet plen fuel arcount s (some start) =
    if arcount == 0 then done (null_of s) else (do
      ancount ← ntohs_at packet 6
      nscount ← ntohs_at packet 8
      records ← skip_section packet plen fuel start (ancount + nscount)
      elim records [
        | none ↦ done (null_of s)
        | some ansp ↦ additional_loop wants packet plen fuel arcount ansp s
      ])

-- `find_pseudoheader`
unfoldable pub find_pseudoheader : Bool → List ℕ → ℕ → ℕ → Outcome Pseudo
find_pseudoheader wants packet plen fuel = do
  arcount ← ntohs_at packet 10
  questions ← behind_questions wants packet plen fuel
  search_additional wants packet plen fuel arcount
      (record { ret = none; len = none; p = none; is_sign = questions.1 }) questions.0
