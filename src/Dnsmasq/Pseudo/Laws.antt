-- ===== src/Dnsmasq/Pseudo/Laws.antt =====
-- What `find_pseudoheader` of src/rfc1035.c in http1.0/src/dnsmasq/dnsmasq-2.45 finds.
use mydns.Prelude.{
  ℕ, zero, suc, ◌+◌, ◌≤◌, ◌<◌, ◌≡◌, List, arith, length, Option, none, some, Outcome, done, ◌>>=◌,
  ntohs_at, Returns, Returns->>=, Returns-if, Returns-done, true, false, ltb, ◌==◌, ◌&&◌, ◌||◌,
  if◌then◌else◌, Bool, All,
}
use mydns.Dnsmasq.Skip.{skip_name, skip_questions, skip_section}
use mydns.Dnsmasq.Skip.Laws.{
  Ends, EndsBehind, read-byte, ntohs_at-Returns, skip_name-Returns, skip_questions-Returns,
  skip_section-Returns,
}
use mydns.Dnsmasq.Pseudo.{
  Pseudo, tkey_loop, opcode_of, behind_questions, mark, additional_loop, search_additional,
  find_pseudoheader,
}

-- A record from `r` of `n` bytes that ends inside the packet, with the eight bytes from `q` on, its
-- class, TTL and length, inside it.
abbrev pub IsRecordAt : ℕ → ℕ → Option ℕ → Option ℕ → Type 0
IsRecordAt plen r (some n) (some q) = (r + n ≤ plen) × (r + 2 < q) × (q + 8 ≤ r + n)
IsRecordAt plen r _ _ = ⊥

-- Where a pseudoheader is returned, its length and its place are stored, and it is in the packet.
abbrev pub IsFound : ℕ → Pseudo → Type 0
IsFound plen s = elim s.ret as (λ o. Type 0) [ none ↦ Unit | some r ↦ IsRecordAt plen r s.len s.p ]

if-holds : {A : Type 0} (P : A → Type 0) (b : Bool) (x y : A) → P x → P y → P (if b then x else y)
if-holds P true x y h k = h
if-holds P false x y h k = k

module _ (packet : List ℕ) (plen : ℕ) (room : plen + 64 ≤ length packet)
    (bytes : All (λ b. b < 256) packet) (fuel : ℕ) (enough : plen + 64 ≤ fuel)
    (header : 12 ≤ plen) where
  -- A number of two bytes is read at most 62 bytes behind `plen`.
  number-Returns :
      {B : Type 0} (P : B → Type 0) (i : ℕ) (f : ℕ → Outcome B)
      → i ≤ plen + 62
      → ((n : ℕ) → Returns P (f n))
      → Returns P (ntohs_at packet i >>= f)
  number-Returns P i f h k =
      Returns->>= (λ n. Unit {0}) P (ntohs_at packet i) f
        (ntohs_at-Returns packet plen room bytes i (omega (arith, room))) (λ n u. k n)

  tkey_loop-Returns :
      (i ansp : ℕ) (sign : Bool)
      → ansp ≤ plen + 63
      → Returns (λ x. Ends (plen + 63) x.0) (tkey_loop packet plen fuel i ansp sign)
  unfolding tkey_loop
  tkey_loop-Returns zero ansp sign h = h
  tkey_loop-Returns (suc i) ansp sign h =
      Returns->>= (EndsBehind ansp (plen + 1)) _ (skip_name packet plen fuel ansp) _
        (skip_name-Returns packet plen room bytes fuel ansp h (omega (arith, enough)))
        (elim [
          | none ↦ λ e. tt
          | some a ↦ λ e. number-Returns _ a _ (omega (arith, e.1)) (λ type.
              number-Returns _ (a + 2) _ (omega (arith, e.1)) (λ class.
                tkey_loop-Returns i (a + 4) (sign || (class == 1 && type == 249))
                  (omega (arith, e.1))))
        ])

  behind_questions-Returns :
      (wants : Bool) → Returns (λ x. Ends (plen + 63) x.0) (behind_questions wants packet plen fuel)
  unfolding behind_questions
  behind_questions-Returns true =
      read-byte _ packet 2 _ bytes (omega (arith, room, header)) (λ flags b.
        Returns-if _ (opcode_of flags == 0) _ _
          (λ query.
            number-Returns _ 4 _ (omega (arith, header))
              (λ qdcount. tkey_loop-Returns qdcount 12 false (omega (arith, header))))
          (λ other. omega (arith, header)))
  behind_questions-Returns false =
      Returns->>= (Ends plen) _ (skip_questions packet plen fuel) _
        (skip_questions-Returns packet plen room bytes fuel enough header)
        (elim [ none ↦ λ e. tt | some p ↦ λ e. omega (arith, e) ])

  mark-IsFound :
      (wants last : Bool) (type class start a next : ℕ) (s : Pseudo)
      → start < a
      → a + 10 ≤ next
      → next ≤ plen
      → IsFound plen s
      → IsFound plen (mark wants last type class start (a + 2) next s)
  unfolding mark
  mark-IsFound wants last type class start a next s first behind inside h =
      if-holds (IsFound plen) (type == 41) _ _ (omega arith, omega arith, omega arith)
        (if-holds (IsFound plen) (((wants && last) && class == 255) && (type == 24 || type == 250))
          (record s { is_sign = true }) s h h)

  additional_loop-Returns :
      (wants : Bool) (i ansp : ℕ) (s : Pseudo)
      → ansp ≤ plen + 63
      → IsFound plen s
      → Returns (IsFound plen) (additional_loop wants packet plen fuel i ansp s)
  unfolding additional_loop
  additional_loop-Returns wants zero ansp s h found = found
  additional_loop-Returns wants (suc i) ansp s h found =
      Returns->>= (EndsBehind ansp (plen + 1)) _ (skip_name packet plen fuel ansp) _
        (skip_name-Returns packet plen room bytes fuel ansp h (omega (arith, enough)))
        (elim [
          | none ↦ λ e. tt
          | some a ↦ λ e. number-Returns _ a _ (omega (arith, e.1)) (λ type.
              number-Returns _ (a + 2) _ (omega (arith, e.1)) (λ class.
                number-Returns _ (a + 8) _ (omega (arith, e.1)) (λ rdlen.
                  Returns-if _ (ltb plen (a + 10 + rdlen)) _ _ (λ far. tt)
                    (λ inside.
                      let near : a + 10 + rdlen ≤ plen = ground (arith, inside) in
                      additional_loop-Returns wants i (a + 10 + rdlen) _ (omega (arith, near)) (
                        mark-IsFound wants (i == 0) type class ansp a (a + 10 + rdlen) s e.0
                          (omega arith) near found)))))
        ])

  search_additional-Returns :
      (wants : Bool) (arcount : ℕ) (s : Pseudo) (o : Option ℕ)
      → IsFound plen s
      → Ends (plen + 63) o
      → Returns (IsFound plen) (search_additional wants packet plen fuel arcount s o)
  unfolding search_additional
  search_additional-Returns wants arcount s none found e = tt
  search_additional-Returns wants arcount s (some start) found e =
      Returns-if _ (arcount == 0) _ _ (λ none_left. tt)
        (λ more. number-Returns _ 6 _ (omega (arith, header)) (λ ancount.
          number-Returns _ 8 _ (omega (arith, header)) (λ nscount.
            Returns->>= (Ends (plen + 63)) _
              (skip_section packet plen fuel start (ancount + nscount)) _
              (skip_section-Returns packet plen room bytes fuel enough (plen + 63)
                (ancount + nscount) start (omega arith) (omega arith) e)
              (elim [
                | none ↦ λ e'. tt
                | some ansp ↦ λ e'. additional_loop-Returns wants arcount ansp s e' found
              ]))))

  -- On every packet with room for its header, whatever its bytes, in a block that is 64 bytes longer
  -- than `plen`, `find_pseudoheader` returns, and where it gives a record, that record ends inside the packet, its length is stored, and so is the
  -- place behind its type, with the eight bytes from there on inside the record.
  pub find_pseudoheader-IsFound :
      (wants : Bool)
      → (s : Pseudo) × (find_pseudoheader wants packet plen fuel ≡ done s) × IsFound plen s
  unfolding find_pseudoheader
  find_pseudoheader-IsFound wants = Returns-done (IsFound plen) _ (
      number-Returns (IsFound plen) 10 _ (omega (arith, header)) (λ arcount.
        Returns->>= (λ x. Ends (plen + 63) x.0) _ (behind_questions wants packet plen fuel) _
          (behind_questions-Returns wants)
          (λ x e.
            search_additional-Returns wants arcount
              (record { ret = none; len = none; p = none; is_sign = x.1 }) x.0 tt e)))
