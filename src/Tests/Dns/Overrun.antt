-- ===== src/Tests/Dns/Overrun.antt =====
-- A reply with too many records, for `_deal_recv` of http1.0/src/zdns.c.
use mydns.Prelude.{
  ℕ, zero, suc, ◌+◌, ◌≡◌, refl, List, [], ◌∷◌, ◌++◌, arith, length, length-append, get_elem?-append,
  append_assoc, fault, replicate,
}
use mydns.Dns.Labels.{encode}
use mydns.Dns.ReadName.Wire.{Holds, label, pointer, root}
use mydns.Dns.RoundTrip.{Holds-append}
use mydns.Dns.Answers.{deal_recv}
use mydns.Dns.Answers.Wire.{address, WireAnswers, end, address_record}
use mydns.Dns.Answers.Laws.{deal_recv-overrun}

-- `n` records with the same address.
abbrev copies : ℕ → List ℕ
copies zero = []
copies (suc n) = 192 ∷ 12 ∷ 0 ∷ 1 ∷ 0 ∷ 1 ∷ 0 ∷ 0 ∷ 0 ∷ 9 ∷ 0 ∷ 4 ∷ 1 ∷ 2 ∷ 3 ∷ 4 ∷ copies n

-- The header and the question for the name `a`.
abbrev front : List ℕ
front = 0 ∷ 7 ∷ 129 ∷ 128 ∷ 0 ∷ 1 ∷ 0 ∷ 21 ∷ 0 ∷ 0 ∷ 0 ∷ 0 ∷ 1 ∷ b'a' ∷ 0 ∷ 0 ∷ 1 ∷ 0 ∷ 1 ∷ []

abbrev crowded : List ℕ
crowded = front ++ copies 21

records :
    (n r : ℕ) → Holds crowded r (copies n) → WireAnswers 9 crowded r (replicate n (address 1 2 3 4))
records zero r h = end
records (suc n) r h =
    let (name, fixed) =
      Holds-append crowded (192 ∷ 12 ∷ [])
        (0 ∷ 1 ∷ 0 ∷ 1 ∷ 0 ∷ 0 ∷ 0 ∷ 9 ∷ 0 ∷ 4 ∷ 1 ∷ 2 ∷ 3 ∷ 4 ∷ copies n) r h in
    let (type, sized) =
      Holds-append crowded (0 ∷ 1 ∷ 0 ∷ 1 ∷ 0 ∷ 0 ∷ 0 ∷ 9 ∷ []) (0 ∷ 4 ∷ 1 ∷ 2 ∷ 3 ∷ 4 ∷ copies n)
        (r + 2) fixed in
    let (len, data_) =
      Holds-append crowded (0 ∷ 4 ∷ []) (1 ∷ 2 ∷ 3 ∷ 4 ∷ copies n) (r + 2 + 8) sized in
    let place : r + 2 + 8 + 2 ≡ r + 2 + 10 = omega arith in
    let (bytes, later) =
      Holds-append crowded (1 ∷ 2 ∷ 3 ∷ 4 ∷ []) (copies n) (r + 2 + 10) (rw place at data_) in
    address_record
      (record {
        first = b'a' ∷ [];
        others = [];
        wire =
            pointer 192 12 (omega arith) name.0 name.1.0
              (label (omega arith, omega arith, ((omega arith, omega arith), tt)) (refl, (refl, tt))
                (root refl refl) refl)
              refl;
        short = unfold encode in omega arith;
        enough = omega arith;
      })
      (type.0, (type.1.0, tt)) len bytes (records n (r + 2 + 10 + 4) later)

Holds-behind : (pre xs : List ℕ) (r : ℕ) → r ≡ length pre → Holds (pre ++ xs) r xs
Holds-behind pre [] r e = tt
Holds-behind pre (x ∷ xs) r e = (
  get_elem?-append pre x xs r e,
  rw (append_assoc pre (x ∷ []) xs) at
      (Holds-behind (pre ++ x ∷ []) xs (r + 1) (omega (arith, length-append pre (x ∷ [])))),
)

deal_recv-overrun_example : deal_recv (λ n. replicate (n + 8) 7) 9 crowded 3 ≡ fault
deal_recv-overrun_example =
    deal_recv-overrun (λ n. replicate (n + 8) 7) 9 crowded (omega arith) (omega arith) 3 0 21
      (refl, (refl, tt)) refl (omega arith) (records 21 19 (Holds-behind front (copies 21) 19 refl))
