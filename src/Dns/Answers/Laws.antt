-- ===== src/Dns/Answers/Laws.antt =====
-- What the answers of a reply lead to in http1.0/src/zdns.c.
use native.Mathlib.Nat.{add-zero}
use mydns.Prelude.{
  ℕ, suc, ◌+◌, ◌*◌, ◌<◌, ◌≤◌, ◌≡◌, refl, ◌∙◌, List, [], ◌∷◌, ◌++◌, arith, some, length,
  length-append, append_assoc, append-nil, overlay, write-overlay, Outcome, done, fault, ◌>>=◌,
  true, false, ltb, ge→ltb_false, if◌then◌else◌, ap, ntohs_at, drop, length-drop, leb, gt→leb_false,
  Bool-cases, inl, inr, write-outside,
}
use mydns.Dns.ReadName.{read_name}
use mydns.Dns.ReadName.Wire.{Holds}
use mydns.Dns.ReadName.Laws.{Reads, read_name-WireName}
use mydns.Dns.Answers.{
  Answer, copy_data, deal_data, deal_answer, deal_loop, deal_recv, address_text, inet_ntoa,
  show_answers, header_size, question_size,
}
use mydns.Dns.Answers.Wire.{
  Rr, NameAt, WireAnswers, end, address_record, alias_record, has_address, handed_out,
}

ntohs_at-Holds :
    (buffer : List ℕ) (i hi lo : ℕ)
    → Holds buffer i (hi ∷ lo ∷ [])
    → ntohs_at buffer i ≡ done (hi * 256 + lo)
unfolding ntohs_at
ntohs_at-Holds buffer i hi lo h = rw (h.0, h.1.0)

copy_data-overlay :
    (buffer bs xs block : List ℕ) (r j : ℕ)
    → j ≡ length xs
    → Holds buffer (r + j) bs
    → length xs + length bs ≤ length block
    → copy_data buffer r (length bs) j (overlay xs block) ≡ done (overlay (xs ++ bs) block)
unfolding copy_data
copy_data-overlay buffer [] xs block r j e at room = rw append-nil
copy_data-overlay buffer (b ∷ bs) xs block r j e at room =
    let place : r + j + 1 ≡ r + (j + 1) = omega arith in
    rw (at.0, write-overlay xs b block j e (omega arith))
      (copy_data-overlay buffer bs (xs ++ b ∷ []) block r (j + 1)
          (omega (arith, length-append xs (b ∷ []))) (rw place at at.1)
          (omega (arith, length-append xs (b ∷ [])))
        ∙ rw (append_assoc xs (b ∷ []) bs))

module _ (malloc : ℕ → List ℕ) (fuel : ℕ) (buffer : List ℕ) where
  deal_data-address :
      (r a b c d : ℕ)
      → 5 ≤ length (malloc 4)
      → Holds buffer r (0 ∷ 1 ∷ [])
      → Holds buffer (r + 8) (0 ∷ 4 ∷ [])
      → Holds buffer (r + 10) (a ∷ b ∷ c ∷ d ∷ [])
      → deal_data malloc fuel buffer r
        ≡ done (overlay (a ∷ b ∷ c ∷ d ∷ 0 ∷ []) (malloc 4), r + 10 + 4)
  unfolding deal_data
  deal_data-address r a b c d room type len bytes = rw (
    ntohs_at-Holds buffer r 0 1 type,
    ntohs_at-Holds buffer (r + 8) 0 4 len,
    copy_data-overlay buffer (a ∷ b ∷ c ∷ d ∷ []) [] (malloc 4) (r + 10) 0 refl (rw add-zero bytes)
        (omega arith),
    write-overlay (a ∷ b ∷ c ∷ d ∷ []) 0 (malloc 4) 4 refl room,
  )

  deal_data-alias :
      (r k : ℕ) (name : List ℕ)
      → Holds buffer r (0 ∷ 5 ∷ [])
      → read_name (malloc 256) buffer fuel (r + 10) ≡ done (name, k)
      → deal_data malloc fuel buffer r ≡ done (name, r + 10 + k)
  unfolding deal_data
  deal_data-alias r k name type reads = rw (ntohs_at-Holds buffer r 0 5 type, reads)

  -- The answers read from records `rs`, which name the first address among them.
  pub record Deals (rs : List Rr) (result : Outcome (List Answer)) : Type 0 where
    pub answers : List Answer
    pub returns : result ≡ done answers
    pub shows : show_answers buffer answers ≡ handed_out (length (malloc 4)) rs

  deal_loop-next :
      (n i r next : ℕ) (a : Answer) {result : List Answer}
      → i < 20
      → deal_answer malloc fuel buffer r ≡ done (a, next)
      → deal_loop malloc fuel buffer n (i + 1) next ≡ done result
      → deal_loop malloc fuel buffer (suc n) i r ≡ done (a ∷ result)
  unfolding deal_loop
  deal_loop-next n i r next a h e f = rw (gt→leb_false 20 i h, e, f)

  deal_loop-fault :
      (n i r next : ℕ) (a : Answer)
      → deal_answer malloc fuel buffer r ≡ done (a, next)
      → (i < 20 → deal_loop malloc fuel buffer n (i + 1) next ≡ fault)
      → deal_loop malloc fuel buffer (suc n) i r ≡ fault
  unfolding deal_loop
  deal_loop-fault n i r next a e f = elim (Bool-cases (leb 20 i)) [
    | inl full ↦ rw full
    | inr free ↦ rw (free, e, f (ground arith))
  ]

  deal_loop-stops :
      (n i r : ℕ)
      → deal_answer malloc fuel buffer r ≡ fault
      → deal_loop malloc fuel buffer (suc n) i r ≡ fault
  unfolding deal_loop
  deal_loop-stops n i r e = elim (Bool-cases (leb 20 i)) [
    | inl full ↦ rw full
    | inr free ↦ rw (free, e)
  ]

  show_answers-alias :
      (a : Answer) (rest : List Answer)
      → ntohs_at buffer a.resource ≡ done 5
      → show_answers buffer (a ∷ rest) ≡ show_answers buffer rest
  unfolding show_answers
  show_answers-alias a rest e = rw e

  show_answers-address :
      (name xs : List ℕ) (resource a b c d : ℕ) (rest : List Answer)
      → ntohs_at buffer resource ≡ done 1
      → show_answers buffer
          (record { name = name; resource = resource; rdata = a ∷ b ∷ c ∷ d ∷ 0 ∷ xs } ∷ rest)
        ≡ (if ltb (5 + length xs) 8 then fault else done (some (inet_ntoa a b c d)))
  unfolding show_answers address_text
  show_answers-address name [] resource a b c d rest e = rw e
  show_answers-address name (x ∷ []) resource a b c d rest e = rw e
  show_answers-address name (x ∷ (y ∷ [])) resource a b c d rest e = rw e
  show_answers-address name (x ∷ (y ∷ (z ∷ xs))) resource a b c d rest e =
      rw (e, ge→ltb_false (5 + length (x ∷ (y ∷ (z ∷ xs)))) 8 (omega arith)) refl

-- With a `malloc` that returns exactly the bytes asked for, the terminator behind the data of an
-- address record falls outside its block.
pub deal_data-exact_fault :
    (malloc : ℕ → List ℕ) (fuel : ℕ) (buffer : List ℕ) (r a b c d : ℕ)
    → length (malloc 4) ≡ 4
    → Holds buffer r (0 ∷ 1 ∷ [])
    → Holds buffer (r + 8) (0 ∷ 4 ∷ [])
    → Holds buffer (r + 10) (a ∷ b ∷ c ∷ d ∷ [])
    → deal_data malloc fuel buffer r ≡ fault
unfolding deal_data
deal_data-exact_fault malloc fuel buffer r a b c d exact type len bytes = rw (
  ntohs_at-Holds buffer r 0 1 type,
  ntohs_at-Holds buffer (r + 8) 0 4 len,
  copy_data-overlay buffer (a ∷ b ∷ c ∷ d ∷ []) [] (malloc 4) (r + 10) 0 refl (rw add-zero bytes)
      (omega arith),
  write-outside 4 (overlay (a ∷ b ∷ c ∷ d ∷ []) (malloc 4)) 0
      (omega (arith, length-drop 4 (malloc 4))),
)

module _ (malloc : ℕ → List ℕ) (fuel : ℕ) (buffer : List ℕ) (room : 4 ≤ length (malloc 4))
    (name_room : 256 ≤ length (malloc 256)) where
  read_name-NameAt :
      {r k : ℕ} (n : NameAt fuel buffer r k)
      → Reads (n.first ∷ n.others) k (read_name (malloc 256) buffer fuel r)
  read_name-NameAt n = read_name-WireName n.wire (malloc 256) fuel n.enough name_room n.short

  deal_answer-steps :
      (r k next : ℕ) (name rdata : List ℕ)
      → read_name (malloc 256) buffer fuel r ≡ done (name, k)
      → deal_data malloc fuel buffer (r + k) ≡ done (rdata, next)
      → deal_answer malloc fuel buffer r
        ≡ done (record { name = name; resource = r + k; rdata = rdata }, next)
  unfolding deal_answer
  deal_answer-steps r k next name rdata e f = rw (e, f)

  deal_answer-fault :
      (r k : ℕ) (name : List ℕ)
      → read_name (malloc 256) buffer fuel r ≡ done (name, k)
      → deal_data malloc fuel buffer (r + k) ≡ fault
      → deal_answer malloc fuel buffer r ≡ fault
  unfolding deal_answer
  deal_answer-fault r k name e f = rw (e, f)

  deal_loop-Deals :
      {r : ℕ} {rs : List Rr}
      → WireAnswers fuel buffer r rs
      → (i : ℕ) → i + length rs ≤ 20
      → (has_address rs ≡ true → 5 ≤ length (malloc 4))
      → Deals malloc fuel buffer rs (deal_loop malloc fuel buffer (length rs) i r)
  deal_loop-Deals end i few ended = record {
    answers = [];
    returns = unfold deal_loop in refl;
    shows = unfold show_answers in refl;
  }
  deal_loop-Deals (address_record {r} {k} {a} {b} {c} {d} {rs} n type len bytes rest) i few ended =
      let later = deal_loop-Deals rest (i + 1) (omega arith) (λ e. ended refl) in
      let name = read_name-NameAt n in
      let deals =
        deal_answer-steps r k _ name.name _ name.returns
          (deal_data-address malloc fuel buffer (r + k) a b c d (ended refl) type len bytes) in
      let size : 5 + length (drop 5 (malloc 4)) ≡ length (malloc 4) =
        omega (arith, length-drop 5 (malloc 4), ended refl) in
      record {
        answers = _ ∷ later.answers;
        returns = deal_loop-next malloc fuel buffer _ i r _ _ (omega arith) deals later.returns;
        shows =
            show_answers-address malloc fuel buffer name.name (drop 5 (malloc 4)) (r + k) a b c d
              later.answers (ntohs_at-Holds buffer (r + k) 0 1 type)
            ∙ ap (λ n. if ltb n 8 then fault else done (some (inet_ntoa a b c d))) size;
      }
  deal_loop-Deals (alias_record {r} {k} {j} {rs} n type target rest) i few ended =
      let later = deal_loop-Deals rest (i + 1) (omega arith) ended in
      let name = read_name-NameAt n in
      let text = read_name-NameAt target in
      let deals =
        deal_answer-steps r k _ name.name _ name.returns
          (deal_data-alias malloc fuel buffer (r + k) j text.name type text.returns) in
      record {
        answers = _ ∷ later.answers;
        returns = deal_loop-next malloc fuel buffer _ i r _ _ (omega arith) deals later.returns;
        shows =
            show_answers-alias malloc fuel buffer _ later.answers
              (ntohs_at-Holds buffer (r + k) 0 5 type)
            ∙ later.shows;
      }

  -- A record of an address whose block has just its four bytes.
  deal_loop-exact :
      {r : ℕ} {rs : List Rr}
      → WireAnswers fuel buffer r rs
      → (i : ℕ) → length (malloc 4) ≡ 4
      → has_address rs ≡ true
      → deal_loop malloc fuel buffer (length rs) i r ≡ fault
  deal_loop-exact end i exact h = cc
  deal_loop-exact (address_record {r} {k} {a} {b} {c} {d} {rs} n type len bytes rest) i exact h =
      let name = read_name-NameAt n in
      deal_loop-stops malloc fuel buffer (length rs) i r (
        deal_answer-fault r k name.name name.returns
          (deal_data-exact_fault malloc fuel buffer (r + k) a b c d exact type len bytes))
  deal_loop-exact (alias_record {r} {k} {j} {rs} n type target rest) i exact h =
      let name = read_name-NameAt n in
      let text = read_name-NameAt target in
      let deals =
        deal_answer-steps r k _ name.name _ name.returns
          (deal_data-alias malloc fuel buffer (r + k) j text.name type text.returns) in
      deal_loop-fault malloc fuel buffer (length rs) i r _ _ deals
        (λ few. deal_loop-exact rest (i + 1) exact h)

  deal_loop-handed_out :
      {r : ℕ} {rs : List Rr}
      → WireAnswers fuel buffer r rs
      → length rs ≤ 20
      → (deal_loop malloc fuel buffer (length rs) 0 r >>= show_answers buffer)
        ≡ handed_out (length (malloc 4)) rs
  deal_loop-handed_out {r} {rs} w few = elim (Bool-cases (has_address rs)) [
    | inl some_address ↦ elim (Bool-cases (ltb (length (malloc 4)) 5)) [
      | inl short ↦
          let exact : length (malloc 4) ≡ 4 = ground (arith, room, short) in
          rw (deal_loop-exact w 0 exact some_address, some_address, exact) refl
      | inr long ↦ whole (λ e. ground (arith, long))
    ]
    | inr no_address ↦ whole (λ e. let never : true ≡ false = cc in cc)
  ]
    where
      whole :
          (has_address rs ≡ true → 5 ≤ length (malloc 4))
          → (deal_loop malloc fuel buffer (length rs) 0 r >>= show_answers buffer)
            ≡ handed_out (length (malloc 4)) rs
      whole ended =
          let deals = deal_loop-Deals w 0 (omega arith) ended in rw deals.returns deals.shows

  -- On a reply with at most 20 records, each an address or an alias, whose names are in wire form, not
  -- the root, have at most 255 bytes and are read within the fuel, and where `malloc` returns blocks of
  -- the size asked for or more: without an address among the records, the reply is read to its end, and
  -- no text is handed out. With one, the text is that of the first address if the block for the four
  -- bytes of an address has eight or more, and an access falls outside that block if it has fewer.
  pub deal_recv-show_answers :
      {rs : List Rr} (qname_len : ℕ)
      → Holds buffer 6 (0 ∷ length rs ∷ [])
      → length rs ≤ 20
      → WireAnswers fuel buffer (header_size + qname_len + question_size) rs
      → (deal_recv malloc fuel buffer qname_len >>= show_answers buffer)
        ≡ handed_out (length (malloc 4)) rs
  unfolding deal_recv
  deal_recv-show_answers {rs} qname_len count few w =
      let counted : 0 * 256 + length rs ≡ length rs = omega arith in
      rw (ntohs_at-Holds buffer 6 0 (length rs) count, counted) (deal_loop-handed_out w few)

  deal_loop-overrun :
      {r : ℕ} {rs : List Rr}
      → WireAnswers fuel buffer r rs
      → (i : ℕ) → i ≤ 20
      → 20 < i + length rs
      → deal_loop malloc fuel buffer (length rs) i r ≡ fault
  deal_loop-overrun end i low many = absurd (omega arith)
  deal_loop-overrun (address_record {r} {k} {a} {b} {c} {d} {rs} n type len bytes rest) i low many =
      let name = read_name-NameAt n in
      elim (Bool-cases (ltb (length (malloc 4)) 5)) [
        | inl brief ↦
            let exact : length (malloc 4) ≡ 4 = ground (arith, room, brief) in
            deal_loop-stops malloc fuel buffer (length rs) i r (
              deal_answer-fault r k name.name name.returns
                (deal_data-exact_fault malloc fuel buffer (r + k) a b c d exact type len bytes))
        | inr long ↦
            let wide : 5 ≤ length (malloc 4) = ground (arith, long) in
            let deals =
              deal_answer-steps r k _ name.name _ name.returns
                (deal_data-address malloc fuel buffer (r + k) a b c d wide type len bytes) in
            deal_loop-fault malloc fuel buffer (length rs) i r _ _ deals
              (λ h. deal_loop-overrun rest (i + 1) (omega arith) (omega arith))
      ]
  deal_loop-overrun (alias_record {r} {k} {j} {rs} n type target rest) i low many =
      let name = read_name-NameAt n in
      let text = read_name-NameAt target in
      let deals =
        deal_answer-steps r k _ name.name _ name.returns
          (deal_data-alias malloc fuel buffer (r + k) j text.name type text.returns) in
      deal_loop-fault malloc fuel buffer (length rs) i r _ _ deals
        (λ h. deal_loop-overrun rest (i + 1) (omega arith) (omega arith))

  -- On a reply with more than 20 records, each an address or an alias, whose names are in wire form,
  -- not the root, have at most 255 bytes and are read within the fuel, and where `malloc` returns
  -- blocks of the size asked for or more, an access falls outside a block: past the end of `answers`,
  -- where none did before behind the block for the data of an address.
  pub deal_recv-overrun :
      {rs : List Rr} (qname_len hi lo : ℕ)
      → Holds buffer 6 (hi ∷ lo ∷ [])
      → length rs ≡ hi * 256 + lo
      → 20 < length rs
      → WireAnswers fuel buffer (header_size + qname_len + question_size) rs
      → deal_recv malloc fuel buffer qname_len ≡ fault
  unfolding deal_recv
  deal_recv-overrun {rs} qname_len hi lo count all many w =
      rw (ntohs_at-Holds buffer 6 hi lo count, ← all)
        (deal_loop-overrun w 0 (omega arith) (omega arith))

pub deal_recv-zero :
    (malloc : ℕ → List ℕ) (fuel : ℕ) (buffer : List ℕ) (qname_len : ℕ)
    → Holds buffer 6 (0 ∷ 0 ∷ [])
    → deal_recv malloc fuel buffer qname_len ≡ done []
unfolding deal_recv deal_loop
deal_recv-zero malloc fuel buffer qname_len count = rw (ntohs_at-Holds buffer 6 0 0 count)
