-- ===== src/Dnsmasq/Skip/Resize.antt =====
-- The size that `resize_packet` of src/rfc1035.c in http1.0/src/dnsmasq/dnsmasq-2.45 gives.
use mydns.Prelude.{
  ℕ, zero, suc, refl, ap, ◌+◌, ◌≤◌, ◌<◌, ◌≡◌, List, [], ◌∷◌, arith, length, length-set, Option,
  none, some, Outcome, done, write-eq-set, store, ntohs_at, Returns, Returns->>=, Returns-if,
  Returns-done, Returns-weaken, All, ◌==◌,
}
use mydns.Dnsmasq.Skip.{skip_questions, skip_section, read_bytes, restore, or_zero, resize_packet}
use mydns.Dnsmasq.Skip.Laws.{
  read-byte, Ends, ntohs_at-Returns, skip_questions-Returns, skip_section-Returns,
}

store-Returns :
    (bs block : List ℕ) (i : ℕ)
    → i + length bs ≤ length block
    → Returns (λ next. length next ≡ length block) (store block i bs)
unfolding store
store-Returns [] block i h = omega arith
store-Returns (b ∷ bs) block i h = rw (write-eq-set block i b (omega arith)) (
    Returns-weaken _ _ (store _ (i + 1) bs) (λ next e. omega (arith, e, length-set block i b))
      (store-Returns bs _ (i + 1) (omega (arith, length-set block i b))))

read_bytes-Returns :
    (n : ℕ) (packet : List ℕ) (i : ℕ)
    → All (λ b. b < 256) packet
    → i + n ≤ length packet
    → Returns (λ bs. length bs ≡ n) (read_bytes packet i n)
unfolding read_bytes
read_bytes-Returns zero packet i bytes h = refl
read_bytes-Returns (suc n) packet i bytes h =
    read-byte _ packet i _ bytes (omega (arith, h)) (λ b small.
      Returns->>= _ _ (read_bytes packet (i + 1) n) _
        (read_bytes-Returns n packet (i + 1) bytes (omega (arith, h))) (λ rest f. ap suc f))

-- The packet keeps its block, and its new size is at most `n`.
abbrev pub IsSized : List ℕ → ℕ → List ℕ × ℕ → Type 0
IsSized packet n x = (length x.0 ≡ length packet) × (x.1 ≤ n)

module _ (packet : List ℕ) (plen : ℕ) (room : plen + 64 ≤ length packet)
    (bytes : All (λ b. b < 256) packet) (fuel : ℕ) (enough : plen + 64 ≤ fuel) (pheader : Option ℕ)
    (hlen : ℕ) (fits : plen + hlen ≤ length packet)
    (inside : (p : ℕ) → pheader ≡ some p → p + hlen ≤ length packet) where
  restore-Returns :
      (arcount ansp : ℕ)
      → ansp ≤ plen
      → Returns (IsSized packet (plen + hlen)) (restore packet pheader hlen arcount ansp)
  restore-Returns arcount ansp h = by_header pheader inside
    where
      by_header :
          (p : Option ℕ)
          → ((i : ℕ) → p ≡ some i → i + hlen ≤ length packet)
          → Returns (IsSized packet (plen + hlen)) (restore packet p hlen arcount ansp)
      by_header none there = (omega arith, omega arith)
      by_header (some start) there =
          Returns-if _ (arcount == 0) _ _
            (λ e.
              Returns->>= _ _ (read_bytes packet start hlen) _
                (read_bytes-Returns hlen packet start bytes (there start refl))
                (λ header size.
                  Returns->>= _ _ (store packet ansp header) _
                    (store-Returns header packet ansp (omega (arith, h, fits, size)))
                    (λ moved f.
                      Returns->>= _ _ (store moved 10 (0 ∷ 1 ∷ [])) _
                        (store-Returns (0 ∷ 1 ∷ []) moved 10 (omega (arith, f, room)))
                        (λ counted g. (omega (arith, f, g), omega arith)))))
            (λ e. (omega arith, omega arith))

  or_zero-Returns :
      (f : ℕ → Outcome (List ℕ × ℕ)) (o : Option ℕ)
      → Ends plen o
      → ((p : ℕ) → p ≤ plen → Returns (IsSized packet (plen + hlen)) (f p))
      → Returns (IsSized packet (plen + hlen)) (or_zero packet f o)
  or_zero-Returns f none e k = (omega arith, omega arith)
  or_zero-Returns f (some p) e k = k p e

  -- On every packet with room for its header, whatever its bytes, in a block that is 64 bytes longer
  -- than `plen`, has room for the pseudoheader behind `plen`, and holds the pseudoheader that is given,
  -- if one is, the walk over its sections and the move return, the block keeps its size, and the new
  -- size of the packet is at most the old one and the pseudoheader. `plen` and 64 rounds are enough.
  pub resize_packet-IsSized :
      12 ≤ plen
      → (x : List ℕ × ℕ) × (resize_packet packet plen fuel pheader hlen ≡ done x)
        × IsSized packet (plen + hlen) x
  unfolding resize_packet
  resize_packet-IsSized header =
      let count =
        λ (i : ℕ) (h : i + 1 < length packet). ntohs_at-Returns packet plen room bytes i h in
      Returns-done (IsSized packet (plen + hlen)) _ (
        Returns->>= (Ends plen) _ (skip_questions packet plen fuel) _
          (skip_questions-Returns packet plen room bytes fuel enough header)
          (λ questions e. or_zero-Returns _ questions e (λ start inside.
            Returns->>= _ _ (ntohs_at packet 6) _ (count 6 (omega (arith, room))) (λ ancount u.
              Returns->>= _ _ (ntohs_at packet 8) _ (count 8 (omega (arith, room))) (λ nscount u'.
                Returns->>= _ _ (ntohs_at packet 10) _ (count 10 (omega (arith, room)))
                  (λ arcount u''.
                    Returns->>= (Ends plen) _
                      (skip_section packet plen fuel start (ancount + nscount + arcount)) _
                      (skip_section-Returns packet plen room bytes fuel enough plen
                        (ancount + nscount + arcount) start (omega arith) (omega arith) inside)
                      (λ records e'. or_zero-Returns _ records e' (restore-Returns arcount))))))))
