-- ===== src/Dns/ReadName/Laws.antt =====
-- What `read_name` of http1.0/src/zdns.c returns, and the inputs on which it does not.
use mydns.Prelude.{
  ℕ, zero, suc, ◌+◌, ◌-◌, ◌*◌, ◌<◌, ◌≤◌, ◌≡◌, refl, ap, ◌∙◌, List, [], ◌∷◌, ◌++◌, arith, length,
  append_assoc, done, fault, no_fuel, write, set, write-eq-set, Outcome, length-set, write-overlay,
  c_text, c_text-append, strlen-append, All, get_elem?, some, drop, false, if◌then◌else◌,
}
use mydns.Dns.Labels.{IsPlainLabel, encode, join}
use mydns.Dns.ReadName.{Scan, scan_loop, convert, end_name, read_name}
use mydns.Dns.ReadName.Wire.{WireName, root, label, pointer, rounds}
use mydns.Dns.ReadName.Collect.{collected, scan_loop-IsCollected, scan_loop-end, scan_loop-pointer}
use mydns.Dns.ReadName.Dots.{convert-join, join-IsText, dot_loop-stop}

WireName-plain :
    {buffer : List ℕ} {r k : ℕ} {ls : List (List ℕ)} → WireName buffer r ls k → All IsPlainLabel ls
WireName-plain (root at e) = tt
WireName-plain (label plain at rest e) = (plain, WireName-plain rest)
WireName-plain (pointer hi lo above first second rest e) = WireName-plain rest

-- `name[0] = '\0'`
abbrev emptied : List ℕ → List ℕ
emptied block = set block 0 0

read_name-returns :
    (block buffer text name : List ℕ) (fuel r : ℕ) (out : Scan)
    → 0 < length block
    → scan_loop buffer fuel r (collected buffer (emptied block) [] 1 false) ≡ done out
    → write out.name out.p 0 ≡ done name
    → convert name ≡ done text
    → read_name block buffer fuel r ≡ done (text, if out.jumped then out.count + 1 else out.count)
unfolding read_name
read_name-returns block buffer text name fuel r out h s w c = rw (write-eq-set block 0 0 h, s, w, c)

-- `read_name` returned the text `ls` with dots, and `k`.
pub record Reads (ls : List (List ℕ)) (k : ℕ) (result : Outcome (List ℕ × ℕ)) : Type 0 where
  pub name : List ℕ
  pub returns : result ≡ done (name, k)
  pub text_is : c_text name ≡ join ls

-- A name in wire form that is not the root and has at most 255 bytes is returned as its labels
-- with dots between them, through every pointer, and `*count` is what it takes where it starts.
pub read_name-WireName :
    {buffer : List ℕ} {r k : ℕ} {l : List ℕ} {ls : List (List ℕ)} (w : WireName buffer r (l ∷ ls) k)
    (block : List ℕ) (fuel : ℕ)
    → rounds w ≤ fuel
    → 256 ≤ length block
    → length (encode (l ∷ ls)) < 256
    → Reads (l ∷ ls) k (read_name block buffer fuel r)
read_name-WireName {buffer} {r} {k} {l} {ls} w block fuel enough size short =
    let plain = WireName-plain w in
    let s =
      scan_loop-IsCollected buffer (emptied block) w [] fuel 1 false enough
        (omega (arith, length-set block 0 0)) (omega arith) in
    let rest = 0 ∷ drop (length (encode (l ∷ ls) ++ 0 ∷ [])) (emptied block) in
    let ended =
      write-overlay (encode (l ∷ ls)) 0 (emptied block) (length (encode (l ∷ ls))) refl
        (omega (arith, length-set block 0 0)) in
    record {
      name = join (l ∷ ls) ++ 0 ∷ rest;
      returns =
          read_name-returns block buffer _
            (encode (l ∷ ls) ++ 0 ∷ [] ++ drop (length (encode (l ∷ ls) ++ 0 ∷ [])) (emptied block))
            fuel r s.out (omega arith) s.returns (rw (s.name_is, s.p_is) ended)
            (rw (append_assoc (encode (l ∷ ls))) (convert-join l ls _ plain short))
          ∙ ap (λ (n : ℕ). done (join (l ∷ ls) ++ 0 ∷ rest, n)) (omega (arith, s.count_is));
      text_is = c_text-append (join (l ∷ ls)) rest (join-IsText l ls plain);
    }

convert-empty : (rest : List ℕ) → convert (0 ∷ rest) ≡ fault
unfolding convert end_name
convert-empty rest = rw (dot_loop-stop 256 (0 ∷ rest) 0 0 (strlen-append [] rest tt) (omega arith))

-- The root name, a single zero byte, makes the code write in front of the block.
pub read_name-root :
    (buffer block : List ℕ) (r fuel : ℕ)
    → get_elem? buffer r ≡ some 0
    → 0 < length block
    → read_name block buffer (suc fuel) r ≡ fault
unfolding read_name
read_name-root buffer [] r fuel at h = absurd (omega arith)
read_name-root buffer (b ∷ bs) r fuel at h = rw (
  write-eq-set (b ∷ bs) 0 0 h,
  scan_loop-end buffer [] fuel r _ at,
  write-eq-set (0 ∷ bs) 0 0 (omega arith),
  convert-empty bs,
)

scan_loop-self_pointer :
    (buffer : List ℕ) (r hi lo : ℕ)
    → 192 ≤ hi
    → get_elem? buffer r ≡ some hi
    → get_elem? buffer (r + 1) ≡ some lo
    → (hi - 192) * 256 + lo ≡ r
    → (fuel : ℕ) (s : Scan) → scan_loop buffer fuel r s ≡ no_fuel
scan_loop-self_pointer buffer r hi lo above first second self zero s = unfold scan_loop in refl
scan_loop-self_pointer buffer r hi lo above first second self (suc fuel) s =
    scan_loop-pointer buffer [] hi lo fuel r s above first second
    ∙ rw self (scan_loop-self_pointer buffer r hi lo above first second self fuel _)

-- A compression pointer to itself keeps the first loop running, whatever the fuel.
pub read_name-self_pointer :
    (buffer block : List ℕ) (r hi lo fuel : ℕ)
    → get_elem? buffer r ≡ some hi
    → get_elem? buffer (r + 1) ≡ some lo
    → 192 ≤ hi
    → (hi - 192) * 256 + lo ≡ r
    → 0 < length block
    → read_name block buffer fuel r ≡ no_fuel
unfolding read_name
read_name-self_pointer buffer block r hi lo fuel first second above self h = rw (
  write-eq-set block 0 0 h,
  scan_loop-self_pointer buffer r hi lo above first second self fuel
      (collected buffer (emptied block) [] 1 false),
)
