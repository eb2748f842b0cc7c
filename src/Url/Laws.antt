-- ===== src/Url/Laws.antt =====
-- What a.c prints.
use mydns.Prelude.{
  ℕ, ◌+◌, ◌≤◌, ◌<◌, ◌≡◌, refl, ap, List, [], ◌∷◌, ◌++◌, arith, ltb, ge→ltb_false, lt→ltb, ◌==◌,
  if◌then◌else◌, some, done, fault, length, codes, All, false, Bool-cases, inl, inr, ltb→lt,
}
use mydns.Url.{
  span_slash, behind_literal, is_space, skip_space, word_of, Texts, scan_rest, scan_url, scan_part,
  main,
}

span_slash-host :
    (host rest : List ℕ)
    → All (λ c. (c == b'/') ≡ false) host
    → span_slash (host ++ b'/' ∷ rest) ≡ (host, b'/' ∷ rest)
unfolding span_slash
span_slash-host [] rest plain = refl
span_slash-host (c ∷ host) rest plain = rw (plain.0, span_slash-host host rest plain.1)

word_of-plain : (text : List ℕ) → All (λ c. is_space c ≡ false) text → word_of text ≡ text
unfolding word_of
word_of-plain [] plain = refl
word_of-plain (c ∷ text) plain = rw (plain.0, word_of-plain text plain.1)

scan_url-http :
    (text : List ℕ) (old : Texts) → scan_url (codes "http://" ++ text) old ≡ scan_rest text old
unfolding scan_url behind_literal
scan_url-http text old = refl

skip_space-slash : (path : List ℕ) → skip_space (b'/' ∷ path) ≡ b'/' ∷ path
unfolding skip_space is_space
skip_space-slash path = refl

word_of-slash :
    (path : List ℕ) → All (λ b. is_space b ≡ false) path → word_of (b'/' ∷ path) ≡ b'/' ∷ path
unfolding word_of is_space
word_of-slash path words = ap (λ t. b'/' ∷ t) (word_of-plain path words)

module _ (c : ℕ) (host path : List ℕ) (plain : All (λ b. (b == b'/') ≡ false) (c ∷ host)) where
  abbrev address : List ℕ
  address = (c ∷ host) ++ b'/' ∷ path

  scan_rest-address :
      (old : Texts)
      → All (λ b. is_space b ≡ false) path
      → length (c ∷ host) < 32
      → length (b'/' ∷ path) < 56
      → scan_rest address old ≡ done (record old { host = c ∷ host; uri = b'/' ∷ path })
  unfolding scan_rest
  scan_rest-address old words h u = rw (
    span_slash-host (c ∷ host) path plain,
    ge→ltb_false 32 (length (c ∷ host) + 1) (omega (arith, h)),
    skip_space-slash path,
    word_of-slash path words,
    ge→ltb_false 56 (length (b'/' ∷ path) + 1) (omega (arith, u)),
  )

  scan_rest-overrun : (old : Texts) → 32 ≤ length (c ∷ host) → scan_rest address old ≡ fault
  unfolding scan_rest
  scan_rest-overrun old h =
      rw (
        span_slash-host (c ∷ host) path plain,
        lt→ltb 32 (length (c ∷ host) + 1) (omega (arith, h)),
      )

-- For an address of a host and a path of at most 55 bytes without white space, the host, the path from
-- its slash on and the middle part of the fixed text are printed when the host has at most 31 bytes;
-- a longer host overruns its array.
pub main-address :
    (c : ℕ) (host path : List ℕ) (old : Texts)
    → All (λ b. (b == b'/') ≡ false) (c ∷ host)
    → All (λ b. is_space b ≡ false) path
    → length (b'/' ∷ path) < 56
    → main (some (codes "http://" ++ ((c ∷ host) ++ b'/' ∷ path))) old ≡ (
        if ltb (length (c ∷ host)) 32
        then done (record { host = c ∷ host; uri = b'/' ∷ path; buf = codes "12DDWDFF" })
        else fault)
unfolding main scan_part behind_literal span_slash
main-address c host path old plain words u = elim (Bool-cases (ltb (length (c ∷ host)) 32)) [
  | inl short ↦ rw (
    scan_url-http ((c ∷ host) ++ b'/' ∷ path) old,
    scan_rest-address c host path plain old words (ltb→lt _ _ short) u,
    short,
  )
  | inr long ↦ rw (
    scan_url-http ((c ∷ host) ++ b'/' ∷ path) old,
    scan_rest-overrun c host path plain old (ground (arith, long)),
    long,
  )
]
