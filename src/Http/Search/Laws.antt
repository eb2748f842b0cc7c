-- ===== src/Http/Search/Laws.antt =====
-- What the search for the blank line of a header finds, for http1.0/src/zhttp.c.
use mydns.Prelude.{
  ℕ, zero, suc, ◌+◌, ◌<◌, ◌≤◌, ◌≡◌, ◌⊎◌, inl, inr, refl, sym, ◌∙◌, ap, List, [], ◌∷◌, ◌++◌, arith,
  length, Option, none, some, true, false, pos, negsuc, drop, Bool-cases, All, append_assoc, ◌≢◌,
  drop-append,
}
use native.Mathlib.Decide.{dec_lt}
use mathlib.Core.Bool.{false≢true}
use mydns.Http.Search.{starts, crlf_crlf, find, http_1_0_hdrlen, hdrlen_of, next_index}

-- The text is `header`, the blank line and `body`, and the blank line ends nowhere before: no
-- shorter prefix of the text is followed by one.
pub record Splits (resp header body : List ℕ) : Type 0 where
  pub whole : resp ≡ header ++ crlf_crlf ++ body
  pub first : (n : ℕ) → n < length header → starts (drop n resp) ≡ false

starts-crlf_crlf : (bs : List ℕ) → starts bs ≡ true → (rest : List ℕ) × (bs ≡ crlf_crlf ++ rest)
unfolding starts
starts-crlf_crlf (a ∷ (b ∷ (c ∷ (d ∷ rest)))) h = (rest, ground arith)
starts-crlf_crlf [] h = cc
starts-crlf_crlf (a ∷ []) h = cc
starts-crlf_crlf (a ∷ (b ∷ [])) h = cc
starts-crlf_crlf (a ∷ (b ∷ (c ∷ []))) h = cc

-- What a search found.
abbrev Found : List ℕ → Option ℕ → Type 0
Found resp (some n) =
    (header : List ℕ) × (body : List ℕ) × (length header ≡ n) × Splits resp header body
Found resp none = (n : ℕ) → starts (drop n resp) ≡ false

Found-next :
    (b : ℕ) (bs : List ℕ) (o : Option ℕ)
    → starts (b ∷ bs) ≡ false
    → Found bs o
    → Found (b ∷ bs) (next_index o)
Found-next b bs none h f = λ n. at_or_behind n
  where
    at_or_behind : (n : ℕ) → starts (drop n (b ∷ bs)) ≡ false
    at_or_behind zero = h
    at_or_behind (suc n) = f n
Found-next b bs (some n) h (header, body, size, splits) =
    (b ∷ header, body, omega arith, record { whole = ap (◌∷◌ b) splits.whole; first = before })
  where
    before : (k : ℕ) → k < suc (length header) → starts (drop k (b ∷ bs)) ≡ false
    before zero less = h
    before (suc k) less = splits.first k (omega arith)

find-Found : (resp : List ℕ) → Found resp (find resp)
unfolding find
find-Found [] = λ n. unfold starts in nothing n
  where
    nothing : (n : ℕ) → starts (drop {A = ℕ} n []) ≡ false
    nothing zero = unfold starts in refl
    nothing (suc n) = unfold starts in refl
find-Found (b ∷ bs) = elim (Bool-cases (starts (b ∷ bs))) [
  | inl here ↦
      let (rest, e) = starts-crlf_crlf (b ∷ bs) here in
      rw here ([], rest, refl, record { whole = e; first = λ n less. absurd (omega arith) })
  | inr later ↦ rw later (Found-next b bs (find bs) later (find-Found bs))
]

starts-whole :
    (header body : List ℕ) → starts (drop (length header) (header ++ crlf_crlf ++ body)) ≡ true
starts-whole [] body = unfold starts in refl
starts-whole (h ∷ header) body = starts-whole header body

header-le :
    (resp header header' body body' : List ℕ)
    → Splits resp header body
    → Splits resp header' body'
    → length header ≤ length header'
header-le resp header header' body body' s s' = elim (dec_lt (length header') (length header)) [
  | yes less ↦
      absurd (
        false≢true (sym (s.first (length header') less) ∙ rw s'.whole (starts-whole header' body')))
  | no least ↦ omega arith
]

Found-unique :
    (resp header body : List ℕ) (o : Option ℕ)
    → Splits resp header body
    → Found resp o
    → o ≡ some (length header)
Found-unique resp header body none s f =
    absurd (false≢true (sym (f (length header)) ∙ rw s.whole (starts-whole header body)))
Found-unique resp header body (some n) s (header', body', size, s') = ap some (
    omega (
      arith,
      header-le resp header header' body body' s s',
      header-le resp header' header body' body s' s,
    ))

-- The search finds the first blank line.
pub find-Splits :
    (resp header body : List ℕ) → Splits resp header body → find resp ≡ some (length header)
find-Splits resp header body s = Found-unique resp header body (find resp) s (find-Found resp)

-- Exactly when a response has a blank line, its header, up to the first one and with it, has the
-- length returned; otherwise the result is -1.
pub http_1_0_hdrlen-Splits :
    (resp : List ℕ)
    → ((http_1_0_hdrlen (some resp) ≡ negsuc 0) × ((n : ℕ) → starts (drop n resp) ≡ false))
      ⊎ ((header : List ℕ) × (body : List ℕ) × Splits resp header body
          × (http_1_0_hdrlen (some resp) ≡ pos (length header + 4)))
unfolding http_1_0_hdrlen
http_1_0_hdrlen-Splits resp = by_found (find resp) (find-Found resp)
  where
    by_found :
        (o : Option ℕ)
        → Found resp o
        → ((hdrlen_of o ≡ negsuc 0) × ((n : ℕ) → starts (drop n resp) ≡ false))
          ⊎ ((header : List ℕ) × (body : List ℕ) × Splits resp header body
              × (hdrlen_of o ≡ pos (length header + 4)))
    by_found none f = inl (refl, f)
    by_found (some n) (header, body, size, s) =
        inr (header, body, s, ap (λ k. pos (k + 4)) (sym size))

starts-no_cr : (x : ℕ) (ys : List ℕ) → x ≢ 13 → starts (x ∷ ys) ≡ false
unfolding starts
starts-no_cr x [] h = refl
starts-no_cr x (a ∷ []) h = refl
starts-no_cr x (a ∷ (b ∷ [])) h = refl
starts-no_cr x (a ∷ (b ∷ (c ∷ ys))) h = ground arith

-- A text without a carriage return does not move the first blank line behind it.
pub find-no_cr :
    (xs ys : List ℕ) (p : ℕ)
    → All (λ b. b ≢ 13) xs
    → find ys ≡ some p
    → find (xs ++ ys) ≡ some (length xs + p)
unfolding find
find-no_cr [] ys p t e = rw e (ap some (omega arith))
find-no_cr (x ∷ xs) ys p t e =
    rw (starts-no_cr x (xs ++ ys) t.0, find-no_cr xs ys p t.1 e) (ap some (omega arith))

find-whole : (header body : List ℕ) → (p : ℕ) × (find (header ++ crlf_crlf ++ body) ≡ some p)
find-whole header body =
    by_found (find (header ++ crlf_crlf ++ body)) (find-Found (header ++ crlf_crlf ++ body))
  where
    by_found : (o : Option ℕ) → Found (header ++ crlf_crlf ++ body) o → (p : ℕ) × (o ≡ some p)
    by_found none f = absurd (false≢true (sym (f (length header)) ∙ starts-whole header body))
    by_found (some p) f = (p, refl)

-- A blank line is still found when bytes of the header in front of it are gone.
pub find-drop :
    (resp header body : List ℕ) (n : ℕ)
    → resp ≡ header ++ crlf_crlf ++ body
    → n ≤ length header
    → (p : ℕ) × (find (drop n resp) ≡ some p)
find-drop resp header body n e h =
    let (p, f) = find-whole (drop n header) body in
    (
      p,
      rw e (
          ap find (
            ap (drop n) (append_assoc header crlf_crlf body)
            ∙ drop-append n header (crlf_crlf ++ body) h
            ∙ sym (append_assoc (drop n header) crlf_crlf body))
          ∙ f),
    )
