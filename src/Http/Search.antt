-- ===== src/Http/Search.antt =====
-- `strstr(s, "\r\n\r\n")` as zhttp.c uses it in http1.0/src, and `http_1_0_hdrlen`.
pub mod Laws
use mydns.Prelude.{
  ℕ, suc, ◌+◌, ◌<◌, ◌≡◌, List, [], ◌∷◌, ◌++◌, Option, none, some, Bool, true, false, ◌&&◌, ◌==◌,
  if◌then◌else◌, ℤ, pos, negsuc,
}

-- The blank line that ends a header.
abbrev pub crlf_crlf : List ℕ
crlf_crlf = 13 ∷ (10 ∷ (13 ∷ (10 ∷ [])))

-- Whether a text begins with that line.
unfoldable pub starts : List ℕ → Bool
starts (a ∷ (b ∷ (c ∷ (d ∷ rest)))) = (a == 13 && b == 10) && (c == 13 && d == 10)
starts _ = false

abbrev pub next_index : Option ℕ → Option ℕ
next_index none = none
next_index (some n) = some (n + 1)

-- The index of its first occurrence in a text.
unfoldable pub find : List ℕ → Option ℕ
find [] = none
find (b ∷ bs) = let later = find bs in if starts (b ∷ bs) then some 0 else next_index later

abbrev pub hdrlen_of : Option ℕ → ℤ
hdrlen_of none = negsuc 0
hdrlen_of (some p) = pos (p + 4)

-- `http_1_0_hdrlen`; `none` is a null pointer.
unfoldable pub http_1_0_hdrlen : Option (List ℕ) → ℤ
http_1_0_hdrlen none = negsuc 0
http_1_0_hdrlen (some resp) = hdrlen_of (find resp)
