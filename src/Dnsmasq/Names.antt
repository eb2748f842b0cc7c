-- ===== src/Dnsmasq/Names.antt =====
-- Names in src/util.c of http1.0/src/dnsmasq/dnsmasq-2.45: `legal_char`, `canonicalise`,
-- `do_rfc1035_name` and `hostname_isequal`. A text is the bytes of a C string in front of its end.
pub mod Laws
use mydns.Prelude.{
  ℕ, ◌+◌, ◌-◌, List, [], ◌∷◌, ◌++◌, length, ltb, leb, ◌==◌, if◌then◌else◌, Bool, true, false, ◌&&◌,
  ◌||◌, not, Option, none, some, u8,
}

-- `MAXDNAME` and `MAXLABEL`, the system's NS_MAXDNAME and NS_MAXLABEL.
abbrev pub max_dname : ℕ
max_dname = 1025

abbrev pub max_label : ℕ
max_label = 63

-- `lo <= c && c <= hi`
abbrev pub between : ℕ → ℕ → ℕ → Bool
between lo hi c = leb lo c && leb c hi

-- `legal_char`. A `char` from 128 is negative, so it is in none of the ranges.
unfoldable pub legal_char : ℕ → Bool
legal_char c =
    ((between b'A' b'Z' c || between b'a' b'z' c) || between b'0' b'9' c)
    || ((c == b'-' || c == b'/') || (c == b'_' || c == b' '))

-- `while ((c = *s))`, from the values of `dotgap` and `nowhite`.
unfoldable pub canonicalise_loop : ℕ → Bool → List ℕ → Bool
canonicalise_loop dotgap nowhite [] = nowhite
canonicalise_loop dotgap nowhite (c ∷ s) =
    let at_dot = canonicalise_loop 0 nowhite s in
    let at_char = canonicalise_loop (dotgap + 1) (nowhite || not (c == b' ')) s in
    if c == b'.'
    then at_dot
    else if not (legal_char c) || ltb max_label (dotgap + 1)
    then false
    else at_char

-- The text without its last byte, if that is a dot.
unfoldable pub without_dot : List ℕ → List ℕ
without_dot [] = []
without_dot (c ∷ []) = if c == b'.' then [] else c ∷ []
without_dot (c ∷ (d ∷ s)) = c ∷ without_dot (d ∷ s)

-- `canonicalise`: its result, and the text that `s` holds then.
unfoldable pub canonicalise : List ℕ → Bool × List ℕ
canonicalise s =
    if length s == 0 || ltb max_dname (length s)
    then (false, s)
    else if length (without_dot s) == 0
    then (false, s)
    else (canonicalise_loop 0 false (without_dot s), without_dot s)

-- The outer loop goes on behind a dot, unless the text ends there.
abbrev pub behind_dot : List ℕ → List ℕ → List ℕ
behind_dot [] next = []
behind_dot (c ∷ cs) next = next

-- The inner loop of `do_rfc1035_name`, with the bytes of the label so far; the length goes into a
-- byte.
unfoldable pub rfc1035_loop : List ℕ → List ℕ → List ℕ
rfc1035_loop label [] = u8 (length label) ∷ label
rfc1035_loop label (c ∷ sval) =
    let next = rfc1035_loop [] sval in
    let rest = rfc1035_loop (label ++ c ∷ []) sval in
    if c == b'.' then u8 (length label) ∷ (label ++ behind_dot sval next) else rest

-- `do_rfc1035_name`: the bytes written at `p`; `none` is a null pointer.
unfoldable pub do_rfc1035_name : Option (List ℕ) → List ℕ
do_rfc1035_name none = []
do_rfc1035_name (some []) = []
do_rfc1035_name (some (c ∷ sval)) = rfc1035_loop [] (c ∷ sval)

-- `if (c1 >= 'A' && c1 <= 'Z') c1 += 'a' - 'A';`
unfoldable pub to_lower : ℕ → ℕ
to_lower c = if between b'A' b'Z' c then c + (b'a' - b'A') else c

-- `hostname_isequal`, which walks both texts with their terminators.
unfoldable pub hostname_isequal : List ℕ → List ℕ → Bool
hostname_isequal [] [] = true
hostname_isequal [] (d ∷ b) = false
hostname_isequal (c ∷ a) [] = false
hostname_isequal (c ∷ a) (d ∷ b) =
    let rest = hostname_isequal a b in if to_lower c == to_lower d then rest else false
