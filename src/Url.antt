-- ===== src/Url.antt =====
-- a.c, which takes the host and the path out of a web address by `sscanf`. The conversions of
-- `sscanf` that it uses are written out as they are documented.
pub mod Laws
use mydns.Prelude.{
  ℕ, ◌+◌, ◌≤◌, List, [], ◌∷◌, ltb, leb, ◌==◌, ◌&&◌, ◌||◌, if◌then◌else◌, Bool, Option, none, some,
  Outcome, done, fault, ◌>>=◌, length, codes,
}

-- What the conversion `%[^/]` matches, and what is left: `none` is no match.
unfoldable pub span_slash : List ℕ → List ℕ × List ℕ
span_slash [] = ([], [])
span_slash (c ∷ cs) =
    let (front, back) = span_slash cs in if c == b'/' then ([], c ∷ cs) else (c ∷ front, back)

-- Text in the format, which is matched byte by byte: what is left.
unfoldable pub behind_literal : List ℕ → List ℕ → Option (List ℕ)
behind_literal [] text = some text
behind_literal (l ∷ ls) [] = none
behind_literal (l ∷ ls) (c ∷ cs) = let rest = behind_literal ls cs in if l == c then rest else none

-- `isspace`
unfoldable pub is_space : ℕ → Bool
is_space c = c == 32 || (leb 9 c && leb c 13)

-- What `%s` matches behind white space.
unfoldable pub skip_space : List ℕ → List ℕ
skip_space [] = []
skip_space (c ∷ cs) = let rest = skip_space cs in if is_space c then rest else c ∷ cs

unfoldable pub word_of : List ℕ → List ℕ
word_of [] = []
word_of (c ∷ cs) = let rest = word_of cs in if is_space c then [] else c ∷ rest

-- A text that is matched is written with its terminator into an array of `size` bytes, and leaves
-- `old` there when nothing is.
abbrev pub store_text : ℕ → List ℕ → List ℕ → Outcome (List ℕ)
store_text size old [] = done old
store_text size old (c ∷ cs) = if ltb size (length (c ∷ cs) + 1) then fault else done (c ∷ cs)

-- The texts in `host`, `uri` and `buf`.
pub record Texts : Type 0 where
  pub host : List ℕ
  pub uri : List ℕ
  pub buf : List ℕ

abbrev pub is_nil : List ℕ → Bool
is_nil [] = Bool.true
is_nil (c ∷ cs) = Bool.false

-- `%[^/]%s`, behind the text of the format.
unfoldable pub scan_rest : List ℕ → Texts → Outcome Texts
scan_rest rest old = do
  let (front, back) = span_slash rest
  host ← store_text 32 old.host front
  uri ← store_text 56 old.uri (if is_nil front then [] else word_of (skip_space back))
  done (record old { host = host; uri = uri })

-- `sscanf(argv[1], "http://%[^/]%s", host, uri)`, from what the arrays hold before it.
unfoldable pub scan_url : List ℕ → Texts → Outcome Texts
scan_url text old = elim (behind_literal (codes "http://") text) [
  | none ↦ done old
  | some rest ↦ scan_rest rest old
]

-- `sscanf(s, "%*[^/]/%[^/]", buf)`
unfoldable pub scan_part : List ℕ → Texts → Outcome Texts
scan_part s old =
    let (front, back) = span_slash s in
    elim (behind_literal (codes "/") back) [
      | none ↦ done old
      | some rest ↦ (do
        buf ← store_text 20 old.buf (if is_nil front then [] else (span_slash rest).0)
        done (record old { buf = buf }))
    ]

-- `main`: the texts printed. `argv[1]` is a null pointer when there is no argument.
unfoldable pub main : Option (List ℕ) → Texts → Outcome Texts
main none old = fault
main (some text) old = do scanned ← scan_url text old; scan_part (codes "iios/12DDWDFF/122") scanned
