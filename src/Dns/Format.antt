-- ===== src/Dns/Format.antt =====
-- `domain_format` of http1.0/src/zdns.c, which writes a domain name as labels.
pub mod Encode
use mydns.Prelude.{
  ℕ, zero, suc, ◌+◌, ◌-◌, List, [], ◌∷◌, ◌++◌, length, ◌==◌, ltb, if◌then◌else◌, Outcome, done,
  fault, ◌>>=◌, read, u8,
}

-- The variables of the loop: `lock`, and what was written through `dns`.
pub record Formatter : Type 0 where
  pub lock : ℕ
  pub out : List ℕ

-- `for (; lock < i; lock++) *dns++ = host[lock]`, with `i - lock` rounds left.
pub copy_label : List ℕ → ℕ → Formatter → Outcome Formatter
copy_label host zero s = done s
copy_label host (suc n) s = do
  b ← read host s.lock
  copy_label host n (record s { lock = s.lock + 1; out = s.out ++ b ∷ [] })

-- The body of the loop over `i`, at the byte `c` that stands there.
unfoldable pub format_byte : List ℕ → ℕ → ℕ → Formatter → Outcome Formatter
unfolding copy_label
format_byte host i c s =
    if c == b'.'
    then (do
      t ← copy_label host (i - s.lock) (record s { out = s.out ++ u8 (i - s.lock) ∷ [] })
      done (record t { lock = t.lock + 1 }))
    else done s

-- `for (i = 0; i < strlen(host); i++)`, with the rounds left.
pub format_loop : List ℕ → ℕ → ℕ → Formatter → Outcome Formatter
format_loop host zero i s = done s
format_loop host (suc n) i s = do
  c ← read host i
  t ← format_byte host i c s
  format_loop host n (i + 1) t

abbrev pub host_size : ℕ
host_size = 32

-- The bytes written through `dns` for the C string `tmp`. `host` is an array of 32 bytes:
-- `strcpy` and `strcat` run over its end when `tmp`, the dot and the terminator do not fit.
unfoldable pub domain_format : List ℕ → Outcome (List ℕ)
unfolding format_loop format_byte
domain_format tmp =
    let host = tmp ++ b'.' ∷ [] in
    if ltb host_size (length host + 1) then fault else (do
      s ← format_loop host (length host) 0 (record { lock = 0; out = [] })
      done (s.out ++ 0 ∷ []))
