-- ===== src/Http/Download/Laws.antt =====
-- The files that `_process_download` of http1.0/src/zhttp.c writes, and the reads it fails on.
use mydns.Prelude.{
  ℕ, zero, suc, ◌+◌, ◌-◌, ◌<◌, ◌≤◌, ◌≡◌, ◌≢◌, refl, sym, ap, ◌∙◌, List, [], ◌∷◌, ◌++◌, arith,
  length, length-append, drop, Option, none, some, true, done, fault, overlay, replicate, IsText,
  All, strlen-append, c_text-append, append-nil, append_assoc, take-append, ge→ltb_false, lt→ltb,
  All-append, All-drop, drop-append,
}
use mydns.Http.Search.{find, crlf_crlf}
use mydns.Http.Search.Laws.{Splits, find-Splits, find-no_cr, find-drop}
use mydns.Http.Download.{strstr, strstr_in, write_chunk, download_loop, process_download}

-- The chunks one behind the other.
abbrev pub concat : List (List ℕ) → List ℕ
concat [] = []
concat (c ∷ cs) = c ++ concat cs

-- Each chunk is at least as long as the one before it, fits the block with a terminator behind it,
-- holds no zero byte and no blank line.
abbrev pub IsGrowing : ℕ → List (List ℕ) → Type 0
IsGrowing n [] = Unit
IsGrowing n (c ∷ cs) =
    ((n ≤ length c) × (0 < length c) × (length c < 1024) × IsText c × (find c ≡ none))
    × IsGrowing (length c) cs

drop-replicate : (n k : ℕ) → drop n (replicate {A = ℕ} k 0) ≡ replicate (k - n) 0
drop-replicate zero k = ap (λ j. replicate j 0) (omega arith)
drop-replicate (suc n) zero = let e : 0 - suc n ≡ 0 = omega arith in rw e
drop-replicate (suc n) (suc k) = drop-replicate n k ∙ ap (λ j. replicate j 0) (omega arith)

drop-exact : (xs ys : List ℕ) (n : ℕ) → n ≡ length xs → drop n (xs ++ ys) ≡ ys
drop-exact [] ys zero h = refl
drop-exact [] ys (suc n) h = absurd (omega arith)
drop-exact (x ∷ xs) ys zero h = absurd (omega arith)
drop-exact (x ∷ xs) ys (suc n) h = drop-exact xs ys n (omega arith)

drop-prefix :
    (prev ys : List ℕ) (n : ℕ) → length prev ≤ n → drop n (prev ++ ys) ≡ drop (n - length prev) ys
drop-prefix [] ys n h = ap (λ j. drop j ys) (omega arith)
drop-prefix (x ∷ prev) ys zero h = absurd (omega arith)
drop-prefix (x ∷ prev) ys (suc n) h =
    drop-prefix prev ys n (omega arith) ∙ ap (λ j. drop j ys) (omega arith)

-- A chunk as long as the one before leaves zero bytes behind it.
overlay-replicate :
    (c prev : List ℕ) (k : ℕ)
    → length prev ≤ length c
    → length prev + k ≡ 1024
    → length c < 1024
    → overlay c (prev ++ replicate k 0) ≡ c ++ 0 ∷ replicate (1024 - length c - 1) 0
overlay-replicate c prev k grows size fits =
    let left : k - (length c - length prev) ≡ suc (1024 - length c - 1) = omega arith in
    ap (λ t. c ++ t)
      (drop-prefix prev (replicate k 0) (length c) grows
        ∙ drop-replicate (length c - length prev) k
        ∙ ap (λ j. replicate j 0) left)

strstr_in-done : (o : Option ℕ) (n : ℕ) → strstr_in o (done n) ≡ done o
unfolding strstr_in
strstr_in-done none n = refl
strstr_in-done (some p) n = refl

strstr_text : (c rest : List ℕ) → IsText c → strstr (c ++ 0 ∷ rest) ≡ done (find c)
unfolding strstr
strstr_text c rest t =
    rw (c_text-append c rest t, strlen-append c rest t) (strstr_in-done (find c) (length c))

-- One round with a chunk `c` that leaves zero bytes behind it.
download_loop-next :
    (c : List ℕ) (cs : List (List ℕ)) (prev file written : List ℕ) (k : ℕ)
    → length prev ≤ length c
    → length prev + k ≡ 1024
    → 0 < length c
    → length c < 1024
    → IsText c
    → write_chunk (c ++ 0 ∷ replicate (1024 - length c - 1) 0) (length c) (find c) ≡ done written
    → download_loop (c ∷ cs) (prev ++ replicate k 0) file
      ≡ download_loop cs (c ++ replicate (1024 - length c) 0) (file ++ written)
unfolding download_loop
download_loop-next [] cs prev file written k grows size pos fits t w = absurd (omega arith)
download_loop-next (b ∷ bs) cs prev file written k grows size pos fits t w =
    let zeros : suc (1024 - length (b ∷ bs) - 1) ≡ 1024 - length (b ∷ bs) = omega arith in
    rw
      (
        overlay-replicate (b ∷ bs) prev k grows size fits,
        strstr_text (b ∷ bs) (replicate (1024 - length (b ∷ bs) - 1) 0) t,
        w,
      )
      (ap (λ t. download_loop cs (b ∷ (bs ++ t)) (file ++ written))
        (ap (λ j. replicate {A = ℕ} j 0) zeros))

write_chunk-none :
    (c rest : List ℕ) → find c ≡ none → write_chunk (c ++ rest) (length c) (find c) ≡ done c
unfolding write_chunk
write_chunk-none c rest e = rw (e, take-append c rest (length c) refl)

-- The body is written, without the header.
write_chunk-Splits :
    (c header body rest : List ℕ)
    → Splits c header body
    → write_chunk (c ++ rest) (length c) (find c) ≡ done body
unfolding write_chunk
write_chunk-Splits c header body rest s =
    let size : length c ≡ length header + 4 + length body = omega (
      arith,
      ap length s.whole,
      length-append (header ++ crlf_crlf) body,
      length-append header crlf_crlf,
    ) in
    let left : length c - (length header + 4) ≡ length body = omega arith in
    let behind : drop (length header + 4) (c ++ rest) ≡ body ++ rest =
      rw (s.whole, append_assoc (header ++ crlf_crlf) body rest)
        (drop-exact (header ++ crlf_crlf) (body ++ rest) (length header + 4)
          (omega (arith, length-append header crlf_crlf))) in
    rw (
      find-Splits c header body s,
      ge→ltb_false (length c) (length header + 4) (omega arith),
      left,
      behind,
      take-append body rest (length body) refl,
    )

download_loop-IsGrowing :
    (cs : List (List ℕ)) (prev file : List ℕ) (k : ℕ)
    → length prev + k ≡ 1024
    → IsGrowing (length prev) cs
    → download_loop cs (prev ++ replicate k 0) file ≡ done (file ++ concat cs)
download_loop-IsGrowing [] prev file k size g = unfold download_loop in rw append-nil
download_loop-IsGrowing (c ∷ cs) prev file k size g =
    download_loop-next c cs prev file c k g.0.0 size g.0.1 g.0.2 g.0.3 (write_chunk-none c _ g.0.4)
    ∙ download_loop-IsGrowing cs c (file ++ c) (1024 - length c) (omega (arith, g.0.2)) g.1
    ∙ ap done (append_assoc file c (concat cs))

-- When the file opens, the first read returns the whole header, fewer than 1024 bytes and no zero
-- byte, and every later read returns a byte or more, no fewer than the one before it, fewer than
-- 1024, no zero byte and no blank line, the file holds the body of the response.
pub process_download-body :
    (c header body : List ℕ) (cs : List (List ℕ))
    → Splits c header body
    → IsText c
    → length c < 1024
    → IsGrowing (length c) cs
    → process_download true (c ∷ cs) ≡ done (some (body ++ concat cs))
unfolding process_download
process_download-body c header body cs s t fits g =
    let size : 0 < length c = omega (
      arith,
      ap length s.whole,
      length-append (header ++ crlf_crlf) body,
      length-append header crlf_crlf,
    ) in
    rw (
      download_loop-next c cs [] [] body 1024 (omega arith) refl size fits t
        (write_chunk-Splits c header body _ s)
      ∙ download_loop-IsGrowing cs c body (1024 - length c) (omega arith) g)

download_loop-stale :
    (d : List ℕ) (cs : List (List ℕ)) (c header body file : List ℕ)
    → c ≡ header ++ crlf_crlf ++ body
    → IsText c
    → length c < 1024
    → 0 < length d
    → length d ≤ length header
    → IsText d
    → All (λ b. b ≢ 13) d
    → download_loop (d ∷ cs) (c ++ replicate (1024 - length c) 0) file ≡ fault
unfolding download_loop write_chunk
download_loop-stale [] cs c header body file e t fits pos short td no_cr = absurd (omega arith)
download_loop-stale (b ∷ bs) cs c header body file e t fits pos short td no_cr =
    let d = b ∷ bs in
    let size : length c ≡ length header + 4 + length body = omega (
      arith,
      ap length e,
      length-append (header ++ crlf_crlf) body,
      length-append header crlf_crlf,
    ) in
    let zeros : 1024 - length c ≡ suc (1024 - length c - 1) = omega arith in
    let (p, found) = find-drop c header body (length d) e short in
    let filled : overlay d (c ++ replicate (1024 - length c) 0)
        ≡ d ++ drop (length d) c ++ 0 ∷ replicate (1024 - length c - 1) 0 =
      ap (λ t. d ++ t)
        (drop-append (length d) c (replicate (1024 - length c) 0) (omega arith)
          ∙ ap (λ j. drop (length d) c ++ replicate j 0) zeros)
      ∙ sym (append_assoc d (drop (length d) c) (0 ∷ replicate (1024 - length c - 1) 0)) in
    rw (
      filled,
      strstr_text (d ++ drop (length d) c) (replicate (1024 - length c - 1) 0)
          (All-append _ d (drop (length d) c) td (All-drop _ (length d) c t)),
      find-no_cr d (drop (length d) c) p no_cr found,
      lt→ltb (length d) (length d + p + 4) (omega arith),
    )

-- When the second read returns fewer bytes than the header has, without a carriage return, the
-- stale header behind them is taken for a new one, and the size to write is negative.
pub process_download_stale :
    (c header body d : List ℕ) (cs : List (List ℕ))
    → Splits c header body
    → IsText c
    → length c < 1024
    → 0 < length d
    → length d ≤ length header
    → IsText d
    → All (λ b. b ≢ 13) d
    → process_download true (c ∷ (d ∷ cs)) ≡ fault
unfolding process_download
process_download_stale c header body d cs s t fits pos short td no_cr =
    let size : 0 < length c = omega (
      arith,
      ap length s.whole,
      length-append (header ++ crlf_crlf) body,
      length-append header crlf_crlf,
    ) in
    rw (
      download_loop-next c (d ∷ cs) [] [] body 1024 (omega arith) refl size fits t
        (write_chunk-Splits c header body _ s)
      ∙ download_loop-stale d cs c header body body s.whole t fits pos short td no_cr)
