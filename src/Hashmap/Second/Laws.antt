-- ===== src/Hashmap/Second/Laws.antt =====
-- What the table and the second hash of hashmap_my/hashbak.c give.
use mydns.Prelude.{
  ℕ, ◌+◌, ◌-◌, ◌*◌, ◌^◌, ◌<◌, ◌≡◌, refl, ap, ◌∙◌, List, [], ◌∷◌, ◌++◌, arith, length, length-append,
  replicate, All, Outcome, done, ◌>>=◌, read-append, append_assoc, u64, bit_xor, ◌==◌,
  if◌then◌else◌,
}
use mathlib.Core.Path.{fun_ext}
use mydns.Prelude.Xor.{bit_xor-lt, bit_xor_ones}
use mydns.Hashmap.{bkdr_hash, char_to_size, put, init_loop}
use mydns.Hashmap.Laws.{IsRow, latest, init_loop-latest, bkdr_hash-lt, get_elem?-replicate}
use mydns.Hashmap.Second.{map_loop, hash_map_init, python_loop, python_end, python_hash, search}

char_to_size-lt : (c : ℕ) → c < 256 → char_to_size c < 18446744073709551616
unfolding char_to_size
char_to_size-lt c h = ground arith

map_loop-init_loop :
    (rows : List (List ℕ × List ℕ)) (list : List (List ℕ))
    → All IsRow rows
    → map_loop rows list ≡ init_loop 131313 (rows ++ ([], []) ∷ []) list
unfolding map_loop init_loop
map_loop-init_loop [] list fit = refl
map_loop-init_loop (([], ip) ∷ rows) list fit = absurd (omega (arith, fit.0.0))
map_loop-init_loop ((c ∷ cs, ip) ∷ rows) list fit =
    ap
      (λ (f : List (List ℕ) → Outcome (List (List ℕ))).
        put list (bkdr_hash 131313 (c ∷ cs)) ip >>= f)
      (fun_ext (λ next. map_loop-init_loop rows next fit.1))

-- From rows that fit, `hash_map_init` fills the table, and the slot that `search_hash` prints for a
-- name holds the text of the last row with the name's hash, or the empty text when there is none.
pub search-hash_map_init :
    (rows : List (List ℕ × List ℕ)) (str : List ℕ)
    → All IsRow rows
    → (list : List (List ℕ)) × (hash_map_init rows ≡ done list)
      × (search list str ≡ done (latest 131313 rows (bkdr_hash 131313 str) []))
unfolding hash_map_init search
search-hash_map_init rows str fit =
    let (list, runs, holds) =
      init_loop-latest 131313 rows [] (replicate 20 []) [] fit (omega arith) in
    let hash = bkdr_hash-lt 131313 str in
    let slot =
      holds (bkdr_hash 131313 str) []
        (get_elem?-replicate 20 (bkdr_hash 131313 str) [] (omega (arith, hash))) in
    (list, map_loop-init_loop rows (replicate 20 []) fit ∙ runs, rw slot)

-- The value that the loop reaches over the bytes `cs`.
abbrev pub fold_chars : List ℕ → ℕ → ℕ
fold_chars [] x = x
fold_chars (c ∷ cs) x = fold_chars cs (bit_xor (u64 (1000003 * x)) (char_to_size c))

python_loop-fold_chars :
    (pre cs rest : List ℕ) (p x : ℕ)
    → p ≡ length pre
    → python_loop (pre ++ (cs ++ rest)) (length cs) p x ≡ done (fold_chars cs x)
unfolding python_loop
python_loop-fold_chars pre [] rest p x e = refl
python_loop-fold_chars pre (c ∷ cs) rest p x e =
    let next =
      python_loop-fold_chars (pre ++ c ∷ []) cs rest (p + 1)
        (bit_xor (u64 (1000003 * x)) (char_to_size c))
        (omega (arith, length-append pre (c ∷ []))) in
    rw (read-append pre c (cs ++ rest) p e) (simp append_assoc at next)

fold_chars-lt :
    (cs : List ℕ) (x : ℕ)
    → All (λ c. c < 256) cs
    → x < 18446744073709551616
    → fold_chars cs x < 18446744073709551616
fold_chars-lt [] x h k = k
fold_chars-lt (c ∷ cs) x h k =
    fold_chars-lt cs _ h.1
      (bit_xor-lt 64 (u64 (1000003 * x)) (char_to_size c) (omega arith) (char_to_size-lt c h.0))

python_end_lem :
    (x : ℕ)
    → x < 18446744073709551616
    → (python_end x ≡ 18446744073709551615 - (if x == 0 then 1 else x))
unfolding python_end
python_end_lem x h = let e = bit_xor_ones 64 x h in rw e (ground arith)

-- The result is the complement of what the loop reached over the bytes, except that it is never
-- -1: the length, which is -1 when it is mixed in, does not count by itself.
pub python_hash-fold_chars :
    (c : ℕ) (cs rest : List ℕ)
    → All (λ b. b < 256) (c ∷ cs)
    → (x : ℕ) × (x ≡ fold_chars (c ∷ cs) (u64 (char_to_size c * 2 ^ 7)))
      × (python_hash ((c ∷ cs) ++ rest) (length (c ∷ cs))
          ≡ done (18446744073709551615 - (if x == 0 then 1 else x)))
unfolding python_hash
python_hash-fold_chars c cs rest bytes =
    let start = u64 (char_to_size c * 2 ^ 7) in
    (
      fold_chars (c ∷ cs) start,
      refl,
      rw (python_loop-fold_chars [] (c ∷ cs) rest 0 start refl) (
          ap done (
            python_end_lem (fold_chars (c ∷ cs) start)
              (fold_chars-lt (c ∷ cs) start bytes (omega arith)))),
    )
