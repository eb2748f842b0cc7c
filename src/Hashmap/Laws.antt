-- ===== src/Hashmap/Laws.antt =====
-- What the table of hashmap_my/hash.c holds after `init_hash_map`.
use mydns.Prelude.{
  ◌≤◌, ℕ, zero, suc, ◌+◌, ◌<◌, ◌≡◌, refl, List, [], ◌∷◌, ◌++◌, arith, length, set, length-set,
  get_elem?, replicate, All, map, Option, some, done, ◌==◌, if◌then◌else◌, ge→ltb_false, lt→ltb,
}
use mydns.Hashmap.{bkdr_hash, put, init_loop, init_hash_map, Line, search_loop, search_hash}

-- A row of the two arrays that fits: a name, and a text of less than 32 bytes.
abbrev pub IsRow : List ℕ × List ℕ → Type 0
IsRow (name, ip) = (0 < length name) × (length ip < 32)

-- The text of the last row whose name has the hash `k`, and `x` when there is none.
abbrev pub latest : ℕ → List (List ℕ × List ℕ) → ℕ → List ℕ → List ℕ
latest seed [] k x = x
latest seed ((name, ip) ∷ rows) k x =
    latest seed rows k (if bkdr_hash seed name == k then ip else x)

pub get_elem?-set :
    (xs : List (List ℕ)) (i k : ℕ) (v : List ℕ) {x : List ℕ}
    → get_elem? xs k ≡ some x
    → get_elem? (set xs i v) k ≡ some (if i == k then v else x)
get_elem?-set [] i k v e = cc
get_elem?-set (y ∷ ys) zero zero v e = refl
get_elem?-set (y ∷ ys) zero (suc k) v e = ground (arith, e)
get_elem?-set (y ∷ ys) (suc i) zero v e = ground (arith, e)
get_elem?-set (y ∷ ys) (suc i) (suc k) v e =
    let same : (suc i == suc k) ≡ (i == k) = ground arith in rw same (get_elem?-set ys i k v e)

pub get_elem?-replicate : (n k : ℕ) (v : List ℕ) → k < n → get_elem? (replicate n v) k ≡ some v
get_elem?-replicate zero k v h = absurd (omega arith)
get_elem?-replicate (suc n) zero v h = refl
get_elem?-replicate (suc n) (suc k) v h = get_elem?-replicate n k v (omega arith)

pub bkdr_hash-lt : (seed : ℕ) (str : List ℕ) → bkdr_hash seed str < 19
unfolding bkdr_hash
bkdr_hash-lt seed str = omega arith

pub put-set :
    (list : List (List ℕ)) (k : ℕ) (ip : List ℕ)
    → length ip < 32
    → k < length list
    → put list k ip ≡ done (set list k ip)
unfolding put
put-set list k ip fits h =
    rw (ge→ltb_false 32 (length ip + 1) (omega arith), lt→ltb k (length list) h)

pub init_loop-latest :
    (seed : ℕ) (rows rest : List (List ℕ × List ℕ)) (list : List (List ℕ)) (end : List ℕ)
    → All IsRow rows
    → 19 ≤ length list
    → (out : List (List ℕ)) × (init_loop seed (rows ++ ([], end) ∷ rest) list ≡ done out)
      × ((k : ℕ) (x : List ℕ)
          → get_elem? list k ≡ some x
          → get_elem? out k ≡ some (latest seed rows k x))
unfolding init_loop
init_loop-latest seed [] rest list end fit size = (list, refl, λ k x e. e)
init_loop-latest seed (([], ip) ∷ rows) rest list end fit size = absurd (omega (arith, fit.0.0))
init_loop-latest seed ((c ∷ cs, ip) ∷ rows) rest list end fit size =
    let k = bkdr_hash seed (c ∷ cs) in
    let (out, runs, holds) =
      init_loop-latest seed rows rest (set list k ip) end fit.1
        (omega (arith, length-set list k ip)) in
    (
      out,
      rw (put-set list k ip fit.0.1 (omega (arith, bkdr_hash-lt seed (c ∷ cs)))) runs,
      λ j x e. holds j _ (get_elem?-set list k j ip e),
    )

-- The line for a name after all rows were put in.
abbrev pub line_of : ℕ → List (List ℕ × List ℕ) → List ℕ × List ℕ → Line
line_of seed rows (name, ip) = record {
  index = bkdr_hash seed name;
  name = name;
  text = latest seed rows (bkdr_hash seed name) [];
}

search_loop-line_of :
    (seed : ℕ) (all rows rest : List (List ℕ × List ℕ)) (end : List ℕ) (list : List (List ℕ))
    → All IsRow rows
    → ((k : ℕ) → k < 19 → get_elem? list k ≡ some (latest seed all k []))
    → search_loop seed (rows ++ ([], end) ∷ rest) list ≡ done (map (line_of seed all) rows)
unfolding search_loop
search_loop-line_of seed all [] rest end list fit holds = refl
search_loop-line_of seed all (([], ip) ∷ rows) rest end list fit holds =
    absurd (omega (arith, fit.0.0))
search_loop-line_of seed all ((c ∷ cs, ip) ∷ rows) rest end list fit holds = rw (
  holds (bkdr_hash seed (c ∷ cs)) (bkdr_hash-lt seed (c ∷ cs)),
  search_loop-line_of seed all rows rest end list fit.1 holds,
)

-- From rows with names that are not empty and texts of less than 32 bytes, with an empty name behind
-- them, `init_hash_map` fills the table, and `search_hash`, whatever its argument, prints a line for
-- every row and no other: the slot of its name, the name, and what the slot holds, the text of the
-- last row whose name has the same hash.
pub search_hash-init_hash_map :
    (seed : ℕ) (rows rest : List (List ℕ × List ℕ)) (end : List ℕ) (str : Option (List ℕ))
    → All IsRow rows
    → (list : List (List ℕ)) × (init_hash_map seed (rows ++ ([], end) ∷ rest) ≡ done list)
      × (search_hash seed (rows ++ ([], end) ∷ rest) list str ≡ done (map (line_of seed rows) rows))
unfolding init_hash_map search_hash
search_hash-init_hash_map seed rows rest end str fit =
    let (list, runs, holds) =
      init_loop-latest seed rows rest (replicate 19 []) end fit (omega arith) in
    let slots : (k : ℕ) → k < 19 → get_elem? list k ≡ some (latest seed rows k []) =
      λ k h. holds k [] (get_elem?-replicate 19 k [] h) in
    (list, runs, search_loop-line_of seed rows rows rest end list fit slots)
