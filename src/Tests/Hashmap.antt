-- ===== src/Tests/Hashmap.antt =====
-- The table at concrete rows, for hashmap_my/hash.c.
use mydns.Prelude.{ℕ, ◌≡◌, refl, List, [], ◌∷◌, ◌++◌, arith, map, none, done, codes}
use mydns.Hashmap.{bkdr_hash, bkdr_loop, char_to_size, init_data, init_hash_map, search_hash}
use mydns.Hashmap.Laws.{line_of, search_hash-init_hash_map}

abbrev rows : List (List ℕ × List ℕ)
rows =
    (codes "gold2.hao61.net", codes "183.81.183.236")
    ∷ (codes "www.google.com", codes "216.58.221.100")
    ∷ []

search_hash-init_hash_map_example :
    (list : List (List ℕ)) × (init_hash_map 131333 (rows ++ ([], []) ∷ []) ≡ done list)
    × (search_hash 131333 (rows ++ ([], []) ∷ []) list none ≡ done (map (line_of 131333 rows) rows))
search_hash-init_hash_map_example =
    search_hash-init_hash_map 131333 rows [] [] none
      ((omega arith, omega arith), ((omega arith, omega arith), tt))

slots : map (λ row. bkdr_hash 131333 row.0) init_data ≡ 1 ∷ 12 ∷ 2 ∷ 13 ∷ 8 ∷ 4 ∷ 15 ∷ 0 ∷ []
unfolding bkdr_hash bkdr_loop char_to_size
slots = refl
