-- ===== src/Hashmap.antt =====
-- The hash table experiment, hashmap_my/hash.c, whose SEED is 131333: the seed is an argument here.
pub mod Laws
pub mod Second
use mydns.Prelude.{
  codes, Option, ℕ, ◌+◌, ◌-◌, ◌*◌, ◌%◌, ◌^◌, List, [], ◌∷◌, length, ltb, if◌then◌else◌, Outcome,
  done, fault, ◌>>=◌, set, get_elem?, from_option, u64, replicate,
}

-- `init_data`: the arrays `domain` and `ip`, row by row, up to the first empty name.
abbrev pub init_data : List (List ℕ × List ℕ)
init_data =
    (codes "gold2.hao61.net", codes "183.81.183.236")
    ∷ (codes "www.google.com", codes "216.58.221.100")
    ∷ (codes "www.google.com.cn", codes "203.208.50.145")
    ∷ (codes "44www.tmall.com.comm", codes "4444444444444444444")
    ∷ (codes "55www.tmall.com.comn", codes "5555555555555555555")
    ∷ (codes "66www.tmall.com.cnno", codes "6666666666666666666")
    ∷ (codes "77www.tmall.com.cnnm", codes "7777777777777777777")
    ∷ ([], [])
    ∷ []

-- `(size_t) *tmp`: a `char` is signed, so a byte from 128 is extended with ones.
unfoldable pub char_to_size : ℕ → ℕ
char_to_size c = if ltb c 128 then c else u64 (c + 2 ^ 64 - 256)

-- `while (*tmp) hash = hash * SEED + (size_t) *tmp++`
unfoldable pub bkdr_loop : ℕ → List ℕ → ℕ → ℕ
bkdr_loop seed [] hash = hash
bkdr_loop seed (c ∷ cs) hash = bkdr_loop seed cs (u64 (hash * seed + char_to_size c))

-- `BKDRHash`
unfoldable pub bkdr_hash : ℕ → List ℕ → ℕ
unfolding bkdr_loop char_to_size
bkdr_hash seed str = bkdr_loop seed str 0 % 19

abbrev pub slot_size : ℕ
slot_size = 32

-- `strcpy(list[k], ip)`
unfoldable pub put : List (List ℕ) → ℕ → List ℕ → Outcome (List (List ℕ))
put list k ip =
    if ltb slot_size (length ip + 1)
    then fault
    else if ltb k (length list)
    then done (set list k ip)
    else fault

-- `for (i = 0; domain[i][0] != '\0'; i++) strcpy(list[BKDRHash(domain[i])], ip[i])`, over the rows
-- from `i` on: the loop ends at an empty name, and runs over the arrays when there is none.
unfoldable pub init_loop : ℕ → List (List ℕ × List ℕ) → List (List ℕ) → Outcome (List (List ℕ))
init_loop seed [] list = fault
init_loop seed (([], ip) ∷ rows) list = done list
init_loop seed ((c ∷ cs, ip) ∷ rows) list = do
  next ← put list (bkdr_hash seed (c ∷ cs)) ip
  init_loop seed rows next

-- `init_hash_map`, from the cleared table of 19 slots.
unfoldable pub init_hash_map : ℕ → List (List ℕ × List ℕ) → Outcome (List (List ℕ))
unfolding init_loop put
init_hash_map seed rows = init_loop seed rows (replicate 19 [])

-- A line that `search_hash` prints: the index, the name and the text in the slot.
pub record Line : Type 0 where
  pub index : ℕ
  pub name : List ℕ
  pub text : List ℕ

-- `for (i = 0; domain[i][0] != '\0'; i++)` of `search_hash`, over the rows from `i` on.
unfoldable pub search_loop : ℕ → List (List ℕ × List ℕ) → List (List ℕ) → Outcome (List Line)
search_loop seed [] list = fault
search_loop seed (([], ip) ∷ rows) list = done []
search_loop seed ((c ∷ cs, ip) ∷ rows) list = do
  let index = bkdr_hash seed (c ∷ cs)
  text ← from_option (get_elem? list index)
  rest ← search_loop seed rows list
  done (record { index = index; name = c ∷ cs; text = text } ∷ rest)

-- `search_hash`, on the arrays and the table: the lines printed. The argument, a text or a null
-- pointer, is not read.
unfoldable pub search_hash :
    ℕ → List (List ℕ × List ℕ) → List (List ℕ) → Option (List ℕ) → Outcome (List Line)
search_hash seed rows list str = search_loop seed rows list
