-- ===== src/Hashmap/Second.antt =====
-- The second version of the experiment, hashmap_my/hashbak.c, whose SEED is 131313. Its `BKDRHash`
-- has the text of the first one's; its loop over the names always takes seven rounds.
pub mod Laws
use mydns.Prelude.{
  ℕ, zero, suc, ◌+◌, ◌-◌, ◌*◌, ◌^◌, List, [], ◌∷◌, Outcome, done, fault, ◌>>=◌, read, u64, codes,
  replicate, bit_xor, ◌==◌, if◌then◌else◌, get_elem?, from_option,
}
use mydns.Hashmap.{bkdr_hash, char_to_size, put}

-- `init_data`: the rows of `domain` and `ip`.
abbrev pub init_data : List (List ℕ × List ℕ)
init_data =
    (codes "11www.tmall.com.cn", codes "1111111111111111111")
    ∷ (codes "22www.tmall.com.com", codes "2222222222222222222")
    ∷ (codes "33www.tmall.com.co", codes "3333333333333333333")
    ∷ (codes "44www.tmall.com.comm", codes "4444444444444444444")
    ∷ (codes "55www.tmall.com.comn", codes "5555555555555555555")
    ∷ (codes "66www.tmall.com.cnno", codes "6666666666666666666")
    ∷ (codes "77www.tmall.com.cnnm", codes "7777777777777777777")
    ∷ []

-- `for (i = 0; i < 7; i++) strcpy(list[BKDRHash(domain[i])], ip[i])`, over the rows left.
pub map_loop : List (List ℕ × List ℕ) → List (List ℕ) → Outcome (List (List ℕ))
map_loop [] list = done list
map_loop ((name, ip) ∷ rows) list = do
  next ← put list (bkdr_hash 131313 name) ip
  map_loop rows next

-- `hash_map_init`, on the cleared table of 20 places.
unfoldable pub hash_map_init : List (List ℕ × List ℕ) → Outcome (List (List ℕ))
unfolding map_loop
hash_map_init rows = map_loop rows (replicate 20 [])

-- `while (--length >= 0) x = (1000003 * x) ^ *p++`, with the rounds left. A `long` that overflows
-- wraps here; a `char` from 128 is extended with ones.
pub python_loop : List ℕ → ℕ → ℕ → ℕ → Outcome ℕ
python_loop str zero p x = done x
python_loop str (suc n) p x = do
  c ← read str p
  python_loop str n (p + 1) (bit_xor (u64 (1000003 * x)) (char_to_size c))

-- The last two lines: `length` is -1 behind the loop, and `-1` stands for an error.
pub python_end : ℕ → ℕ
python_end x =
    let mixed = bit_xor x (2 ^ 64 - 1) in if mixed == 2 ^ 64 - 1 then 2 ^ 64 - 2 else mixed

-- `python_hash`, on the block `str` with its terminator.
unfoldable pub python_hash : List ℕ → ℕ → Outcome ℕ
python_hash str length = do
  c ← read str 0
  x ← python_loop str length 0 (u64 (char_to_size c * 2 ^ 7))
  done (python_end x)

-- `search_hash`: the slot that it prints.
unfoldable pub search : List (List ℕ) → List ℕ → Outcome (List ℕ)
search list str = from_option (get_elem? list (bkdr_hash 131313 str))
