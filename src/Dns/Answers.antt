-- ===== src/Dns/Answers.antt =====
-- `_deal_recv` and `_show_answers` of http1.0/src/zdns.c: the answer records of a reply.
pub mod Wire
pub mod Laws
use mydns.Prelude.{
  ℕ, zero, suc, ◌+◌, ◌/◌, ◌%◌, List, [], ◌∷◌, ◌++◌, Bool, true, false, Option, none, some, ◌==◌,
  ltb, leb, if◌then◌else◌, Outcome, done, fault, ◌>>=◌, read, write, ntohs_at,
}
use mydns.Dns.ReadName.{read_name}

abbrev pub type_a : ℕ
type_a = 1

abbrev pub header_size : ℕ
header_size = 12

abbrev pub question_size : ℕ
question_size = 4

-- `sizeof(res_data_t)`: type, class, ttl and data length, packed.
abbrev pub resource_size : ℕ
resource_size = 10

abbrev pub max_answers : ℕ
max_answers = 20

-- `res_t`; `resource` points into the receive buffer, so it is an index there.
pub record Answer : Type 0 where
  pub name : List ℕ
  pub resource : ℕ
  pub rdata : List ℕ

-- `for (j = 0; j < data_len; j++) rdata[j] = reader[j]`, with the rounds left.
pub copy_data : List ℕ → ℕ → ℕ → ℕ → List ℕ → Outcome (List ℕ)
copy_data buffer reader zero j rdata = done rdata
copy_data buffer reader (suc n) j rdata = do
  b ← read buffer (reader + j)
  next ← write rdata j b
  copy_data buffer reader n (j + 1) next

-- `malloc n` is the block that the call returned, which has `n` bytes or more.
module _ (malloc : ℕ → List ℕ) (fuel : ℕ) (buffer : List ℕ) where
  -- The data of a record whose fixed part is at `resource`, and `reader` behind it.
  pub deal_data : ℕ → Outcome (List ℕ × ℕ)
  deal_data resource = do
    type ← ntohs_at buffer resource
    elim (type == type_a) [
      | true ↦ (do
        len ← ntohs_at buffer (resource + 8)
        rdata ← copy_data buffer (resource + resource_size) len 0 (malloc len)
        ended ← write rdata len 0
        done (ended, resource + resource_size + len))
      | false ↦ (do
        (rdata, stop) ← read_name (malloc 256) buffer fuel (resource + resource_size)
        done (rdata, resource + resource_size + stop))
    ]

  -- The body of the loop over the answers.
  pub deal_answer : ℕ → Outcome (Answer × ℕ)
  deal_answer reader = do
    (name, stop) ← read_name (malloc 256) buffer fuel reader
    (rdata, next) ← deal_data (reader + stop)
    done (record { name = name; resource = reader + stop; rdata = rdata }, next)

  -- `for (i = 0; i < ntohs(dnshdr->ans_count); i++)`, with the rounds left. `answers` has 20
  -- places.
  pub deal_loop : ℕ → ℕ → ℕ → Outcome (List Answer)
  deal_loop zero i reader = done []
  deal_loop (suc n) i reader =
      if leb max_answers i
      then fault
      else (do (a, next) ← deal_answer reader; rest ← deal_loop n (i + 1) next; done (a ∷ rest))

  -- The answers that `_deal_recv` stores.
  unfoldable pub deal_recv : ℕ → Outcome (List Answer)
  deal_recv qname_len = do
    count ← ntohs_at buffer 6
    deal_loop count 0 (header_size + qname_len + question_size)

-- One octet in decimal.
unfoldable pub octet_text : ℕ → List ℕ
octet_text n =
    if ltb n 10
    then (b'0' + n) ∷ []
    else if ltb n 100
    then (b'0' + n / 10) ∷ (b'0' + n % 10) ∷ []
    else (b'0' + n / 100) ∷ (b'0' + n / 10 % 10) ∷ (b'0' + n % 10) ∷ []

-- `inet_ntoa` of the four octets of an address in network order.
unfoldable pub inet_ntoa : ℕ → ℕ → ℕ → ℕ → List ℕ
inet_ntoa a b c d =
    octet_text a ++ b'.' ∷ (octet_text b ++ b'.' ∷ (octet_text c ++ b'.' ∷ octet_text d))

-- `p = (long *) rdata; s_addr = *p`: a `long` has eight bytes, and the first four are kept.
pub address_text : List ℕ → Outcome (List ℕ)
address_text rdata = do
  a ← read rdata 0
  b ← read rdata 1
  c ← read rdata 2
  d ← read rdata 3
  last ← read rdata 7
  done (inet_ntoa a b c d)

-- `_show_answers`: what is copied to `ipstr`, `none` when nothing is.
unfoldable pub show_answers : List ℕ → List Answer → Outcome (Option (List ℕ))
show_answers buffer [] = done none
show_answers buffer (a ∷ rest) = do
  type ← ntohs_at buffer a.resource
  elim (type == type_a) [
    | true ↦ (do text ← address_text a.rdata; done (some text))
    | false ↦ show_answers buffer rest
  ]
