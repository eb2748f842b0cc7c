-- ===== src/Http/Send.antt =====
-- `send_request` and `_process_post_get` of http1.0/src/zhttp.c: a request out and a response in.
use native.Mathlib.Nat.{zero-add}
use Prim.Native.Nat.{min}
use mydns.Prelude.{
  ℕ, zero, suc, ◌+◌, ◌-◌, ◌<◌, ◌≤◌, ◌≡◌, refl, sym, ap, ◌∙◌, List, [], ◌∷◌, ◌++◌, arith, length,
  take, drop, ltb, All, if◌then◌else◌, Option, none, some, false, Bool-cases, inl, inr, ltb→lt,
  ge→ltb_false,
}

-- How the loop of `send_request` ends: its result 0 or -1, or it waits for another `write`.
pub data SendEnd : Type 0 where
  all_sent : SendEnd
  send_error : SendEnd
  blocked : SendEnd

-- What has been sent, and how the loop goes on after one `write`.
pub record Sending : Type 0 where
  pub writen : ℕ
  pub sent : List ℕ

-- One call of `write`, that takes at most the bytes it is given.
abbrev pub write_some : List ℕ → ℕ → Sending → Sending
write_some request n s =
    let k = min n (length request - s.writen) in
    record { writen = s.writen + k; sent = s.sent ++ take k (drop s.writen request) }

-- `while (writen < request_len)`, over what the calls of `write` returned: `none` is -1.
unfoldable pub send_loop : List ℕ → List (Option ℕ) → Sending → SendEnd × Sending
send_loop request [] s = (if ltb s.writen (length request) then blocked else all_sent, s)
send_loop request (none ∷ ws) s =
    (if ltb s.writen (length request) then send_error else all_sent, s)
send_loop request (some n ∷ ws) s =
    let rest = send_loop request ws (write_some request n s) in
    if ltb s.writen (length request) then rest else (all_sent, s)

-- `send_request` of all the bytes of `request`.
unfoldable pub send_request : List ℕ → List (Option ℕ) → SendEnd × Sending
send_request request ws = send_loop request ws (record { writen = 0; sent = [] })

-- The bytes sent are the first bytes of the request, `writen` of them.
abbrev pub IsPrefixSent : List ℕ → Sending → Type 0
IsPrefixSent request s = (s.sent ≡ take s.writen request) × (s.writen ≤ length request)

take-nil : (k : ℕ) → take {A = ℕ} k [] ≡ []
take-nil zero = refl
take-nil (suc k) = refl

take-add : (n k : ℕ) (xs : List ℕ) → take n xs ++ take k (drop n xs) ≡ take (n + k) xs
take-add zero k xs = rw zero-add
take-add (suc n) k [] = take-nil k ∙ sym (take-nil (suc n + k))
take-add (suc n) k (x ∷ xs) =
    let e : suc n + k ≡ suc (n + k) = omega arith in rw e (ap (◌∷◌ x) (take-add n k xs))

write_some-IsPrefixSent :
    (request : List ℕ) (n : ℕ) (s : Sending)
    → IsPrefixSent request s
    → IsPrefixSent request (write_some request n s)
write_some-IsPrefixSent request n s p =
    (rw p.0 (take-add s.writen (min n (length request - s.writen)) request), omega (arith, p.1))

-- What an end of the loop says of the bytes sent.
abbrev pub SaysSent : List ℕ → SendEnd × Sending → Type 0
SaysSent request (all_sent, s) = s.sent ≡ request
SaysSent request (send_error, s) = IsPrefixSent request s × (s.writen < length request)
SaysSent request (blocked, s) = IsPrefixSent request s × (s.writen < length request)

pub take_all : (xs : List ℕ) (n : ℕ) → length xs ≤ n → take n xs ≡ xs
take_all [] zero h = refl
take_all [] (suc n) h = refl
take_all (x ∷ xs) zero h = absurd (omega arith)
take_all (x ∷ xs) (suc n) h = ap (◌∷◌ x) (take_all xs n (omega arith))

SaysSent-end :
    (request : List ℕ) (s : Sending)
    → IsPrefixSent request s
    → ltb s.writen (length request) ≡ false
    → s.sent ≡ request
SaysSent-end request s p h = p.0 ∙ take_all request s.writen (ground arith)

send_loop-SaysSent :
    (request : List ℕ) (ws : List (Option ℕ)) (s : Sending)
    → IsPrefixSent request s
    → SaysSent request (send_loop request ws s)
unfolding send_loop
send_loop-SaysSent request [] s p = elim (Bool-cases (ltb s.writen (length request))) [
  | inl more ↦ rw more (p, ltb→lt _ _ more)
  | inr enough ↦ rw enough (SaysSent-end request s p enough)
]
send_loop-SaysSent request (none ∷ ws) s p = elim (Bool-cases (ltb s.writen (length request))) [
  | inl more ↦ rw more (p, ltb→lt _ _ more)
  | inr enough ↦ rw enough (SaysSent-end request s p enough)
]
send_loop-SaysSent request (some n ∷ ws) s p = elim (Bool-cases (ltb s.writen (length request))) [
  | inl more ↦ rw more (
      send_loop-SaysSent request ws (write_some request n s)
        (write_some-IsPrefixSent request n s p))
  | inr enough ↦ rw enough (SaysSent-end request s p enough)
]

-- When the loop ends with 0, the bytes sent are the request, whole and in order; when it ends with
-- -1 or still waits, they are a proper prefix of it.
pub send_request-SaysSent :
    (request : List ℕ) (ws : List (Option ℕ)) → SaysSent request (send_request request ws)
unfolding send_request
send_request-SaysSent request ws =
    send_loop-SaysSent request ws (record { writen = 0; sent = [] }) (refl, omega arith)

-- Every call of `write` took a byte or more.
abbrev pub IsProgress : Option ℕ → Type 0
IsProgress none = ⊥
IsProgress (some n) = 0 < n

send_loop-all_sent :
    (request : List ℕ) (ws : List (Option ℕ)) (s : Sending)
    → All IsProgress ws
    → length request ≤ s.writen + length ws
    → (send_loop request ws s).0 ≡ all_sent
unfolding send_loop
send_loop-all_sent request [] s p h = rw (ge→ltb_false s.writen (length request) (omega arith))
send_loop-all_sent request (none ∷ ws) s p h = absurd p.0
send_loop-all_sent request (some n ∷ ws) s p h = elim (Bool-cases (ltb s.writen (length request))) [
  | inl more ↦
      let less = ltb→lt _ _ more in
      rw more (send_loop-all_sent request ws (write_some request n s) p.1 (omega (arith, p.0)))
  | inr enough ↦ rw enough
]

-- When each `write` takes a byte or more, as many calls as the request has bytes are enough for the
-- loop to end with 0.
pub send_request-all_sent :
    (request : List ℕ) (ws : List (Option ℕ))
    → All IsProgress ws
    → length request ≤ length ws
    → (send_request request ws).0 ≡ all_sent
unfolding send_request
send_request-all_sent request ws p h =
    send_loop-all_sent request ws (record { writen = 0; sent = [] }) p (omega arith)
