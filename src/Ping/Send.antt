-- ===== src/Ping/Send.antt =====
-- `send_icmp` of zping.c: one echo request.
use mydns.Prelude.{
  ℕ, suc, ◌+◌, ◌-◌, ◌/◌, ◌%◌, ◌^◌, ◌<◌, ◌≤◌, ◌≡◌, List, [], ◌∷◌, ◌++◌, arith, length, All, take,
  Outcome, done, ◌>>=◌, u16, take-append-drop, length-take, All-take, drop,
}
use mydns.Ping.{Pconf}
use mydns.Ping.Checksum.{check_sum}
use mydns.Ping.Checksum.Laws.{IsWord, check_sum_verifies, check_sum-IsFolded}

-- The 16-bit words of the packet on a little-endian machine: type 8 and code 0, the checksum, the
-- id, the sequence number and what follows in `sendbuf`.
unfoldable pub icmp_words : ℕ → ℕ → ℕ → List ℕ → List ℕ
icmp_words cksum id seq payload = 8 ∷ (cksum ∷ (u16 id ∷ (u16 seq ∷ payload)))

-- What `sendto` was given: the words and the length in bytes. `fields` are the words of `sendbuf`
-- behind the header after the time was written there.
pub record Request : Type 0 where
  pub words : List ℕ
  pub len : ℕ

unfoldable pub send_icmp : ℕ → List ℕ → Pconf → Outcome (Pconf × Request)
send_icmp pid payload self = do
  let seq = self.sendnum + 1
  cksum ← check_sum (icmp_words 0 pid seq payload) (self.datalen + 8)
  done (
    record self { sendnum = seq },
    record { words = icmp_words cksum pid seq payload; len = self.datalen + 8 },
  )

-- An echo request as RFC 792 lays it out: type 8 and code 0, the checksum, the lower 16 bits of an id
-- and of a number, and the data, of which `datalen` bytes are sent.
abbrev pub echo_request : ℕ → ℕ → ℕ → List ℕ → ℕ → Request
echo_request cksum id seq payload datalen = record {
  words = 8 ∷ (cksum ∷ (id % 2 ^ 16 ∷ (seq % 2 ^ 16 ∷ payload)));
  len = datalen + 8;
}

-- One request with the process id and the next number, and the counter moved on.
pub record IsSent (pid : ℕ) (payload : List ℕ) (self : Pconf) (result : Outcome (Pconf × Request))
    : Type 0 where
  pub cksum : ℕ
  pub is_word : cksum < 2 ^ 16
  pub returns :
      result
      ≡ done (
        record self { sendnum = self.sendnum + 1 },
        echo_request cksum pid (self.sendnum + 1) payload self.datalen,
      )
  pub verifies :
      check_sum
        (echo_request cksum pid (self.sendnum + 1) payload self.datalen).words
        (self.datalen + 8)
      ≡ done 0

-- With the words of `sendbuf` behind the header, 28 at most, there for the length configured, one
-- request is sent, and `sendnum` is one more: type 8 and code 0, the checksum, the lower 16 bits of
-- the process id and of the new `sendnum`, and these words, with the length configured and 8. The
-- checksum over that length verifies.
pub send_icmp-IsSent :
    (pid : ℕ) (payload : List ℕ) (self : Pconf)
    → All IsWord payload
    → self.datalen / 2 ≤ length payload
    → length payload ≤ 28
    → IsSent pid payload self (send_icmp pid payload self)
unfolding send_icmp icmp_words
send_icmp-IsSent pid payload self words enough few =
    let kept = take (self.datalen / 2) payload in
    let rest = drop (self.datalen / 2) payload in
    let post = u16 pid ∷ (u16 (self.sendnum + 1) ∷ kept) in
    let whole : kept ++ rest ≡ payload = take-append-drop (self.datalen / 2) payload in
    let size : (self.datalen + 8) / 2 ≡ suc (suc (length post)) =
      omega (arith, length-take (self.datalen / 2) payload) in
    let post_words : All IsWord post =
      (omega arith, (omega arith, All-take _ (self.datalen / 2) payload words)) in
    let (m, runs, f) =
      check_sum-IsFolded (8 ∷ (0 ∷ post)) rest (self.datalen + 8) (omega (arith, size))
        (omega (arith, length-take (self.datalen / 2) payload))
        (omega arith, (omega arith, post_words)) in
    let verified =
      check_sum_verifies (8 ∷ []) post rest (self.datalen + 8) (65535 - m) (omega (arith, size))
        (omega (arith, length-take (self.datalen / 2) payload)) (omega arith, tt) post_words runs in
    record {
      cksum = 65535 - m;
      is_word = omega arith;
      returns = rw (rw whole at runs);
      verifies = rw whole at verified.1;
    }
