-- ===== src/Ping/Receive/Order.antt =====
-- The sequence numbers of the requests that zping.c sends.
use mydns.Prelude.{
  ℕ, zero, suc, ◌+◌, ◌≡◌, ◌⊎◌, inl, inr, refl, ap, ◌∙◌, List, [], ◌∷◌, ◌++◌, arith, pos, negsuc,
  true, false, ◌==◌, u16, done, Ensures, Ensures->>=, Ensures-if, Ensures-true, Ensures-done,
  append-nil,
}
use mydns.Ping.{Pconf}
use mydns.Ping.Checksum.{check_sum}
use mydns.Ping.Send.{send_icmp, icmp_words}
use mydns.Ping.Time.{lost_percent}
use mydns.Ping.Receive.{
  Event, packet, interrupted, recv_error, sigalrm, sigint, Run, End, returned, exited, waiting,
  Output, reply, request, statistics, Next, again, stop, print_statistics, is_zero, on_event,
  recv_icmp,
}

-- The fourth word of a request.
abbrev pub seq_of : List ℕ → ℕ
seq_of (kind ∷ (cksum ∷ (id ∷ (seq ∷ payload)))) = seq
seq_of _ = 0

-- The sequence numbers of the requests in an output.
abbrev pub sequence : List Output → List ℕ
sequence [] = []
sequence (reply t ∷ out) = sequence out
sequence (request q ∷ out) = seq_of q.words ∷ sequence out
sequence (statistics sent received lost ∷ out) = sequence out

-- The numbers from 1 to `n`, as words.
abbrev pub numbered : ℕ → List ℕ
numbered zero = []
numbered (suc n) = numbered n ++ u16 (suc n) ∷ []

-- The requests are numbered from 1, without a gap or a repetition.
abbrev pub IsNumbered : Run → Type 0
IsNumbered r = sequence r.out ≡ numbered r.self.sendnum

sequence-append : (xs ys : List Output) → sequence (xs ++ ys) ≡ sequence xs ++ sequence ys
sequence-append [] ys = refl
sequence-append (reply t ∷ xs) ys = sequence-append xs ys
sequence-append (request q ∷ xs) ys = ap (λ s. seq_of q.words ∷ s) (sequence-append xs ys)
sequence-append (statistics sent received lost ∷ xs) ys = sequence-append xs ys

-- An output that is no request.
sequence-other :
    (out : List Output) (o : Output)
    → sequence (o ∷ []) ≡ []
    → sequence (out ++ o ∷ []) ≡ sequence out
sequence-other out o h =
    sequence-append out (o ∷ []) ∙ ap (λ s. sequence out ++ s) h ∙ append-nil (sequence out)

-- What an end leaves: the last number may be that of a request that was not sent.
abbrev pub IsInOrder : Run → End → Type 0
IsInOrder s returned = IsNumbered s
IsInOrder s waiting = IsNumbered s
IsInOrder s (exited (pos status)) = IsNumbered s
IsInOrder s (exited (negsuc status)) =
    IsNumbered s ⊎ ((n : ℕ) × (s.self.sendnum ≡ suc n) × (sequence s.out ≡ numbered n))

abbrev IsInOrderNext : Next → Type 0
IsInOrderNext (again s) = IsNumbered s
IsInOrderNext (stop s end) = IsInOrder s end

print_statistics-IsNumbered : (r : Run) → IsNumbered r → Ensures IsNumbered (print_statistics r)
unfolding print_statistics
print_statistics-IsNumbered r b =
    Ensures->>= _ _ (lost_percent r.self.sendnum r.self.recvnum) _ (Ensures-true _)
      (λ lost u. sequence-other r.out _ refl ∙ b)

send_icmp-seq :
    (pid : ℕ) (payload : List ℕ) (self : Pconf)
    → Ensures
        (λ s. (s.0.sendnum ≡ suc self.sendnum) × (seq_of s.1.words ≡ u16 (suc self.sendnum)))
        (send_icmp pid payload self)
unfolding send_icmp icmp_words
send_icmp-seq pid payload self =
    Ensures->>= _ _ (check_sum _ (self.datalen + 8)) _ (Ensures-true _)
      (λ cksum u. (omega arith, ap u16 (omega arith)))

on_event-IsInOrder :
    (pid : ℕ) (e : Event) (r : Run) → IsNumbered r → Ensures IsInOrderNext (on_event pid e r)
unfolding on_event
on_event-IsInOrder pid (packet src st rt) r b =
    Ensures-if IsInOrderNext (src == r.self.addr) _ _
      (λ ours.
        Ensures-if IsInOrderNext (is_zero r.limit) _ _
          (λ last.
            Ensures->>= _ _ (print_statistics _) _
              (print_statistics-IsNumbered _ (sequence-other r.out _ refl ∙ b)) (λ s n. n))
          (λ more. sequence-other r.out _ refl ∙ b))
      (λ other. b)
on_event-IsInOrder pid interrupted r b = b
on_event-IsInOrder pid recv_error r b = inl b
on_event-IsInOrder pid (sigalrm payload true) r b =
    Ensures->>= _ _ (send_icmp pid payload r.self) _ (send_icmp-seq pid payload r.self)
      (λ s sent. rw (sequence-append r.out (request s.1 ∷ []), sent.0, sent.1, b))
on_event-IsInOrder pid (sigalrm payload false) r b =
    Ensures->>= _ _ (send_icmp pid payload r.self) _ (send_icmp-seq pid payload r.self)
      (λ s sent. inr (r.self.sendnum, sent.0, b))
on_event-IsInOrder pid sigint r b =
    Ensures->>= _ _ (print_statistics r) _ (print_statistics-IsNumbered r b) (λ s n. n)

recv_icmp-Ensures :
    (pid : ℕ) (es : List Event) (r : Run)
    → IsNumbered r
    → Ensures (λ x. IsInOrder x.0 x.1) (recv_icmp pid es r)
unfolding recv_icmp
recv_icmp-Ensures pid [] r b = b
recv_icmp-Ensures pid (e ∷ es) r b =
    Ensures->>= IsInOrderNext _ (on_event pid e r) _ (on_event-IsInOrder pid e r b)
      (elim [ again s ↦ λ n. recv_icmp-Ensures pid es s n | stop s end ↦ λ n. n ])

-- In every run that starts without output and with no request counted, whatever events come, the
-- requests printed as sent are numbered from 1 to the number counted, in this order, each number by
-- its lower 16 bits. Only where the process exits with an error may the last number be that of a
-- request that was not sent.
pub recv_icmp-IsInOrder :
    (pid : ℕ) (es : List Event) (r : Run) {s : Run} {end : End}
    → r.out ≡ []
    → r.self.sendnum ≡ 0
    → recv_icmp pid es r ≡ done (s, end)
    → IsInOrder s end
recv_icmp-IsInOrder pid es r no_output none_sent e =
    let start : IsNumbered r = rw (no_output, none_sent) in
    Ensures-done (λ x. IsInOrder x.0 x.1) (recv_icmp pid es r) (recv_icmp-Ensures pid es r start) e
