-- ===== src/Ping/Receive/Laws.antt =====
-- When `recv_icmp` of zping.c returns, for every sequence of events.
use mydns.Prelude.{
  ℕ, ◌+◌, ◌-◌, ◌≡◌, ◌⊎◌, inl, inr, refl, ◌∙◌, List, [], ◌∷◌, arith, pos, ◌-ℤ◌, Outcome, done, true,
  false, ◌==◌, Ensures, Ensures->>=, Ensures-if, Ensures-true, Ensures-done, Ensures-weaken,
}
use mydns.Ping.{Pconf}
use mydns.Ping.Checksum.{check_sum}
use mydns.Ping.Send.{send_icmp}
use mydns.Ping.Time.{lost_percent}
use mydns.Ping.Receive.{
  Event, packet, interrupted, recv_error, sigalrm, sigint, Run, End, returned, exited, waiting,
  Next, again, stop, go_on, print_statistics, is_zero, on_event, recv_icmp,
}

-- What one event leaves to do, seen by the limit and the replies counted.
abbrev Counts : Run → Next → Type 0
Counts r (again s) =
    ((s.limit ≡ r.limit) × (s.self.recvnum ≡ r.self.recvnum))
    ⊎ ((is_zero r.limit ≡ false)
        × (s.limit ≡ r.limit -ℤ pos 1)
        × (s.self.recvnum ≡ r.self.recvnum + 1))
Counts r (stop s returned) = (is_zero r.limit ≡ true) × (s.self.recvnum ≡ r.self.recvnum + 1)
Counts r (stop s (exited _)) = Unit
Counts r (stop s waiting) = Unit

print_statistics-Ensures :
    (r : Run) → Ensures (λ s. (s.self ≡ r.self) × (s.limit ≡ r.limit)) (print_statistics r)
unfolding print_statistics
print_statistics-Ensures r =
    Ensures->>= _ _ (lost_percent r.self.sendnum r.self.recvnum) _ (Ensures-true _)
      (λ lost u. (refl, refl))

send_icmp-Ensures :
    (pid : ℕ) (payload : List ℕ) (self : Pconf)
    → Ensures (λ s. s.0.recvnum ≡ self.recvnum) (send_icmp pid payload self)
unfolding send_icmp
send_icmp-Ensures pid payload self =
    Ensures->>= _ _ (check_sum _ (self.datalen + 8)) _ (Ensures-true _) (λ cksum u. refl)

on_event-Counts : (pid : ℕ) (e : Event) (r : Run) → Ensures (Counts r) (on_event pid e r)
unfolding on_event
on_event-Counts pid (packet src sendtime recvtime) r =
    Ensures-if (Counts r) (src == r.self.addr) _ _
      (λ ours.
        Ensures-if (Counts r) (is_zero r.limit) _ _
          (λ last.
            Ensures->>= _ _ (print_statistics _) _ (print_statistics-Ensures _)
              (λ s same. (last, ground (arith, same))))
          (λ more. inr (more, refl, refl)))
      (λ other. inl (refl, refl))
on_event-Counts pid interrupted r = inl (refl, refl)
on_event-Counts pid recv_error r = tt
on_event-Counts pid (sigalrm payload true) r =
    Ensures->>= _ _ (send_icmp pid payload r.self) _ (send_icmp-Ensures pid payload r.self)
      (λ s kept. inl (refl, kept))
on_event-Counts pid (sigalrm payload false) r =
    Ensures->>= _ _ (send_icmp pid payload r.self) _ (Ensures-true _) (λ s u. tt)
on_event-Counts pid sigint r = Ensures->>= _ _ (print_statistics r) _ (Ensures-true _) (λ s u. tt)

-- How a run may end, for the limit `n`.
abbrev Ends : ℕ → Run → Run × End → Type 0
Ends n r (s, returned) = s.self.recvnum ≡ r.self.recvnum + n + 1
Ends n r (s, exited _) = Unit
Ends n r (s, waiting) = Unit

Ends-shift :
    (n m : ℕ) (r s : Run) (x : Run × End)
    → s.self.recvnum + m ≡ r.self.recvnum + n
    → Ends m s x
    → Ends n r x
Ends-shift n m r s (t, returned) e h = omega arith
Ends-shift n m r s (t, exited status) e h = tt
Ends-shift n m r s (t, waiting) e h = tt

go_on-Ends :
    (loop : Run → Outcome (Run × End)) (r : Run) (n : ℕ) (next : Next)
    → r.limit ≡ pos n
    → ((s : Run) (m : ℕ) → s.limit ≡ pos m → Ensures (Ends m s) (loop s))
    → Counts r next
    → Ensures (Ends n r) (go_on loop next)
unfolding is_zero ◌-ℤ◌
go_on-Ends loop r n (again s) h ih (inl (same, kept)) =
    Ensures-weaken (Ends n s) (Ends n r) (loop s) (λ x. Ends-shift n n r s x (omega arith))
      (ih s n (same ∙ h))
go_on-Ends loop r n (again s) h ih (inr (more, less, counted)) =
    let positive : is_zero (pos n) ≡ false = rw h at more in
    let left : s.limit ≡ pos (n - 1) = less ∙ rw h (ground arith) in
    Ensures-weaken (Ends (n - 1) s) (Ends n r) (loop s)
      (λ x. Ends-shift n (n - 1) r s x (ground arith)) (ih s (n - 1) left)
go_on-Ends loop r n (stop s returned) h ih (last, counted) =
    let zero_left : is_zero (pos n) ≡ true = rw h at last in ground arith
go_on-Ends loop r n (stop s (exited status)) h ih u = tt
go_on-Ends loop r n (stop s waiting) h ih u = tt

recv_icmp-Ends :
    (pid : ℕ) (es : List Event) (r : Run) (n : ℕ)
    → r.limit ≡ pos n
    → Ensures (Ends n r) (recv_icmp pid es r)
unfolding recv_icmp
recv_icmp-Ends pid [] r n h = tt
recv_icmp-Ends pid (e ∷ es) r n h =
    Ensures->>= (Counts r) (Ends n r) (on_event pid e r) _ (on_event-Counts pid e r)
      (λ next. go_on-Ends (recv_icmp pid es) r n next h (λ s m. recv_icmp-Ends pid es s m))

-- When the loop returns for a limit of `n`, whatever signals, errors and other packets came,
-- exactly `n + 1` packets came from the address that is pinged.
pub recv_icmp-recvnum :
    (pid : ℕ) (es : List Event) (r : Run) (n : ℕ) {s : Run}
    → r.limit ≡ pos n
    → recv_icmp pid es r ≡ done (s, returned)
    → s.self.recvnum ≡ r.self.recvnum + n + 1
recv_icmp-recvnum pid es r n h e =
    Ensures-done (Ends n r) (recv_icmp pid es r) (recv_icmp-Ends pid es r n h) e
