-- ===== src/Ping/Receive/Bare.antt =====
-- With a data length of 0 the requests that zping.c sends have no data.
use mydns.Prelude.{
  ℕ, ◌+◌, ◌≡◌, List, [], ◌∷◌, arith, true, false, Ensures, Ensures->>=, Ensures-if, Ensures-true,
  All, All-append, ◌==◌,
}
use mydns.Ping.{Pconf}
use mydns.Ping.Checksum.{check_sum}
use mydns.Ping.Send.{send_icmp}
use mydns.Ping.Time.{lost_percent}
use mydns.Ping.Receive.{
  Event, packet, interrupted, recv_error, sigalrm, sigint, Run, Output, reply, request, statistics,
  Next, again, stop, print_statistics, is_zero, on_event, recv_icmp,
}

-- A request has the 8 bytes of its header only.
abbrev pub IsBareOutput : Output → Type 0
IsBareOutput (reply t) = Unit
IsBareOutput (request q) = q.len ≡ 8
IsBareOutput (statistics sent received lost) = Unit

abbrev pub IsBare : Run → Type 0
IsBare r = (r.self.datalen ≡ 0) × All IsBareOutput r.out

abbrev IsBareNext : Next → Type 0
IsBareNext (again s) = IsBare s
IsBareNext (stop s end) = IsBare s

print_statistics-IsBare : (r : Run) → IsBare r → Ensures IsBare (print_statistics r)
unfolding print_statistics
print_statistics-IsBare r b =
    Ensures->>= _ _ (lost_percent r.self.sendnum r.self.recvnum) _ (Ensures-true _)
      (λ lost u. (b.0, All-append _ r.out _ b.1 (tt, tt)))

send_icmp-IsBare :
    (pid : ℕ) (payload : List ℕ) (self : Pconf)
    → self.datalen ≡ 0
    → Ensures (λ s. (s.0.datalen ≡ 0) × (s.1.len ≡ 8)) (send_icmp pid payload self)
unfolding send_icmp
send_icmp-IsBare pid payload self h =
    Ensures->>= _ _ (check_sum _ (self.datalen + 8)) _ (Ensures-true _)
      (λ cksum u. (h, omega arith))

on_event-IsBare : (pid : ℕ) (e : Event) (r : Run) → IsBare r → Ensures IsBareNext (on_event pid e r)
unfolding on_event
on_event-IsBare pid (packet src st rt) r b =
    let kept = All-append IsBareOutput r.out _ b.1 (tt, tt) in
    Ensures-if IsBareNext (src == r.self.addr) _ _
      (λ ours.
        Ensures-if IsBareNext (is_zero r.limit) _ _
          (λ last.
            Ensures->>= _ _ (print_statistics _) _ (print_statistics-IsBare _ (b.0, kept))
              (λ s bare. bare))
          (λ more. (b.0, kept)))
      (λ other. b)
on_event-IsBare pid interrupted r b = b
on_event-IsBare pid recv_error r b = b
on_event-IsBare pid (sigalrm payload true) r b =
    Ensures->>= _ _ (send_icmp pid payload r.self) _ (send_icmp-IsBare pid payload r.self b.0)
      (λ s sent. (sent.0, All-append IsBareOutput r.out _ b.1 (sent.1, tt)))
on_event-IsBare pid (sigalrm payload false) r b =
    Ensures->>= _ _ (send_icmp pid payload r.self) _ (send_icmp-IsBare pid payload r.self b.0)
      (λ s sent. (sent.0, b.1))
on_event-IsBare pid sigint r b =
    Ensures->>= _ _ (print_statistics r) _ (print_statistics-IsBare r b) (λ s bare. bare)

pub recv_icmp-IsBare :
    (pid : ℕ) (es : List Event) (r : Run)
    → IsBare r
    → Ensures (λ x. IsBare x.0) (recv_icmp pid es r)
unfolding recv_icmp
recv_icmp-IsBare pid [] r b = b
recv_icmp-IsBare pid (e ∷ es) r b =
    Ensures->>= IsBareNext (λ x. IsBare x.0) (on_event pid e r) _ (on_event-IsBare pid e r b)
      (elim [ again s ↦ λ bare. recv_icmp-IsBare pid es s bare | stop s end ↦ λ bare. bare ])
