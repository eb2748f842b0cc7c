-- ===== src/Ping/Receive/Progress.antt =====
-- `recv_icmp` of zping.c returns once enough replies came.
use mydns.Prelude.{
  ℕ, zero, suc, ◌+◌, ◌-◌, ◌<◌, ◌≡◌, inl, inr, refl, ◌∙◌, List, [], ◌∷◌, ◌++◌, arith, ℤ, pos, ◌-ℤ◌,
  done, true, false, ◌==◌, if◌then◌else◌, All, Bool-cases, leb, neg_ℕ, ◌*◌, ◌/◌, ◌≤◌, length, Bool,
}
use mydns.Ping.Time.{Timeval, lost_percent, tv_sub}
use mydns.Ping.Checksum.Laws.{IsWord}
use mydns.Ping.Send.{Request, send_icmp, echo_request, IsSent, send_icmp-IsSent}
use mydns.Ping.Receive.{
  request, Event, packet, interrupted, recv_error, sigalrm, sigint, Run, returned, reply,
  statistics, Next, again, stop, go_on, print_statistics, is_zero, on_reply, on_event, recv_icmp,
}

-- No error and no `SIGINT`; a request that is due has its words and is sent. `datalen` is the length
-- configured.
abbrev pub IsQuiet : ℕ → Event → Type 0
IsQuiet datalen (packet src sendtime recvtime) = Unit
IsQuiet datalen interrupted = Unit
IsQuiet datalen recv_error = ⊥
IsQuiet datalen (sigalrm payload sent) =
    (sent ≡ true) × All IsWord payload × (datalen / 2 ≤ length payload) × (length payload ≤ 28)
IsQuiet datalen sigint = ⊥

-- How many packets come from `addr`.
abbrev pub replies : ℕ → List Event → ℕ
replies addr [] = 0
replies addr (packet src sendtime recvtime ∷ es) = (if src == addr then 1 else 0) + replies addr es
replies addr (interrupted ∷ es) = replies addr es
replies addr (recv_error ∷ es) = replies addr es
replies addr (sigalrm payload sent ∷ es) = replies addr es
replies addr (sigint ∷ es) = replies addr es

lost_percent-done :
    (sendnum recvnum : ℕ) → 0 < sendnum → (z : ℤ) × (lost_percent sendnum recvnum ≡ done z)
unfolding lost_percent
lost_percent-done sendnum recvnum h = elim (Bool-cases (leb recvnum sendnum)) [
  | inl few ↦ (pos ((sendnum - recvnum) / sendnum * 100), ground arith)
  | inr many ↦ (neg_ℕ ((recvnum - sendnum) / sendnum * 100), ground arith)
]

-- The run after one more reply.
abbrev counted : Timeval → Timeval → Run → Run
counted sendtime recvtime r = record r {
  self = record (r.self) { recvnum = r.self.recvnum + 1 };
  limit = r.limit -ℤ pos 1;
  out = r.out ++ reply (tv_sub recvtime sendtime) ∷ [];
}

on_reply_last :
    (sendtime recvtime : Timeval) (r : Run)
    → 0 < r.self.sendnum
    → r.limit ≡ pos 0
    → (s : Run) × (on_reply sendtime recvtime r ≡ done (stop s returned))
unfolding on_reply print_statistics is_zero
on_reply_last sendtime recvtime r sent h =
    let (z, e) = lost_percent-done r.self.sendnum (r.self.recvnum + 1) sent in
    let last : is_zero r.limit ≡ true = rw h in
    let c = counted sendtime recvtime r in
    (record c { out = c.out ++ statistics c.self.sendnum c.self.recvnum z ∷ [] }, rw (last, e))

on_reply_more :
    (sendtime recvtime : Timeval) (r : Run) (n : ℕ)
    → r.limit ≡ pos (suc n)
    → on_reply sendtime recvtime r ≡ done (again (counted sendtime recvtime r))
unfolding on_reply is_zero
on_reply_more sendtime recvtime r n h =
    let more : is_zero r.limit ≡ false = rw h (ground arith) in rw more

recv_icmp-next :
    (pid : ℕ) (e : Event) (es : List Event) (r : Run) (next : Next)
    → on_event pid e r ≡ done next
    → recv_icmp pid (e ∷ es) r ≡ go_on (recv_icmp pid es) next
unfolding recv_icmp
recv_icmp-next pid e es r next h = rw h

on_event-ours :
    (pid src : ℕ) (sendtime recvtime : Timeval) (r : Run)
    → (src == r.self.addr) ≡ true
    → on_event pid (packet src sendtime recvtime) r ≡ on_reply sendtime recvtime r
unfolding on_event
on_event-ours pid src sendtime recvtime r h = rw h

on_event-other :
    (pid src : ℕ) (sendtime recvtime : Timeval) (r : Run)
    → (src == r.self.addr) ≡ false
    → on_event pid (packet src sendtime recvtime) r ≡ done (again r)
unfolding on_event
on_event-other pid src sendtime recvtime r h = rw h

-- The run after one more request.
abbrev requested : Request → Run → Run
requested req r = record r {
  self = record (r.self) { sendnum = r.self.sendnum + 1 };
  out = r.out ++ request req ∷ [];
}

on_event-alarm :
    (pid : ℕ) (payload : List ℕ) (sent : Bool) (r : Run)
    → sent ≡ true
    → (q : IsSent pid payload r.self (send_icmp pid payload r.self))
    → on_event pid (sigalrm payload sent) r
      ≡ done (
          again
            (requested (echo_request q.cksum pid (r.self.sendnum + 1) payload r.self.datalen) r))
unfolding on_event
on_event-alarm pid payload sent r ok q = rw (q.returns, ok)

-- With a limit of `n`, at least one request sent, and more than `n` replies among other packets,
-- interruptions and requests that are sent, the loop returns.
pub recv_icmp-returns :
    (pid : ℕ) (es : List Event) (r : Run) (n : ℕ)
    → 0 < r.self.sendnum
    → r.limit ≡ pos n
    → All (IsQuiet r.self.datalen) es
    → n < replies r.self.addr es
    → (s : Run) × (recv_icmp pid es r ≡ done (s, returned))
recv_icmp-returns pid [] r n sent h quiet enough = absurd (omega arith)
recv_icmp-returns pid (interrupted ∷ es) r n sent h quiet enough =
    let (s, e) = recv_icmp-returns pid es r n sent h quiet.1 enough in
    (s, recv_icmp-next pid interrupted es r (again r) (unfold on_event in refl) ∙ e)
recv_icmp-returns pid (recv_error ∷ es) r n sent h quiet enough = absurd quiet.0
recv_icmp-returns pid (sigalrm payload ok ∷ es) r n sent h quiet enough =
    let (accepted, words, all, few) = quiet.0 in
    let q = send_icmp-IsSent pid payload r.self words all few in
    let (s, e) =
      recv_icmp-returns pid es
        (requested (echo_request q.cksum pid (r.self.sendnum + 1) payload r.self.datalen) r) n
        (omega arith) h quiet.1 enough in
    (s, recv_icmp-next pid _ es r _ (on_event-alarm pid payload ok r accepted q) ∙ e)
recv_icmp-returns pid (sigint ∷ es) r n sent h quiet enough = absurd quiet.0
recv_icmp-returns pid (packet src st rt ∷ es) r zero sent h quiet enough =
    elim (Bool-cases (src == r.self.addr)) [
      | inl ours ↦
          let (s, e) = on_reply_last st rt r sent h in
          (s, recv_icmp-next pid _ es r _ (on_event-ours pid src st rt r ours ∙ e))
      | inr other ↦
          let (s, e) = recv_icmp-returns pid es r zero sent h quiet.1 (ground arith) in
          (s, recv_icmp-next pid _ es r _ (on_event-other pid src st rt r other) ∙ e)
    ]
recv_icmp-returns pid (packet src st rt ∷ es) r (suc n) sent h quiet enough =
    elim (Bool-cases (src == r.self.addr)) [
      | inl ours ↦
          let left : r.limit -ℤ pos 1 ≡ pos n = rw h (unfold ◌-ℤ◌ in ground arith) in
          let (s, e) =
            recv_icmp-returns pid es (counted st rt r) n sent left quiet.1 (ground arith) in
          (
            s,
            recv_icmp-next pid _ es r _
                  (on_event-ours pid src st rt r ours ∙ on_reply_more st rt r n h)
                ∙ e,
          )
      | inr other ↦
          let (s, e) = recv_icmp-returns pid es r (suc n) sent h quiet.1 (ground arith) in
          (s, recv_icmp-next pid _ es r _ (on_event-other pid src st rt r other) ∙ e)
    ]
