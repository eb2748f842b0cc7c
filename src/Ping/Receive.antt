-- ===== src/Ping/Receive.antt =====
-- `recv_icmp` of zping.c and the two signal handlers: the program's life after its start, as a
-- run over the events that the system delivers.
pub mod Laws
pub mod Progress
pub mod Bare
pub mod Order
use mydns.Prelude.{
  ℕ, suc, ◌+◌, ◌-◌, ◌≡◌, List, [], ◌∷◌, ◌++◌, ◌==◌, if◌then◌else◌, ℤ, pos, negsuc, ◌-ℤ◌, Outcome,
  done, fault, no_fuel, ◌>>=◌, Bool, true, false, sub_ℕ, leb,
}
use mydns.Ping.{Pconf}
use mydns.Ping.Time.{Timeval, tv_sub, lost_percent}
use mydns.Ping.Send.{Request, send_icmp}

-- `recvfrom` returns: a packet (its source address, the time sent that it carries, the time now),
-- `EINTR`, or another error. A signal interrupts the call, whose handler then runs: `SIGALRM` with
-- the words of `sendbuf` behind the header and whether `sendto` succeeds, or `SIGINT`.
pub data Event : Type 0 where
  packet : ℕ → Timeval → Timeval → Event
  interrupted : Event
  recv_error : Event
  sigalrm : List ℕ → Bool → Event
  sigint : Event

-- What the program printed and sent.
pub data Output : Type 0 where
  reply : Timeval → Output
  request : Request → Output
  statistics : ℕ → ℕ → ℤ → Output

-- How a run ends: `recv_icmp` returns, the process exits with a status, or it waits for events.
pub data End : Type 0 where
  returned : End
  exited : ℤ → End
  waiting : End

pub record Run : Type 0 where
  pub self : Pconf
  pub limit : ℤ
  pub out : List Output

-- `printf("Ping statics: …")`
pub print_statistics : Run → Outcome Run
print_statistics r = do
  lost ← lost_percent r.self.sendnum r.self.recvnum
  done (record r { out = r.out ++ statistics r.self.sendnum r.self.recvnum lost ∷ [] })

-- `limit == 0`
is_zero : ℤ → Bool
is_zero (pos n) = n == 0
is_zero (negsuc n) = false

-- What the loop does next.
pub data Next : Type 0 where
  again : Run → Next
  stop : Run → End → Next

-- `send_icmp_ping_handler`; `alarm(1)` asks for the next `SIGALRM`.
pub on_sigalrm : ℕ → List ℕ → Bool → Run → Outcome Next
on_sigalrm pid payload sent r = do
  (self, req) ← send_icmp pid payload r.self
  done (
      if sent
      then again (record r { self = self; out = r.out ++ request req ∷ [] })
      else stop (record r { self = self }) (exited (negsuc 0)))

-- `catch_sigint_handler`
pub on_sigint : Run → Outcome Next
on_sigint r = do printed ← print_statistics r; done (stop printed (exited (pos 0)))

-- A packet from the address that is pinged: `self.recvnum++`, the line printed, `(limit--) == 0`.
pub on_reply : Timeval → Timeval → Run → Outcome Next
on_reply sendtime recvtime r =
    let counted = record r {
      self = record (r.self) { recvnum = r.self.recvnum + 1 };
      limit = r.limit -ℤ pos 1;
      out = r.out ++ reply (tv_sub recvtime sendtime) ∷ [];
    } in
    if is_zero r.limit
    then (do printed ← print_statistics counted; done (stop printed returned))
    else done (again counted)

-- The body of the loop.
unfoldable pub on_event : ℕ → Event → Run → Outcome Next
unfolding on_reply on_sigint on_sigalrm is_zero print_statistics
on_event pid (packet src sendtime recvtime) r =
    if src == r.self.addr then on_reply sendtime recvtime r else done (again r)
on_event pid interrupted r = done (again r)
on_event pid recv_error r = done (stop r (exited (negsuc 0)))
on_event pid (sigalrm payload sent) r = on_sigalrm pid payload sent r
on_event pid sigint r = on_sigint r

-- The next round of the loop, or its end.
abbrev pub go_on : (Run → Outcome (Run × End)) → Next → Outcome (Run × End)
go_on loop (again s) = loop s
go_on loop (stop s end) = done (s, end)

-- `while (1)`, over the events that come.
unfoldable pub recv_icmp : ℕ → List Event → Run → Outcome (Run × End)
recv_icmp pid [] r = done (r, waiting)
recv_icmp pid (e ∷ es) r = do next ← on_event pid e r; go_on (recv_icmp pid es) next
