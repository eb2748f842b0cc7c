-- ===== src/Ping/Setup.antt =====
-- `init_conf`, `init_icmp_sock`, `init_icmp_ip`, `start_icmp_ping` and `main` of zping.c.
pub mod Laws
use mydns.Prelude.{
  ℕ, suc, ◌+◌, ◌<◌, ◌≡◌, refl, List, [], Option, none, some, Bool, true, false, ltb, if◌then◌else◌,
  ℤ, length, Outcome, done, fault, ◌>>=◌, pos,
}
use mydns.Ping.{Pconf}
use mydns.Ping.Receive.{Event, Run, End, recv_icmp}

abbrev pub default_datalen : ℕ
default_datalen = 56

-- The static variable `self` before `main` runs.
abbrev pub zeroed : Pconf
zeroed = record { sockfd = some 0; ipaddr = []; sendnum = 0; recvnum = 0; datalen = 0; addr = 0 }

-- `init_conf`; `none` is the descriptor -1. Nothing calls it.
pub init_conf : Pconf → Pconf
init_conf self = record zeroed { datalen = default_datalen; sockfd = none }

-- What `gethostbyname` found: `none` is a null pointer, and the address list may be empty. An
-- address comes with its text by `inet_ntop`.
abbrev pub HostEntry : Type 0
HostEntry = Option (Option (ℕ × List ℕ))

-- The two signals that get a handler: `send_icmp_ping_handler` for the first and
-- `catch_sigint_handler` for the second.
pub data Signal : Type 0 where
  sigalrm sigint : Signal

-- The calls that `main` makes of the system: `inet_pton` (`none` when the text is no address),
-- `gethostbyname`, `socket`, `sigaction` (whether it succeeds for a signal) and `atoi`.
pub record Host : Type 0 where
  pub inet_pton : List ℕ → Option ℕ
  pub gethostbyname : List ℕ → HostEntry
  pub socket : Option ℕ
  pub sigaction : Signal → Bool
  pub atoi : List ℕ → ℤ
  pub pid : ℕ

-- `init_icmp_signal`: whether both handlers are set; `false` is -1.
unfoldable pub init_icmp_signal : Host → Bool
init_icmp_signal host = if host.sigaction sigalrm then host.sigaction sigint else false

-- `init_icmp_sock`; `none` is -1.
unfoldable pub init_icmp_sock : Host → Pconf → Pconf × Option ℕ
init_icmp_sock host self = (record self { sockfd = host.socket }, host.socket)

unfoldable pub by_name : HostEntry → Pconf → Option Pconf
by_name none self = none
by_name (some none) self = some self
by_name (some (some (addr, text))) self = some (record self { addr = addr; ipaddr = text })

unfoldable pub by_address : Host → List ℕ → Pconf → Option ℕ → Outcome (Option Pconf)
by_address host input self none =
    done (by_name (host.gethostbyname input) (record self { addr = 0 }))
by_address host input self (some addr) =
    if ltb 128 (length input + 1)
    then fault
    else done (some (record self { addr = addr; ipaddr = input }))

-- `init_icmp_ip`; `none` is -1. `ipaddr` has 128 bytes.
unfoldable pub init_icmp_ip : Host → List ℕ → Pconf → Outcome (Option Pconf)
init_icmp_ip host input self = by_address host input self (host.inet_pton input)

-- How `main` ends: a usage or start-up error, or what `recv_icmp` gives.
pub data Outline : Type 0 where
  usage : Outline
  sock_error : Outline
  ip_error : Outline
  signal_error : Outline
  ran : Run → End → Outline

-- `start_icmp_ping`: `alarm(1)`, whose first `SIGALRM` is one of the events, and the loop.
unfoldable pub start_icmp_ping : Host → ℤ → List Event → Pconf → Outcome (Run × End)
start_icmp_ping host limit es self =
    recv_icmp host.pid es (record { self = self; limit = limit; out = [] })

unfoldable pub after_ip : Host → List ℕ → List Event → Option Pconf → Outcome Outline
after_ip host tries es none = done ip_error
after_ip host tries es (some self) =
    if init_icmp_signal host
    then (do (r, end) ← start_icmp_ping host (host.atoi tries) es self; done (ran r end))
    else done signal_error

unfoldable pub after_sock : Host → List ℕ → List ℕ → List Event → Pconf × Option ℕ → Outcome Outline
after_sock host name tries es (self, none) = done sock_error
after_sock host name tries es (self, some fd) = do
  started ← init_icmp_ip host name self
  after_ip host tries es started

-- `main`, from the arguments behind the program's name.
unfoldable pub main : Host → Option (List ℕ × List ℕ) → List Event → Outcome Outline
unfolding after_sock after_ip init_icmp_sock init_icmp_ip by_address by_name start_icmp_ping
main host none es = done usage
main host (some (name, tries)) es = after_sock host name tries es (init_icmp_sock host zeroed)
