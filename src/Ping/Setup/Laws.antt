-- ===== src/Ping/Setup/Laws.antt =====
-- What `main` of zping.c sends. It never calls `init_conf`, so the data length stays 0.
use mydns.Prelude.{
  ℕ, ◌≡◌, refl, List, Option, none, some, done, fault, Ensures, Ensures->>=, Ensures-if,
  Ensures-done, ltb, length, ◌+◌,
}
use mydns.Ping.{Pconf}
use mydns.Ping.Receive.{Event, Run, End, recv_icmp}
use mydns.Ping.Receive.Bare.{IsBare, recv_icmp-IsBare}
use mydns.Ping.Setup.{
  init_icmp_signal, Host, Outline, usage, sock_error, ip_error, signal_error, ran, init_icmp_sock,
  init_icmp_ip, by_name, by_address, after_ip, HostEntry, after_sock, start_icmp_ping, main, zeroed,
}

-- The postcondition of `main`.
abbrev Bare : Outline → Type 0
Bare (ran r end) = IsBare r
Bare usage = Unit
Bare sock_error = Unit
Bare ip_error = Unit
Bare signal_error = Unit

after_ip-Bare :
    (host : Host) (tries : List ℕ) (es : List Event) (self : Pconf)
    → self.datalen ≡ 0
    → Ensures Bare (after_ip host tries es (some self))
unfolding after_ip start_icmp_ping
after_ip-Bare host tries es self h =
    Ensures-if Bare (init_icmp_signal host) _ _
      (λ set.
        Ensures->>= _ _ (recv_icmp host.pid es _) _ (recv_icmp-IsBare host.pid es _ (h, tt))
          (λ x bare. bare))
      (λ unset. tt)

abbrev Started : Option Pconf → Type 0
Started none = Unit
Started (some self) = self.datalen ≡ 0

by_name-Started :
    (entry : HostEntry) (self : Pconf) → self.datalen ≡ 0 → Started (by_name entry self)
unfolding by_name
by_name-Started none self h = tt
by_name-Started (some none) self h = h
by_name-Started (some (some (addr, text))) self h = h

by_address-Started :
    (host : Host) (name : List ℕ) (self : Pconf) (found : Option ℕ)
    → self.datalen ≡ 0
    → Ensures Started (by_address host name self found)
unfolding by_address
by_address-Started host name self none h = by_name-Started (host.gethostbyname name) _ h
by_address-Started host name self (some addr) h =
    Ensures-if Started (ltb 128 (length name + 1)) fault
      (done (some (record self { addr = addr; ipaddr = name }))) (λ long. tt) (λ fits. h)

after_ip-Started :
    (host : Host) (tries : List ℕ) (es : List Event) (started : Option Pconf)
    → Started started
    → Ensures Bare (after_ip host tries es started)
after_ip-Started host tries es none h = unfold after_ip in tt
after_ip-Started host tries es (some self) h = after_ip-Bare host tries es self h

after_sock-Bare :
    (host : Host) (name tries : List ℕ) (es : List Event) (self : Pconf) (fd : Option ℕ)
    → self.datalen ≡ 0
    → Ensures Bare (after_sock host name tries es (self, fd))
unfolding after_sock init_icmp_ip
after_sock-Bare host name tries es self none h = tt
after_sock-Bare host name tries es self (some fd) h =
    Ensures->>= Started Bare (by_address host name self (host.inet_pton name)) _
      (by_address-Started host name self (host.inet_pton name) h) (after_ip-Started host tries es)

-- When `main` comes to its loop, every request that it sends has the 8 bytes of the header and no
-- data, whatever the arguments and the events.
pub main-IsBare :
    (host : Host) (name tries : List ℕ) (es : List Event) {r : Run} {end : End}
    → main host (some (name, tries)) es ≡ done (ran r end)
    → IsBare r
unfolding main init_icmp_sock
main-IsBare host name tries es h =
    Ensures-done Bare (main host (some (name, tries)) es)
      (after_sock-Bare host name tries es (record zeroed { sockfd = host.socket }) host.socket refl)
      h
