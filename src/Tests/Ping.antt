-- ===== src/Tests/Ping.antt =====
-- A ping at concrete inputs, for zping.c.
use mydns.Prelude.{◌⊎◌, All}
use mydns.Ping.Time.{tv_sub_iff}
use mydns.Prelude.{
  ℕ, ◌-◌, ◌^◌, ◌<◌, ◌≡◌, ◌↔◌, refl, List, [], ◌∷◌, ◌++◌, arith, done, pos, negsuc, neg_part, ◌-ℤ◌,
  some, none, true,
}
use mydns.Ping.{Pconf}
use mydns.Ping.Checksum.{check_sum, sum_words, fold}
use mydns.Ping.Checksum.Laws.{IsFolded, sum, check_sum-IsFolded, check_sum_verifies}
use mydns.Ping.Time.{Timeval, tv_sub, IsElapsed}
use mydns.Ping.Send.{icmp_words, send_icmp, IsSent, send_icmp-IsSent}
use mydns.Ping.Receive.{
  on_event, sigalrm, request, Run, Event, packet, recv_icmp, returned, waiting,
}
use mydns.Ping.Receive.Order.{IsInOrder, recv_icmp-IsInOrder}
use mydns.Ping.Receive.Progress.{IsQuiet, recv_icmp-returns}
use mydns.Ping.Receive.Bare.{IsBare}
use mydns.Ping.Setup.{
  init_icmp_signal, Host, zeroed, main, ran, after_sock, after_ip, init_icmp_sock, init_icmp_ip,
  by_address, start_icmp_ping,
}
use mydns.Ping.Setup.Laws.{main-IsBare}

abbrev words : List ℕ
words = 8 ∷ 0 ∷ 7 ∷ 1 ∷ []

check_sum-IsFolded_example :
    (m : ℕ) × (check_sum (words ++ 65535 ∷ []) 8 ≡ done (65535 - m)) × IsFolded (sum words) m
check_sum-IsFolded_example =
    check_sum-IsFolded words (65535 ∷ []) 8 refl (omega arith)
      (omega arith, (omega arith, (omega arith, (omega arith, tt))))

runs : check_sum (8 ∷ 0 ∷ 7 ∷ 1 ∷ []) 8 ≡ done 65519
unfolding check_sum sum_words fold
runs = refl

check_sum_verifies_example : (65519 < 2 ^ 16) × (check_sum (8 ∷ 65519 ∷ 7 ∷ 1 ∷ []) 8 ≡ done 0)
check_sum_verifies_example =
    check_sum_verifies (8 ∷ []) (7 ∷ 1 ∷ []) [] 8 65519 refl (omega arith) (omega arith, tt)
      (omega arith, (omega arith, tt)) runs

abbrev early : Timeval
early = record { tv_sec = pos 5; tv_usec = pos 100 }

abbrev late : Timeval
late = record { tv_sec = pos 6; tv_usec = pos 300 }

abbrev carried : Timeval
carried = record { tv_sec = pos 7; tv_usec = pos 0 }

abbrev conf : Pconf
conf = record zeroed { datalen = 4; sendnum = 1; addr = 9 }

send_icmp-IsSent_example : IsSent 7 (1 ∷ 2 ∷ []) conf (send_icmp 7 (1 ∷ 2 ∷ []) conf)
send_icmp-IsSent_example =
    send_icmp-IsSent 7 (1 ∷ 2 ∷ []) conf (omega arith, (omega arith, tt)) (omega arith)
      (omega arith)

abbrev events : List Event
events =
    packet 9 early late ∷ sigalrm (1 ∷ 2 ∷ []) true ∷ packet 8 early late ∷ packet 9 early late ∷ []

events-IsQuiet : All (IsQuiet 4) events
events-IsQuiet =
    (tt, ((refl, (omega arith, (omega arith, tt)), omega arith, omega arith), (tt, (tt, tt))))

abbrev started : Run
started = record { self = conf; limit = pos 1; out = [] }

recv_icmp-returns_example : (s : Run) × (recv_icmp 7 events started ≡ done (s, returned))
recv_icmp-returns_example =
    recv_icmp-returns 7 events started 1 (omega arith) refl events-IsQuiet (omega arith)

abbrev fresh : Run
fresh = record { self = record conf { sendnum = 0 }; limit = pos 1; out = [] }

abbrev after_one : Run
after_one = record {
  self = record conf { sendnum = 1 };
  limit = pos 1;
  out = request (record { words = 8 ∷ 65516 ∷ 7 ∷ 1 ∷ 1 ∷ 2 ∷ []; len = 12 }) ∷ [];
}

sends_one : recv_icmp 7 (sigalrm (1 ∷ 2 ∷ []) true ∷ []) fresh ≡ done (after_one, waiting)
unfolding recv_icmp on_event send_icmp icmp_words check_sum sum_words fold
sends_one = refl

recv_icmp-IsInOrder_example : IsInOrder after_one waiting
recv_icmp-IsInOrder_example =
    recv_icmp-IsInOrder 7 (sigalrm (1 ∷ 2 ∷ []) true ∷ []) fresh refl refl sends_one

abbrev host : Host
host = record {
  inet_pton = λ text. some 9;
  gethostbyname = λ name. none;
  socket = some 3;
  sigaction = λ signal. true;
  atoi = λ text. pos 0;
  pid = 7;
}

abbrev last : Run
last = record {
  self = record zeroed { sockfd = some 3; addr = 9; ipaddr = [] };
  limit = pos 0;
  out = [];
}

main_waits : main host (some ([], [])) [] ≡ done (ran last waiting)
unfolding main init_icmp_signal recv_icmp after_sock after_ip init_icmp_sock init_icmp_ip by_address
    start_icmp_ping
main_waits = refl

main-IsBare_example : IsBare last
main-IsBare_example = main-IsBare host [] [] [] main_waits

tv_sub_iff_example :
    IsElapsed (tv_sub carried late) (pos 1) (negsuc 299)
    ↔ ((neg_part (negsuc 299) ≡ 0) ⊎ (neg_part (negsuc 299) ≡ 500_000))
unfolding ◌-ℤ◌
tv_sub_iff_example = tv_sub_iff carried late (omega arith, omega arith) (omega arith, omega arith)
