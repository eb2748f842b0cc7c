-- ===== src/Ping/Time.antt =====
-- `tv_sub` and the loss figure of zping.c.
use native.Mathlib.Nat.{div_self, div-eq_of_lt, sub-zero}
use mydns.Prelude.{
  ℕ, zero, suc, ◌+◌, ◌-◌, ◌*◌, ◌/◌, ◌%◌, ◌^◌, ◌<◌, ◌≤◌, ◌≡◌, ◌↔◌, ◌⊎◌, arith, leb, ltb, refl,
  negsuc, ◌==◌, if◌then◌else◌, ℤ, pos, pos_part, neg_part, neg_ℕ, ◌-ℤ◌, Outcome, done, fault,
}

-- `struct timeval`, with two members of type `long`.
pub record Timeval : Type 0 where
  pub tv_sec : ℤ
  pub tv_usec : ℤ

-- A value cut to an `int` of 32 bits in two's complement.
unfoldable pub to_int : ℤ → ℤ
to_int (pos n) = let m = n % 2 ^ 32 in if ltb m (2 ^ 31) then pos m else negsuc (2 ^ 32 - 1 - m)
to_int (negsuc n) = let m = n % 2 ^ 32 in if ltb m (2 ^ 31) then negsuc m else pos (2 ^ 32 - 1 - m)

-- `if (usec >= 0)` and its branches.
unfoldable pub sub_cut : ℤ → ℤ → Timeval
sub_cut sec (pos n) = record { tv_sec = sec; tv_usec = pos n }
sub_cut sec (negsuc n) = record { tv_sec = to_int (sec -ℤ pos 1); tv_usec = to_int (pos (suc n)) }

-- The new `*recvtime`. Both differences are cut to an `int`, and an `int` that overflows wraps.
unfoldable pub tv_sub : Timeval → Timeval → Timeval
tv_sub recvtime sendtime =
    sub_cut (to_int (recvtime.tv_sec -ℤ sendtime.tv_sec))
      (to_int (recvtime.tv_usec -ℤ sendtime.tv_usec))

-- Between -2 ^ 31 and 2 ^ 31, both excluded.
abbrev pub FitsInt : ℤ → Type 0
FitsInt z = (pos_part z < 2 ^ 31) × (neg_part z < 2 ^ 31)

-- `t` is `sec` seconds and `usec` microseconds; the negative parts are moved to the other side.
abbrev pub IsElapsed : Timeval → ℤ → ℤ → Type 0
IsElapsed t sec usec =
    pos_part t.tv_sec * 1_000_000 + pos_part t.tv_usec + neg_part sec * 1_000_000 + neg_part usec
    ≡ pos_part sec * 1_000_000 + pos_part usec + neg_part t.tv_sec * 1_000_000 + neg_part t.tv_usec

to_int-FitsInt : (z : ℤ) → FitsInt z → to_int z ≡ z
unfolding to_int
to_int-FitsInt (pos n) h = ground (arith, h)
to_int-FitsInt (negsuc n) h = ground (arith, h)

to_int-pred : (z : ℤ) → FitsInt z → to_int (z -ℤ pos 1) ≡ z -ℤ pos 1
unfolding to_int ◌-ℤ◌
to_int-pred (pos zero) h = refl
to_int-pred (pos (suc n)) h = ground (arith, h)
to_int-pred (negsuc n) h = ground (arith, h)

borrow_lem :
    (sec : ℤ) (n : ℕ)
    → IsElapsed (record { tv_sec = sec -ℤ pos 1; tv_usec = pos (suc n) }) sec (negsuc n)
      ↔ ((suc n ≡ 0) ⊎ (suc n ≡ 500_000))
unfolding ◌-ℤ◌
borrow_lem (pos zero) n = ground arith
borrow_lem (pos (suc m)) n = ground arith
borrow_lem (negsuc m) n = ground arith

sub_cut_iff :
    (sec usec : ℤ)
    → FitsInt sec
    → FitsInt usec
    → IsElapsed (sub_cut sec usec) sec usec ↔ ((neg_part usec ≡ 0) ⊎ (neg_part usec ≡ 500_000))
unfolding sub_cut
sub_cut_iff sec (pos n) h k = ground arith
sub_cut_iff sec (negsuc n) h k =
    rw (to_int-pred sec h, to_int-FitsInt (pos (suc n)) (k.1, omega arith)) (borrow_lem sec n)

-- `(int) ((float) (sendnum - recvnum) / sendnum) * 100`: the cast binds tighter than the product.
-- The quotient of numbers below 2 ^ 24 is cut at the point towards 0; a division by 0 has no
-- value that fits an `int`.
unfoldable pub lost_percent : ℕ → ℕ → Outcome ℤ
lost_percent sendnum recvnum =
    if sendnum == 0
    then fault
    else if leb recvnum sendnum
    then done (pos ((sendnum - recvnum) / sendnum * 100))
    else done (neg_ℕ ((recvnum - sendnum) / sendnum * 100))

-- Of a positive number of requests sent, the figure is 100 when no reply came, and 0 when one or
-- more came and none too many, whatever the share that was lost.
pub lost_percent_lem :
    (sendnum recvnum : ℕ)
    → 0 < sendnum
    → recvnum ≤ sendnum
    → lost_percent sendnum recvnum ≡ done (if recvnum == 0 then pos 100 else pos 0)
unfolding lost_percent
lost_percent_lem sendnum zero h few =
    let all : (sendnum - 0) / sendnum ≡ 1 = rw sub-zero (div_self h) in ground (arith, all)
lost_percent_lem sendnum (suc r) h few =
    let part : (sendnum - suc r) / sendnum ≡ 0 = div-eq_of_lt (omega arith) in ground (arith, part)

-- When the differences of the seconds and of the microseconds lie between -2 ^ 31 and 2 ^ 31, both
-- excluded, the result is the time between the two exactly when the microseconds need no borrow, or
-- differ by half a second: on a borrow a second is taken off, and not added to the microseconds.
pub tv_sub_iff :
    (r s : Timeval)
    → FitsInt (r.tv_sec -ℤ s.tv_sec)
    → FitsInt (r.tv_usec -ℤ s.tv_usec)
    → IsElapsed (tv_sub r s) (r.tv_sec -ℤ s.tv_sec) (r.tv_usec -ℤ s.tv_usec)
      ↔ ((neg_part (r.tv_usec -ℤ s.tv_usec) ≡ 0) ⊎ (neg_part (r.tv_usec -ℤ s.tv_usec) ≡ 500_000))
unfolding tv_sub
tv_sub_iff r s h k =
    rw (to_int-FitsInt (r.tv_sec -ℤ s.tv_sec) h, to_int-FitsInt (r.tv_usec -ℤ s.tv_usec) k)
      (sub_cut_iff (r.tv_sec -ℤ s.tv_sec) (r.tv_usec -ℤ s.tv_usec) h k)
