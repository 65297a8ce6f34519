-- ===== src/Ntp/Offset.antt =====
-- What 20181212ntp/ntp.c computes from an answer, and the clock that it sets.
use small_project_for_life_w.Base.{
  ℕ, zero, suc, ◌+◌, ◌-◌, ◌*◌, ◌/◌, ◌%◌, ◌≤◌, ◌≡◌, refl, some, arith, if◌then◌else◌, ℤ, pos, negsuc,
}
use small_project_for_life_w.Base.Int.{
  ◌+ℤ◌, ◌-ℤ◌, pos_part, neg_part, div_ℤ, rem_ℤ, is_negative, int_laws, neg, eq_of_parts,
}
use small_project_for_life_w.Ntp.{
  Timeval, NtpHdr, lfixed2double, micros, get_rrt, get_offset, Setting, correct,
}

-- The answer was asked for at `t` by the client's clock, came to a server whose clock is `theta`
-- ahead, was sent `held` later, and took `delay` each way.
pub record Exchange (ntp : NtpHdr) (recvtv : Timeval) (theta : ℤ) (t delay held : ℕ) : Type 0 where
  pub originate : lfixed2double ntp.ntp_orits ≡ t
  pub receive : pos (lfixed2double ntp.ntp_recvts) ≡ pos (t + delay) +ℤ theta
  pub transmit : pos (lfixed2double ntp.ntp_transts) ≡ pos (t + delay + held) +ℤ theta
  pub receipt : micros recvtv ≡ t + delay + held + delay

-- If both ways take the same time, `get_offset` is how far the server is ahead, and `get_rrt` the
-- time of both ways.
pub get_offset-exact :
    (ntp : NtpHdr) (recvtv : Timeval) (theta : ℤ) (t delay held : ℕ)
    → Exchange ntp recvtv theta t delay held
    → (get_offset ntp recvtv ≡ theta +ℤ theta) × (get_rrt ntp recvtv ≡ pos (delay + delay))
unfolding get_offset get_rrt
get_offset-exact ntp recvtv theta t delay held e =
    rw (e.originate, e.receive, e.transmit, e.receipt) (omega int_laws, omega int_laws)

-- microseconds of a clock that has been set
abbrev pub scaled : ℤ → ℤ
scaled (pos n) = pos (n * 1000000)
scaled (negsuc n) = negsuc (n * 1000000 + 999999)

abbrev pub set_micros : Setting → ℤ
set_micros s = scaled s.set_sec +ℤ pos s.set_usec

doubled :
    (theta : ℤ)
    → theta +ℤ theta ≡ elim theta [ pos n ↦ pos (n + n) | negsuc n ↦ negsuc (n + n + 1) ]
unfolding ◌+ℤ◌
doubled (pos n) = ground arith
doubled (negsuc n) = ground arith

correct-some :
    (tv : Timeval) (d : ℤ) (s : Setting)
    → correct tv d ≡ some s
    → (s.set_sec ≡ pos tv.tv_sec +ℤ div_ℤ d 2000000)
      × (s.set_usec ≡ (if is_negative (rem_ℤ d 2000000) then tv.tv_usec - 1 else tv.tv_usec))
unfolding correct
correct-some tv d s e = ground arith

scaled_parts :
    (a : ℤ)
    → pos_part (scaled a) + neg_part a * 1000000 ≡ neg_part (scaled a) + pos_part a * 1000000
scaled_parts (pos n) = omega arith
scaled_parts (negsuc n) = omega arith

neg_parts : (k : ℕ) → (pos_part (neg k) ≡ 0) × (neg_part (neg k) ≡ k)
neg_parts zero = (refl, refl)
neg_parts (suc k) = (refl, refl)

usec_rounded : (k u v : ℕ) → v ≡ (if is_negative (neg k) then u - 1 else u) → (v ≤ u) × (u ≤ v + 1)
usec_rounded zero u v e = omega arith
usec_rounded (suc k) u v e = omega arith

-- The clock is set by the whole seconds of the offset alone: what the server is then ahead is the
-- rest of the offset, less than a second, and up to a microsecond more.
pub correct-leftover :
    (tv : Timeval) (theta : ℤ) (s : Setting)
    → correct tv (theta +ℤ theta) ≡ some s
    → ((pos (micros tv) +ℤ theta) -ℤ set_micros s
        ≡ rem_ℤ theta 1000000 +ℤ pos (tv.tv_usec - s.set_usec))
      × (s.set_usec ≤ tv.tv_usec)
      × (tv.tv_usec ≤ s.set_usec + 1)
correct-leftover tv (pos n) s e =
    let (sec, usec) = correct-some tv (pos (n + n)) s (rw (← doubled (pos n)) e) in
    let whole = pos ((n + n) / 2000000) in
    (
      eq_of_parts _ _ (rw sec (omega (int_laws, scaled_parts (pos tv.tv_sec +ℤ whole)))),
      omega (arith, usec),
      omega (arith, usec),
    )
correct-leftover tv (negsuc n) s e =
    let (sec, usec) = correct-some tv (negsuc (n + n + 1)) s (rw (← doubled (negsuc n)) e) in
    let whole = neg (suc (n + n + 1) / 2000000) in
    let (below, above) = usec_rounded (suc (n + n + 1) % 2000000) tv.tv_usec s.set_usec usec in
    (
      eq_of_parts _ _ (
          rw sec (
            omega (
              int_laws,
              scaled_parts (pos tv.tv_sec +ℤ whole),
              neg_parts (suc (n + n + 1) / 2000000),
              neg_parts (suc n % 1000000),
            ))),
      below,
      above,
    )
