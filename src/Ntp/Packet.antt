-- ===== src/Ntp/Packet.antt =====
-- The request of 20181212ntp/ntp.c as bytes, and the times that it carries.
use small_project_for_life_w.Base.{
  ℕ, zero, suc, ◌∙◌, false, ◌+◌, ◌-◌, ◌*◌, ◌/◌, ◌%◌, ◌^◌, ◌≤◌, ◌<◌, ◌≡◌, refl, ap, some, ◌++◌,
  arith, drop, replicate, ◌==◌, if◌then◌else◌, ltb, pos,
}
use small_project_for_life_w.Ntp.{
  Bytes, Fixed, NtpHdr, Timeval, jan_1970, htonl, to_bytes, of_bytes, usec2frac, frac2usec, request,
  get_ntp_packet, lfixed2double,
}

pub ntohl-htonl : (w : ℕ) → w < 2 ^ 32 → htonl (htonl w) ≡ w
unfolding htonl
ntohl-htonl w h = omega arith

-- A number of microseconds comes back from its binary fraction, or one less, if the fraction is
-- inexact.
pub usec_roundtrip :
    (u : ℕ) → u < 1000000 → frac2usec (usec2frac u) ≡ (if u % 15625 == 0 then u else u - 1)
unfolding frac2usec usec2frac
usec_roundtrip u h = ground arith

word16 : (w : ℕ) → w < 2 ^ 16 → w % 256 + w / 256 % 256 * 256 ≡ w
word16 w h = omega arith

word32 :
    (w : ℕ)
    → w < 2 ^ 32
    → w % 256 + w / 2 ^ 8 % 256 * 2 ^ 8 + w / 2 ^ 16 % 256 * 2 ^ 16 + w / 2 ^ 24 % 256 * 2 ^ 24 ≡ w
word32 w h = omega arith

byte : (w : ℕ) → w < 256 → w % 256 ≡ w
byte w h = omega arith

bits :
    (m v l : ℕ)
    → m < 8
    → v < 8
    → l < 4
    → let b = m % 8 + v % 8 * 8 + l % 4 * 64 in (b / 64 % 4 ≡ l) × (b / 8 % 8 ≡ v) × (b % 8 ≡ m)
bits m v l hm hv hl = omega arith

abbrev pub InRange : Fixed → ℕ → Type 0
InRange f n = (f.intpart < n) × (f.fracpart < n)

-- the fields fit their widths
pub record Fits (h : NtpHdr) : Type 0 where
  pub li : h.ntp_li < 4
  pub vn : h.ntp_vn < 8
  pub mode : h.ntp_mode < 8
  pub stratum : h.ntp_stratum < 256
  pub poll : h.ntp_poll < 256
  pub precision : h.ntp_precision < 256
  pub rtdelay : InRange h.ntp_rtdelay (2 ^ 16)
  pub rtdispersion : InRange h.ntp_rtdispersion (2 ^ 16)
  pub refid : h.ntp_refid < 2 ^ 32
  pub refts : InRange h.ntp_refts (2 ^ 32)
  pub orits : InRange h.ntp_orits (2 ^ 32)
  pub recvts : InRange h.ntp_recvts (2 ^ 32)
  pub transts : InRange h.ntp_transts (2 ^ 32)

-- A header whose fields fit is read back from its bytes, whatever follows them.
pub of_bytes-to_bytes : (h : NtpHdr) (rest : Bytes) → Fits h → of_bytes (to_bytes h ++ rest) ≡ h
unfolding of_bytes to_bytes
of_bytes-to_bytes h rest f =
    let (l, v, m) = bits h.ntp_mode h.ntp_vn h.ntp_li f.mode f.vn f.li in
    rw (
      l,
      v,
      m,
      byte h.ntp_stratum f.stratum,
      byte h.ntp_poll f.poll,
      byte h.ntp_precision f.precision,
      word16 h.ntp_rtdelay.intpart f.rtdelay.0,
      word16 h.ntp_rtdelay.fracpart f.rtdelay.1,
      word16 h.ntp_rtdispersion.intpart f.rtdispersion.0,
      word16 h.ntp_rtdispersion.fracpart f.rtdispersion.1,
      word32 h.ntp_refid f.refid,
      word32 h.ntp_refts.intpart f.refts.0,
      word32 h.ntp_refts.fracpart f.refts.1,
      word32 h.ntp_orits.intpart f.orits.0,
      word32 h.ntp_orits.fracpart f.orits.1,
      word32 h.ntp_recvts.intpart f.recvts.0,
      word32 h.ntp_recvts.fracpart f.recvts.1,
      word32 h.ntp_transts.intpart f.transts.0,
      word32 h.ntp_transts.fracpart f.transts.1,
    )

htonl-lt : (w : ℕ) → htonl w < 2 ^ 32
unfolding htonl
htonl-lt w = omega arith

usec2frac-lt : (u : ℕ) → usec2frac u < 2 ^ 32
unfolding usec2frac
usec2frac-lt u = omega arith

request-Fits : (tv : Timeval) → Fits (request tv)
unfolding request
request-Fits tv = record {
  li = omega arith;
  vn = omega arith;
  mode = omega arith;
  stratum = omega arith;
  poll = omega arith;
  precision = omega arith;
  rtdelay = omega arith;
  rtdispersion = omega arith;
  refid = omega arith;
  refts = omega arith;
  orits = omega arith;
  recvts = omega arith;
  transts = (htonl-lt ((tv.tv_sec + jan_1970) % 2 ^ 32), htonl-lt (usec2frac tv.tv_usec));
}

-- The transmit time of a request is the time of day, of which the seconds are kept modulo 2 ^ 32
-- and the microseconds up to one.
pub request-transts :
    (tv : Timeval)
    → tv.tv_usec < 1000000
    → lfixed2double (request tv).ntp_transts
      ≡ tv.tv_sec % 2 ^ 32 * 1000000
        + (if tv.tv_usec % 15625 == 0 then tv.tv_usec else tv.tv_usec - 1)
unfolding request lfixed2double
request-transts tv h =
    let seconds : ((tv.tv_sec + jan_1970) % 2 ^ 32 + 2 ^ 32 - jan_1970) % 2 ^ 32
        ≡ tv.tv_sec % 2 ^ 32 =
      omega arith in
    rw (
      ntohl-htonl ((tv.tv_sec + jan_1970) % 2 ^ 32) (omega arith),
      ntohl-htonl (usec2frac tv.tv_usec) (usec2frac-lt tv.tv_usec),
      usec_roundtrip tv.tv_usec h,
      seconds,
    )

drop-to_bytes : (h : NtpHdr) (rest : Bytes) → drop 48 (to_bytes h ++ rest) ≡ rest
unfolding to_bytes
drop-to_bytes h rest = refl

drop-replicate :
    (n m : ℕ) (rest : Bytes) → n ≤ m → drop n (replicate m 0 ++ rest) ≡ replicate (m - n) 0 ++ rest
drop-replicate zero m rest h = ap (λ k. replicate k 0 ++ rest) (omega arith)
drop-replicate (suc n) zero rest h = absurd (omega arith)
drop-replicate (suc n) (suc m) rest h =
    drop-replicate n m rest (omega arith) ∙ ap (λ k. replicate k 0 ++ rest) (omega arith)

-- With room for a header, and a time of day of less than a million microseconds, `get_ntp_packet`
-- returns 0, sets the size to 48, and writes a header that
-- reads back as the request, with the time of day as its transmit time, of which the seconds are
-- kept modulo 2 ^ 32 and the microseconds up to one; behind the header the buffer is cleared up to
-- the old size and then as it was.
pub get_ntp_packet-request :
    (buf : Bytes) (size : ℕ) (tv : Timeval)
    → 48 ≤ size
    → tv.tv_usec < 1000000
    → let (ret, buf', size') = get_ntp_packet buf (some size) tv in
      (ret ≡ pos 0)
      × (size' ≡ some 48)
      × (of_bytes buf' ≡ request tv)
      × (lfixed2double (of_bytes buf').ntp_transts
          ≡ tv.tv_sec % 2 ^ 32 * 1000000
            + (if tv.tv_usec % 15625 == 0 then tv.tv_usec else tv.tv_usec - 1))
      × (drop 48 buf' ≡ replicate (size - 48) 0 ++ drop size buf)
unfolding get_ntp_packet
get_ntp_packet-request buf size tv room h =
    let behind = drop 48 (replicate size 0 ++ drop size buf) in
    let big : ltb size 48 ≡ false = ground arith in
    let same = of_bytes-to_bytes (request tv) behind (request-Fits tv) in
    rw big (
      refl,
      refl,
      same,
      ap (λ (h : NtpHdr). lfixed2double h.ntp_transts) same ∙ request-transts tv h,
      drop-to_bytes (request tv) behind ∙ drop-replicate 48 size (drop size buf) room,
    )
