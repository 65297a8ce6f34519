-- ===== src/Ntp.antt =====
-- The client of 20181212ntp/ntp.c: packets, times and `main`. The host is little-endian, where the
-- bit-fields of `struct ntphdr` fill its first byte from `ntp_mode` up. A `double` that holds a
-- time is its number of microseconds, and the halved offset is kept before the halving; the
-- rounding of doubles is far below a microsecond.
pub mod Packet
pub mod Offset
pub mod Failure
mod Samples
use small_project_for_life_w.Base.{
  ℕ, zero, suc, ◌+◌, ◌-◌, ◌*◌, ◌/◌, ◌%◌, ◌^◌, Bool, true, false, ◌||◌, Option, none, some, List, [],
  ◌∷◌, ◌++◌, get_or, take, drop, replicate, ◌==◌, if◌then◌else◌, ltb, ℤ, pos, negsuc,
}
use small_project_for_life_w.Base.Int.{◌+ℤ◌, ◌-ℤ◌, div_ℤ, rem_ℤ, is_negative}

abbrev pub Bytes : Type 0
Bytes = List ℕ

pub record Fixed : Type 0 where
  pub intpart : ℕ
  pub fracpart : ℕ

-- `struct ntphdr`, each field the number that the host reads
pub record NtpHdr : Type 0 where
  pub ntp_li : ℕ
  pub ntp_vn : ℕ
  pub ntp_mode : ℕ
  pub ntp_stratum : ℕ
  pub ntp_poll : ℕ
  pub ntp_precision : ℕ
  pub ntp_rtdelay : Fixed
  pub ntp_rtdispersion : Fixed
  pub ntp_refid : ℕ
  pub ntp_refts : Fixed
  pub ntp_orits : Fixed
  pub ntp_recvts : Fixed
  pub ntp_transts : Fixed

abbrev pub version_3 : ℕ
version_3 = 3

abbrev pub mode_client : ℕ
mode_client = 3

abbrev pub ntp_hlen : ℕ
ntp_hlen = 48

abbrev pub bufsize : ℕ
bufsize = 1500

abbrev pub jan_1970 : ℕ
jan_1970 = 0x83aa7e80

-- `htonl` and `ntohl` on this host: the four bytes in the other order
pub htonl : ℕ → ℕ
htonl w = w % 256 * 2 ^ 24 + w / 2 ^ 8 % 256 * 2 ^ 16 + w / 2 ^ 16 % 256 * 2 ^ 8 + w / 2 ^ 24 % 256

-- a number of the host in memory
abbrev pub store16 : ℕ → Bytes
store16 w = w % 256 ∷ w / 256 % 256 ∷ []

abbrev pub store32 : ℕ → Bytes
store32 w = w % 256 ∷ w / 2 ^ 8 % 256 ∷ w / 2 ^ 16 % 256 ∷ w / 2 ^ 24 % 256 ∷ []

abbrev pub load16 : Bytes → ℕ → ℕ
load16 b i = get_or b i 0 + get_or b (i + 1) 0 * 256

abbrev pub load32 : Bytes → ℕ → ℕ
load32 b i =
    get_or b i 0
    + get_or b (i + 1) 0 * 2 ^ 8
    + get_or b (i + 2) 0 * 2 ^ 16
    + get_or b (i + 3) 0 * 2 ^ 24

abbrev pub store_short : Fixed → Bytes
store_short f = store16 f.intpart ++ store16 f.fracpart

abbrev pub store_long : Fixed → Bytes
store_long f = store32 f.intpart ++ store32 f.fracpart

abbrev pub load_short : Bytes → ℕ → Fixed
load_short b i = record { intpart = load16 b i; fracpart = load16 b (i + 2) }

abbrev pub load_long : Bytes → ℕ → Fixed
load_long b i = record { intpart = load32 b i; fracpart = load32 b (i + 4) }

-- the header in memory
pub to_bytes : NtpHdr → Bytes
to_bytes h =
    (h.ntp_mode % 8 + h.ntp_vn % 8 * 8 + h.ntp_li % 4 * 64)
    ∷ h.ntp_stratum % 256
    ∷ h.ntp_poll % 256
    ∷ h.ntp_precision % 256
    ∷ (store_short h.ntp_rtdelay
        ++ (store_short h.ntp_rtdispersion
            ++ (store32 h.ntp_refid
                ++ (store_long h.ntp_refts
                    ++ (store_long h.ntp_orits
                        ++ (store_long h.ntp_recvts ++ store_long h.ntp_transts))))))

-- `(struct ntphdr *) buf`
pub of_bytes : Bytes → NtpHdr
of_bytes b = record {
  ntp_li = get_or b 0 0 / 64 % 4;
  ntp_vn = get_or b 0 0 / 8 % 8;
  ntp_mode = get_or b 0 0 % 8;
  ntp_stratum = get_or b 1 0;
  ntp_poll = get_or b 2 0;
  ntp_precision = get_or b 3 0;
  ntp_rtdelay = load_short b 4;
  ntp_rtdispersion = load_short b 8;
  ntp_refid = load32 b 12;
  ntp_refts = load_long b 16;
  ntp_orits = load_long b 24;
  ntp_recvts = load_long b 32;
  ntp_transts = load_long b 40;
}

-- `struct timeval` as `gettimeofday` fills it
pub record Timeval : Type 0 where
  pub tv_sec : ℕ
  pub tv_usec : ℕ

-- USEC2FRAC and FRAC2USEC
pub usec2frac : ℕ → ℕ
usec2frac x = x * 2 ^ 32 / 1000000 % 2 ^ 32

pub frac2usec : ℕ → ℕ
frac2usec x = x * 1000000 / 2 ^ 32 % 2 ^ 32

abbrev zero_fixed : Fixed
zero_fixed = record { intpart = 0; fracpart = 0 }

-- the request: all that is not set is 0, and the precision is -6
pub request : Timeval → NtpHdr
unfolding htonl usec2frac
request tv = record {
  ntp_li = 0;
  ntp_vn = version_3;
  ntp_mode = mode_client;
  ntp_stratum = 0;
  ntp_poll = 4;
  ntp_precision = 250;
  ntp_rtdelay = zero_fixed;
  ntp_rtdispersion = zero_fixed;
  ntp_refid = 0;
  ntp_refts = zero_fixed;
  ntp_orits = zero_fixed;
  ntp_recvts = zero_fixed;
  ntp_transts = record {
    intpart = htonl ((tv.tv_sec + jan_1970) % 2 ^ 32);
    fracpart = htonl (usec2frac tv.tv_usec);
  };
}

-- The result, the buffer and `*size`; a NULL `size` is `none`.
pub get_ntp_packet : Bytes → Option ℕ → Timeval → ℤ × Bytes × Option ℕ
unfolding request to_bytes
get_ntp_packet buf none tv = (negsuc 0, buf, none)
get_ntp_packet buf (some size) tv =
    if ltb size ntp_hlen
    then (negsuc 0, buf, some size)
    else let cleared = replicate size 0 ++ drop size buf in
      (pos 0, to_bytes (request tv) ++ drop ntp_hlen cleared, some ntp_hlen)

-- NTP_LFIXED2DOUBLE: the subtraction is one of 32 bits without a sign.
pub lfixed2double : Fixed → ℕ
unfolding htonl frac2usec
lfixed2double f =
    (htonl f.intpart + 2 ^ 32 - jan_1970) % 2 ^ 32 * 1000000 + frac2usec (htonl f.fracpart)

abbrev pub micros : Timeval → ℕ
micros tv = tv.tv_sec * 1000000 + tv.tv_usec

pub get_rrt : NtpHdr → Timeval → ℤ
unfolding lfixed2double
get_rrt ntp recvtv =
    let t1 = pos (lfixed2double ntp.ntp_orits) in
    let t2 = pos (lfixed2double ntp.ntp_recvts) in
    let t3 = pos (lfixed2double ntp.ntp_transts) in
    let t4 = pos (micros recvtv) in (t4 -ℤ t1) -ℤ (t3 -ℤ t2)

-- twice the offset
pub get_offset : NtpHdr → Timeval → ℤ
unfolding lfixed2double
get_offset ntp recvtv =
    let t1 = pos (lfixed2double ntp.ntp_orits) in
    let t2 = pos (lfixed2double ntp.ntp_recvts) in
    let t3 = pos (lfixed2double ntp.ntp_transts) in
    let t4 = pos (micros recvtv) in (t2 -ℤ t1) +ℤ (t3 -ℤ t4)

-- the time that `settimeofday` is given
pub record Setting : Type 0 where
  pub set_sec : ℤ
  pub set_usec : ℕ

-- An offset out of the range of `int` has no meaning in C.
abbrev pub fits_int : ℤ → Bool
fits_int (pos n) = ltb n (2 ^ 31)
fits_int (negsuc n) = ltb n (2 ^ 31)

-- `tv.tv_sec += (int) offset; tv.tv_usec += offset - (int) offset;`: what is behind the whole
-- seconds of the offset is less than 1, so that it can only round `tv_usec` down.
pub correct : Timeval → (doubled : ℤ) → Option Setting
correct tv doubled =
    if fits_int (div_ℤ doubled 2000000)
    then some (record {
      set_sec = pos tv.tv_sec +ℤ div_ℤ doubled 2000000;
      set_usec = if is_negative (rem_ℤ doubled 2000000) then tv.tv_usec - 1 else tv.tv_usec;
    })
    else none

-- `inet_host`, with the functions of the system and INADDR_NONE
abbrev pub inaddr_none : ℕ
inaddr_none = 2 ^ 32 - 1

pub inet_host : {H : Type 0} → (inet_addr : H → ℕ) (gethostbyname : H → Option ℕ) → H → ℕ
inet_host inet_addr gethostbyname host =
    if inet_addr host == inaddr_none
    then elim (gethostbyname host) [ none ↦ inaddr_none | some addr ↦ addr ]
    else inet_addr host

-- What the calls of `main` return: `recv` gives the bytes, or -1.
pub record Calls : Type 0 where
  pub socket_opens : Bool
  pub connects : Bool
  pub at_request : Timeval
  pub readable : Bool
  pub received : Option Bytes
  pub at_receipt : Timeval
  pub at_setting : Timeval
  pub sets_time : Bool

pub data Exit : Type 0 where
  socket_error : Exit
  connect_error : Exit
  request_error : Exit
  settimeofday_error : Exit
  no_answer : Exit
  undefined_offset : Exit
  time_set : Setting → Exit

pub overwrite : Bytes → Bytes → Bytes
overwrite [] buf = buf
overwrite (c ∷ got) [] = []
overwrite (c ∷ got) (d ∷ buf) = c ∷ overwrite got buf

-- `recv` writes what it received over the buffer; -1 becomes a `size_t`, which is not below 0.
pub after_recv : Bytes → Option Bytes → Bytes
unfolding overwrite
after_recv buf none = buf
after_recv buf (some got) = overwrite got buf

-- the call of `settimeofday`
pub set_time : Option Setting → Bool → Exit
set_time none sets = undefined_offset
set_time (some s) sets = if sets then time_set s else settimeofday_error

-- behind `recv`
pub set_clock : Bytes → Calls → Exit
set_clock buf c =
    set_time (correct c.at_setting (get_offset (of_bytes buf) c.at_receipt)) c.sets_time

-- `main` with what its buffer holds at first: what it sends, and how it ends
pub ntp_main : Bytes → Calls → Bytes × Exit
unfolding after_recv
ntp_main buf c =
    if c.socket_opens
    then if c.connects
      then (let (ret, buf', size) = get_ntp_packet buf (some bufsize) c.at_request in
          elim ret [
            | negsuc n ↦ ([], request_error)
            | pos n ↦
                let sent : Bytes = elim size [ none ↦ [] | some n ↦ take n buf' ] in
                if c.readable
                then (sent, set_clock (after_recv buf' c.received) c)
                else (sent, no_answer)
          ])
      else ([], connect_error)
    else ([], socket_error)
