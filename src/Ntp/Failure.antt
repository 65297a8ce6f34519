-- ===== src/Ntp/Failure.antt =====
-- How `main` of 20181212ntp/ntp.c goes on when `recv` fails.
use small_project_for_life_w.Base.{
  ◌+◌, ◌-◌, ◌*◌, ◌%◌, ◌^◌, ◌<◌, ◌≡◌, refl, true, none, arith, ◌==◌, if◌then◌else◌, pos,
}
use small_project_for_life_w.Base.Int.{◌-ℤ◌, int_laws}
use small_project_for_life_w.Ntp.{
  Bytes, Timeval, lfixed2double, micros, get_offset, correct, Calls, set_time, request, set_clock,
  ntp_main, bufsize,
}
use small_project_for_life_w.Ntp.Packet.{get_ntp_packet-request, request-transts}

-- The times of a request but the last are all 0, so that the offset is its transmit time less the
-- time of receipt.
get_offset-request :
    (sent recvtv : Timeval)
    → get_offset (request sent) recvtv
      ≡ pos (lfixed2double (request sent).ntp_transts) -ℤ pos (micros recvtv)
unfolding get_offset
get_offset-request sent recvtv =
    let zeros : (request sent).ntp_recvts ≡ (request sent).ntp_orits = unfold request in refl in
    rw zeros (omega int_laws)

-- If `recv` returns -1, `main` does not stop: it takes its own request for the answer, and corrects
-- the clock by half of what the transmit time of the request is behind the receipt.
pub ntp_main-recv_fails :
    (buf : Bytes) (c : Calls)
    → c.socket_opens ≡ true
    → c.connects ≡ true
    → c.readable ≡ true
    → c.received ≡ none
    → c.at_request.tv_usec < 1000000
    → (ntp_main buf c).1
      ≡ set_time
          (correct c.at_setting (
            pos (
              c.at_request.tv_sec % 2 ^ 32 * 1000000
              + (if c.at_request.tv_usec % 15625 == 0
                  then c.at_request.tv_usec
                  else c.at_request.tv_usec - 1))
            -ℤ pos (micros c.at_receipt)))
          c.sets_time
unfolding ntp_main set_clock
ntp_main-recv_fails buf c opens connects readable fails h =
    let (ret, size, same, _, _) = get_ntp_packet-request buf bufsize c.at_request (omega arith) h in
    rw (
      opens,
      connects,
      ret,
      readable,
      fails,
      same,
      get_offset-request c.at_request c.at_receipt,
      request-transts c.at_request h,
    )
