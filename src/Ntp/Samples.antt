-- ===== src/Ntp/Samples.antt =====
-- The theorems on the SNTP client at a request of 2018 and an answer from a server that is ahead.
use small_project_for_life_w.Base.{
  ◌+◌, ◌*◌, ◌≡◌, refl, true, none, some, [], ◌∷◌, arith, drop, replicate, pos,
}
use small_project_for_life_w.Base.Int.{◌-ℤ◌}
use small_project_for_life_w.Ntp.{
  Timeval, Calls, of_bytes, request, get_ntp_packet, lfixed2double, micros, correct, set_time,
  ntp_main,
}
use small_project_for_life_w.Ntp.Packet.{get_ntp_packet-request}
use small_project_for_life_w.Ntp.Failure.{ntp_main-recv_fails}

abbrev sent_at : Timeval
sent_at = record { tv_sec = 1544576400; tv_usec = 250000 }

get_ntp_packet-request_example :
    let (ret, buf', size') = get_ntp_packet (replicate 50 7) (some 49) sent_at in
    (ret ≡ pos 0)
    × (size' ≡ some 48)
    × (of_bytes buf' ≡ request sent_at)
    × (lfixed2double (of_bytes buf').ntp_transts ≡ 1544576400 * 1000000 + 250000)
    × (drop 48 buf' ≡ 0 ∷ 7 ∷ [])
get_ntp_packet-request_example =
    get_ntp_packet-request (replicate 50 7) 49 sent_at (omega arith) (omega arith)

abbrev failing : Calls
failing = record {
  socket_opens = true;
  connects = true;
  at_request = sent_at;
  readable = true;
  received = none;
  at_receipt = record { tv_sec = 1544576404; tv_usec = 250000 };
  at_setting = record { tv_sec = 1544576404; tv_usec = 250009 };
  sets_time = true;
}

ntp_main-recv_fails_example :
    (ntp_main (replicate 1500 0) failing).1
    ≡ set_time
        (correct failing.at_setting
          (pos (1544576400 * 1000000 + 250000) -ℤ pos (micros failing.at_receipt)))
        true
ntp_main-recv_fails_example =
    ntp_main-recv_fails (replicate 1500 0) failing refl refl refl refl (omega arith)
