-- ===== src/Rtcp/Tests.antt =====
-- Instances of the theorems on RTCP.
use is_rtsp_server.Base.{◌-◌, ◌≡◌, refl, arith, ◌∷◌, [], ◌++◌, ok, fail, out_of_bounds, length}
use is_rtsp_server.Rtcp.{Source, Clock, handle, pkt_sr_sdes, pkt_sr_bye, send_sr}
use is_rtsp_server.Rtcp.Received.{
  Packet, encode, encode_all, IsValid, handle-encode_all, handle_overruns, EndsOrOverruns,
  handle_ends,
}
use is_rtsp_server.Rtcp.Compound.{handle-send_sr}

abbrev sender : Source
sender = record {
  ssrc = 7;
  start_rtptime = 5;
  pkt_count = 3;
  octet_count = 900;
  local_host = b'h' ∷ b'i' ∷ b'!' ∷ [];
}

abbrev clock : Clock
clock = record { tv_sec = 1000; tv_nsec = 500; played = 90 }

sdes_handled : handle 4 (pkt_sr_sdes sender clock) ≡ ok ((200, 28) ∷ (202, 16) ∷ [])
unfolding handle pkt_sr_sdes
sdes_handled = refl

bye_size : length (pkt_sr_bye sender clock) ≡ 60
unfolding pkt_sr_bye
bye_size = refl

sent_bye : send_sr sender clock 203 ≡ ok (pkt_sr_bye sender clock)
unfolding send_sr
sent_bye = refl

handle-send_sr_example :
    handle 3 (pkt_sr_bye sender clock)
    ≡ ok ((200, 28) ∷ (203, length (pkt_sr_bye sender clock) - 28) ∷ [])
handle-send_sr_example =
    handle-send_sr 3 sender clock 203 (pkt_sr_bye sender clock) (omega arith) (omega arith) sent_bye

-- A receiver report of no blocks, and one that counts a block which it does not hold.
abbrev empty_report : Packet
empty_report = record { counter = 0; type = 201; words = 1; body = 0 ∷ 0 ∷ 0 ∷ 7 ∷ [] }

abbrev short_report : Packet
short_report = record { counter = 1; type = 201; words = 1; body = 0 ∷ 0 ∷ 0 ∷ 7 ∷ [] }

empty_report-IsValid : IsValid empty_report
empty_report-IsValid = record {
  counter_fits = omega arith;
  words_fit = omega arith;
  not_empty = omega arith;
  measured = refl;
}

short_report-IsValid : IsValid short_report
short_report-IsValid = record {
  counter_fits = omega arith;
  words_fit = omega arith;
  not_empty = omega arith;
  measured = refl;
}

handle-encode_all_example : handle 2 (encode_all (empty_report ∷ [])) ≡ ok ((201, 8) ∷ [])
handle-encode_all_example =
    handle-encode_all 2 (empty_report ∷ []) (omega arith) (empty_report-IsValid, tt)
      ((λ e. omega arith), tt)

handle_overruns_example : handle 1 (encode short_report ++ []) ≡ fail out_of_bounds
handle_overruns_example = handle_overruns 0 short_report [] short_report-IsValid refl (omega arith)

handle_ends_example : EndsOrOverruns (handle 4 (1 ∷ 2 ∷ 3 ∷ []))
handle_ends_example = handle_ends 4 (1 ∷ 2 ∷ 3 ∷ []) (omega arith)
