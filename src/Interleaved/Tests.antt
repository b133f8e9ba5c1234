-- ===== src/Interleaved/Tests.antt =====
-- Instances of the theorems on interleaved packets (rtsp_interleaved.c).
use is_rtsp_server.Base.{ℕ, ◌≡◌, refl, arith, true, false, none, some, List, [], ◌∷◌, ◌++◌, ok}
use is_rtsp_server.Client.{Client, begin, interleaved}
use is_rtsp_server.Interleaved.{send_pkt, handle_interleaved, transport, receiver}
use is_rtsp_server.Interleaved.Frames.{handle_interleaved-send_pkt}
use is_rtsp_server.Interleaved.Channels.{Arranged, transport-Arranged, transport_takes_over}

abbrev client : List ℕ → Client ℕ
client xs = record {
  first_free_channel = 0;
  status = interleaved;
  input = xs;
  pending_request = none;
  channels = [];
  session = none;
  last_cseq = 0;
  timer = false;
  sent = [];
  received = [];
}

send_pkt_bytes : send_pkt 3 (7 ∷ 8 ∷ []) ≡ 36 ∷ 3 ∷ 0 ∷ 2 ∷ 7 ∷ 8 ∷ []
unfolding send_pkt
send_pkt_bytes = refl

handle_interleaved-send_pkt_example :
    handle_interleaved (client (send_pkt 3 (7 ∷ 8 ∷ []) ++ 9 ∷ []))
    ≡ ok (record (client (9 ∷ [])) { received = (3, 7 ∷ 8 ∷ []) ∷ []; status = begin }, true)
handle_interleaved-send_pkt_example =
    handle_interleaved-send_pkt (client (send_pkt 3 (7 ∷ 8 ∷ []) ++ 9 ∷ [])) 3 (7 ∷ 8 ∷ []) (9 ∷ [])
      (omega arith) (omega arith) refl

transport-Arranged_example : Arranged (client []) 4 1 2 (transport (client []) 4 none none)
transport-Arranged_example = transport-Arranged (client []) 4 none none

transport_takes_over_example :
    let r = transport (client []) 4 (some 7) (some 2) in
    let r' = transport (r.0) 5 none none in
    (receiver 2 r.0.channels ≡ some 4) × (r'.1 ≡ some (1, 2)) × (receiver 2 r'.0.channels ≡ some 5)
transport_takes_over_example = transport_takes_over (client []) 4 5 7 (omega arith) (omega arith)
