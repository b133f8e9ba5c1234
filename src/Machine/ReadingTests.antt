-- ===== src/Machine/ReadingTests.antt =====
-- Instances of the theorems on the loop with the methods of the program.
use is_rtsp_server.Base.{ℕ, refl, arith, none, some, [], ◌∷◌, ◌==◌, if◌then◌else◌}
use is_rtsp_server.Client.{Client}
use is_rtsp_server.Protocol.{Request}
use is_rtsp_server.Machine.{handler}
use is_rtsp_server.Machine.Turns.{Run}
use is_rtsp_server.Machine.Tests.{library, line_bounds, client}
use is_rtsp_server.Methods.{Env}
use is_rtsp_server.Methods.Setup.{Outside}
use is_rtsp_server.Methods.Tests.{env}
use is_rtsp_server.Methods.ServedTests.{out}
use is_rtsp_server.Machine.Ends.{served, hand_over, handler-Ends, reads-Bounded}
use is_rtsp_server.Machine.Reading.{Bounded, reads}
use is_rtsp_server.Tunnel.{World}
use is_rtsp_server.Tunnel.Tests.{tunnelling}

abbrev world : World ℕ
world = record {
  clients = λ a. if a == 1 then some (client (3 ∷ [])) else none;
  pairs = λ q. none;
  table = none;
  pair_of = λ a. none;
  ended = [];
}

abbrev outside : Client ℕ → Request → Env ℕ × Outside ℕ
outside c req = (env, out)

handler-Ends_example :
    Run
      (client (3 ∷ 0 ∷ 1 ∷ []))
      (handler library (served outside) hand_over 10 (client (3 ∷ 0 ∷ 1 ∷ [])))
handler-Ends_example =
    handler-Ends library outside line_bounds 10 (client (3 ∷ 0 ∷ 1 ∷ [])) (omega arith)

reads-Bounded_example :
    Bounded library tunnelling
      (served outside)
      hand_over
      1
      (reads library tunnelling (served outside) hand_over world 1 ((0 ∷ []) ∷ (1 ∷ 5 ∷ []) ∷ []))
reads-Bounded_example =
    reads-Bounded library outside line_bounds tunnelling world 1 ((0 ∷ []) ∷ (1 ∷ 5 ∷ []) ∷ [])
      (refl, (client (3 ∷ []), refl, omega arith))
