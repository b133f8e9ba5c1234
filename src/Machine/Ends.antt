-- ===== src/Machine/Ends.antt =====
-- The loop of `RTSP_handler` (rtsp_state_machine.c) with the methods of the program, up to the HTTP
-- states (http_tunnelling.c).
use is_rtsp_server.Base.{ℕ, ap, ◌<◌, ◌≤◌, ◌≡◌, arith, Bool, false, List, length, Outcome, ok, fail}
use is_rtsp_server.Protocol.{Method, Request}
use is_rtsp_server.Client.{Client}
use is_rtsp_server.Machine.{Library, line, handler}
use is_rtsp_server.Machine.Turns.{size, Called, Run, Fair}
use is_rtsp_server.Machine.Loop.{handler-Run}
use is_rtsp_server.Machine.Reading.{reads, IsBounded, Bounded, reads_in_bounds}
use is_rtsp_server.Methods.{Env, method_table}
use is_rtsp_server.Methods.Setup.{Outside, do_setup}
use is_rtsp_server.Methods.Describe.{do_describe}
use is_rtsp_server.Methods.Keeps.{Keeps}
use is_rtsp_server.Methods.KeepsTable.{method_table-Keeps}
use is_rtsp_server.Tunnel.{World}
use is_rtsp_server.Tunnel.Handled.{Tunnelling}

-- Where an HTTP state is reached, the run of the loop is followed no further.
abbrev pub hand_over : {T : Type 0} → Client T → Outcome (Client T × Bool)
hand_over c = ok (c, false)

-- The methods of the program; `at` is what the outside answers to a request of a client.
abbrev pub served :
    {T : Type 0}
    → (Client T → Request → Env T × Outside T)
    → Method
    → Client T
    → Request
    → Outcome (Client T)
served at m c req =
    let x = at c req in method_table (x.0) (do_describe (x.0) (x.1)) (do_setup (x.0) (x.1)) m c req

-- A request line that the parser finds has a byte at least and ends within the input.
abbrev pub FindsLines : Library → Type 0
FindsLines lib =
    (xs : List ℕ) (n : ℕ) (req : Request)
    → lib.parse_request_line xs ≡ line n req
    → (0 < n) × (n ≤ length xs)

module _ {T : Type 0} (lib : Library) (at : Client T → Request → Env T × Outside T)
    (lines : FindsLines lib) where
  Keeps-Called : (c : Client T) (o : Outcome (Client T)) → Keeps c o → Called c o
  Keeps-Called c (fail f) k = k
  Keeps-Called c (ok d) (i, n, s) = (omega (arith, n), let l = ap_length d i in omega (arith, l))
    where
      ap_length : (d : Client T) → d.input ≡ c.input → length d.input ≡ length c.input
      ap_length d e = ap length e

  fair : Fair lib (served at) hand_over
  fair = record {
    line_size = λ xs n req e. lines xs n req e;
    called =
        λ m c req. let x = at c req in Keeps-Called c _ (method_table-Keeps (x.0) (x.1) m c req);
    turned = λ c. (omega arith, λ e. absurd cc);
  }

  -- If the parser finds request lines within the input: with more fuel than three turns for each byte
  -- of the input and the rank of the state, the loop of `RTSP_handler`, over the methods of the program
  -- and whatever the outside answers to them, ends or comes to an HTTP state; then the number of the
  -- last request is what it was or higher, or the loop failed otherwise than for want of fuel.
  pub handler-Ends :
      (fuel : ℕ) (c : Client T) → size c < fuel → Run c (handler lib (served at) hand_over fuel c)
  handler-Ends fuel c h = handler-Run lib (served at) hand_over fair fuel c h

  -- Whatever bytes a client without a tunnel sends, however they are cut, up to an HTTP state: if the
  -- parser finds request lines within the input, then over the methods of the program, and whatever
  -- the outside answers to them, its input never gets longer than 5000 bytes, and 15003 turns are enough
  -- for `RTSP_handler` at each call. It fails otherwise than for want of turns, if at all.
  pub reads-Bounded :
      (tun : Tunnelling) (w : World T) (a : ℕ) (chunks : List (List ℕ))
      → IsBounded lib tun (served at) hand_over a w
      → Bounded lib tun (served at) hand_over a (reads lib tun (served at) hand_over w a chunks)
  reads-Bounded tun w a chunks b =
      reads_in_bounds lib tun (served at) hand_over fair (λ c. omega arith) w a chunks b
