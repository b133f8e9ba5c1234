-- ===== src/Rtp/Tests.antt =====
-- Instances of the theorems on RTP: a session with one buffer, or none, in its queue.
use is_rtsp_server.Base.{
  ℕ, ◌+◌, ◌-◌, ◌≡◌, refl, arith, inr, List, ◌∷◌, [], true, false, Bool, not, Option, some, none,
  ◌==◌, Outcome, ok, fail, length,
}
use is_rtsp_server.BufferQueue.{Element, Producer, Consumer}
use is_rtsp_server.BufferQueue.Order.{above}
use is_rtsp_server.BufferQueue.Valid.{Tied}
use is_rtsp_server.BufferQueue.Others.{view}
use is_rtsp_server.Rtcp.{Clock}
use is_rtsp_server.Rtp.{Buffer, Times, Stream, write_cb}
use is_rtsp_server.Rtp.Writer.{World, Sends, write_cb-Sends}
use is_rtsp_server.Rtp.Finishing.{Finishes, write_cb-Finishes}

abbrev times : Times ℕ
times = record {
  tenth = 1;
  plus = λ a b. a + b;
  minus = λ a b. a - b;
  differ = λ a b. not (a == b);
  positive = λ a. not (a == 0);
  nonzero = λ a. not (a == 0);
  scaled = λ a b r. a - b;
}

abbrev clock : Clock
clock = record { tv_sec = 1000; tv_nsec = 500; played = 90 }

abbrev frame : Buffer ℕ
frame = record { timestamp = 3; delivery = 3; duration = 2; marker = 1; bytes = 8 ∷ 9 ∷ [] }

abbrev element : Element (Buffer ℕ)
element = record { addr = 1; seen = 0; seq_no = 1; load = frame }

abbrev queue : List (Element (Buffer ℕ)) → Producer (Buffer ℕ)
queue es = record {
  queue = es;
  next_serial = 2;
  queue_serial = 1;
  consumers = 1;
  stopped = false;
  next_addr = 2;
}

abbrev fresh : Consumer
fresh = record { queue_serial = 0; pointer = none; last_element_serial = 0 }

abbrev stream : List (Element (Buffer ℕ)) → Bool → Stream ℕ
stream es eor = record {
  producer = queue es;
  consumer = fresh;
  source = record {
    ssrc = 7;
    start_rtptime = 5;
    pkt_count = 0;
    octet_count = 0;
    local_host = b'h' ∷ [];
  };
  begin_time = 0;
  playback_time = 0;
  last_timestamp = none;
  last_packet_send_time = 0;
  clock_rate = 90000;
  payload_type = 26;
  live = false;
  frame_duration = 2;
  eor = eor;
  accepts = λ xs. true;
  sent = [];
  reports = [];
  offset = 10;
  due = none;
  fills = 0;
}

fresh-Tied : (es : List (Element (Buffer ℕ))) → Tied (queue es) fresh
fresh-Tied es = record { behind = omega arith; short = λ e. omega arith; held = λ a s h. absurd cc }

one-World : World [] [] (stream (element ∷ []) false)
one-World = record {
  inv = record {
    size = refl;
    room = omega arith;
    live = omega arith;
    ordered = omega arith;
    counted = omega arith;
    tied = (fresh-Tied (element ∷ []), tt);
  };
  running = refl;
  room = omega arith;
}

one-view : view (queue (element ∷ [])) fresh ≡ (frame ∷ [], false)
unfolding above
one-view = refl

write_cb-Sends_example :
    Sends times clock 77 [] []
      (stream (element ∷ []) false)
      frame
      []
      (write_cb times clock 77 (stream (element ∷ []) false))
write_cb-Sends_example =
    write_cb-Sends times clock 77 [] [] (stream (element ∷ []) false) frame [] false one-World
      one-view

-- The first packet is followed by a report, and the timer is set 2 later.
abbrev packets_of : Outcome (Stream ℕ) → ℕ × ℕ × Option ℕ
packets_of (ok t) = (length t.sent, length t.reports, t.due)
packets_of (fail f) = (0, 0, none)

write_cb_runs : packets_of (write_cb times clock 77 (stream (element ∷ []) false)) ≡ (1, 1, some 12)
unfolding write_cb
write_cb_runs = refl

-- At the end of the resource: a goodbye, and the timer stays off.
empty-World : World [] [] (stream [] true)
empty-World = record {
  inv = record {
    size = refl;
    room = omega arith;
    live = omega arith;
    ordered = omega arith;
    counted = tt;
    tied = (fresh-Tied [], tt);
  };
  running = refl;
  room = omega arith;
}

empty-view : view (queue []) fresh ≡ ([], false)
unfolding above
empty-view = refl

write_cb-Finishes_example :
    Finishes times clock 77 [] [] (stream [] true) (write_cb times clock 77 (stream [] true))
write_cb-Finishes_example =
    write_cb-Finishes times clock 77 [] [] (stream [] true) false
      (inr (empty-World, empty-view, refl))
