-- ===== src/Machine/Shorter.antt =====
-- The loop of `RTSP_handler` (rtsp_state_machine.c) adds nothing to a client's input.
use is_rtsp_server.Base.{
  ℕ, zero, suc, ◌+◌, ◌≤◌, arith, Bool, true, false, length, length-drop, ltb, leb, ◌==◌, if-cases,
  match-cases, Outcome, ok, fail, assert, ◌>>=◌, ◌>>◌,
}
use is_rtsp_server.Protocol.{
  Method, Request, Proto, rtsp10, http10, http11, http_unsupported_version, header_content_length,
  headers_lookup,
}
use is_rtsp_server.Client.{
  State, begin, interleaved, rtsp_headers, rtsp_content, http_headers, http_content, http_idle,
  Client, rtsp_quick_response, response_send,
}
use is_rtsp_server.Interleaved.{byte, packet_length, packet_received, handle_interleaved}
use is_rtsp_server.Machine.{
  Library, Line, bad_line, no_line, line, Block, bad_block, block, start_request, handle_line,
  handle_parsed, handle_block, handle_new, headers_done, handle_headers, handle_request,
  handle_content, turn_in, turn, handler,
}
use is_rtsp_server.Machine.Turns.{Called, Fair}
use is_rtsp_server.Machine.Loop.{handle_request-Called}

module _ {T : Type 0} where
  -- A turn that returns leaves no longer an input.
  abbrev pub Shorter : Client T → Outcome (Client T × Bool) → Type 0
  Shorter c (fail f) = Unit
  Shorter c (ok r) = length r.0.input ≤ length c.input

  asserted_Shorter :
      (c : Client T) (b : Bool) (m : Outcome (Client T × Bool))
      → Shorter c m
      → Shorter c (assert b >> m)
  asserted_Shorter c true m h = h
  asserted_Shorter c false m h = tt

  interleaved-Shorter : (c : Client T) → Shorter c (handle_interleaved c)
  unfolding handle_interleaved packet_received
  interleaved-Shorter c =
      if-cases (Shorter c) (ltb (length c.input) 4) _ _ (λ e. omega arith)
        (λ e. asserted_Shorter c (byte c.input 0 == 36) _ (
          if-cases (Shorter c) (ltb (length c.input) (packet_length c.input + 4)) _ _
            (λ f. omega arith)
            (λ f. omega (arith, length-drop (packet_length c.input + 4) c.input))))

  module _ (lib : Library) where
    start_request-Shorter :
        (c : Client T) (n : ℕ) (req : Request) (s : State) → Shorter c (start_request lib c n req s)
    unfolding start_request response_send
    start_request-Shorter c n req s =
        if-cases (Shorter c) (leb req.method_id 1) _ _ (λ e. omega arith)
          (λ e. omega (arith, length-drop n c.input))

    handle_line-Shorter :
        (c : Client T) (n : ℕ) (req : Request) (p : Proto) → Shorter c (handle_line lib c n req p)
    unfolding handle_line response_send
    handle_line-Shorter c n req rtsp10 = start_request-Shorter c n req rtsp_headers
    handle_line-Shorter c n req http10 = start_request-Shorter c n req http_headers
    handle_line-Shorter c n req http11 = start_request-Shorter c n req http_headers
    handle_line-Shorter c n req http_unsupported_version = omega arith
    handle_line-Shorter c n req Proto.proto_invalid = omega arith
    handle_line-Shorter c n req Proto.proto_unsupported = omega arith
    handle_line-Shorter c n req Proto.rtsp_unsupported_version = omega arith

    handle_parsed-Shorter : (c : Client T) (x : Line) → Shorter c (handle_parsed lib c x)
    unfolding handle_parsed rtsp_quick_response response_send
    handle_parsed-Shorter c (bad_line req) = omega arith
    handle_parsed-Shorter c no_line = omega arith
    handle_parsed-Shorter c (line n req) = handle_line-Shorter c n req req.proto

    handle_new-Shorter : (c : Client T) → Shorter c (handle_new lib c)
    unfolding handle_new
    handle_new-Shorter c =
        if-cases (Shorter c) (ltb (length c.input) 1) _ _ (λ e. omega arith)
          (λ e.
            if-cases (Shorter c) (byte c.input 0 == 36) _ _
              (λ f. interleaved-Shorter (record c { status = interleaved }))
              (λ f. handle_parsed-Shorter c (lib.parse_request_line c.input)))

    handle_block-Shorter :
        (c : Client T) (req : Request) (x : Block) → Shorter c (handle_block lib c req x)
    unfolding handle_block headers_done rtsp_quick_response response_send
    handle_block-Shorter c req (bad_block hs) = omega arith
    handle_block-Shorter c req (block hs n false) = omega (arith, length-drop n c.input)
    handle_block-Shorter c req (block hs n true) = omega (arith, length-drop n c.input)

    handle_headers-Shorter : (c : Client T) → Shorter c (handle_headers lib c)
    unfolding handle_headers
    handle_headers-Shorter c =
        match-cases (Shorter c) c.pending_request _ _ (λ e. tt)
          (λ req e. handle_block-Shorter c req (lib.read_headers req.headers c.input))

  module _ (lib : Library) (methods : Method → Client T → Request → Outcome (Client T))
      (http : Client T → Outcome (Client T × Bool)) (fair : Fair lib methods http)
      (http_shorter : (c : Client T) → Shorter c (http c)) where
    began_Shorter :
        (c : Client T) (m : Outcome (Client T))
        → Called c m
        → Shorter c (m >>= λ d. ok (record d { status = begin }, true))
    began_Shorter c (fail f) k = tt
    began_Shorter c (ok d) k = k.1

    handle_content-Shorter : (c : Client T) → Shorter c (handle_content lib methods http c)
    unfolding handle_content
    handle_content-Shorter c =
        match-cases (Shorter c) c.pending_request _ _ (λ e. tt)
          (λ req e.
            match-cases (Shorter c) (headers_lookup header_content_length req.headers) _ _
              (λ f.
                began_Shorter c (handle_request lib methods c req)
                  (handle_request-Called lib methods http fair c req))
              (λ n f. tt))

    turn_in-Shorter : (c : Client T) (s : State) → Shorter c (turn_in lib methods http s c)
    unfolding turn_in
    turn_in-Shorter c begin = handle_new-Shorter lib c
    turn_in-Shorter c rtsp_headers = handle_headers-Shorter lib c
    turn_in-Shorter c rtsp_content = handle_content-Shorter c
    turn_in-Shorter c interleaved = interleaved-Shorter c
    turn_in-Shorter c http_headers = http_shorter c
    turn_in-Shorter c http_content = http_shorter c
    turn_in-Shorter c http_idle = http_shorter c

    abbrev pub NoLonger : ℕ → Outcome (Client T) → Type 0
    NoLonger n (fail f) = Unit
    NoLonger n (ok d) = length d.input ≤ n

    looped_Shorter :
        (fuel n : ℕ) (c : Client T) (m : Outcome (Client T × Bool))
        → length c.input ≤ n
        → Shorter c m
        → ((d : Client T) → length d.input ≤ n → NoLonger n (handler lib methods http fuel d))
        → NoLonger n
            (m >>= λ r. elim r.1 [ true ↦ handler lib methods http fuel (r.0) | false ↦ ok (r.0) ])
    looped_Shorter fuel n c (fail f) k t h = tt
    looped_Shorter fuel n c (ok (d, false)) k t h = omega (arith, k, t)
    looped_Shorter fuel n c (ok (d, true)) k t h = h d (omega (arith, k, t))

    pub handler-NoLonger :
        (fuel n : ℕ) (c : Client T)
        → length c.input ≤ n
        → NoLonger n (handler lib methods http fuel c)
    unfolding handler turn
    handler-NoLonger zero n c k = tt
    handler-NoLonger (suc fuel) n c k =
        looped_Shorter fuel n c (turn lib methods http c) k (turn_in-Shorter c c.status)
          (λ d l. handler-NoLonger fuel n d l)
