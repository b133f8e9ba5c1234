-- ===== src/Machine/Turns.antt =====
-- Measure of the loop of `RTSP_handler` (rtsp_state_machine.c), and the turns that parse: each that
-- asks for another brings the client nearer to the end of its input.
use is_rtsp_server.Base.{
  ℕ, ◌+◌, ◌*◌, ◌≤◌, ◌<◌, ◌≡◌, ◌≢◌, refl, ap, arith, Bool, true, false, Bool-cases, Option-cases,
  inl, inr, List, length, length-drop, ltb, leb, ◌==◌, if-cases, Outcome, ok, fail, out_of_fuel,
}
use is_rtsp_server.Protocol.{
  Method, Request, Proto, rtsp10, http10, http11, http_unsupported_version,
}
use is_rtsp_server.Client.{
  State, begin, interleaved, rtsp_headers, rtsp_content, http_headers, http_content, http_idle,
  Client, rtsp_quick_response, response_send,
}
use is_rtsp_server.Interleaved.{byte, packet_length, handle_interleaved, packet_received}
use is_rtsp_server.Machine.{
  Library, Line, bad_line, no_line, line, Block, bad_block, block, start_request, handle_line,
  handle_parsed, handle_block, handle_new, headers_done, handle_headers,
}

abbrev pub rank : State → ℕ
rank begin = 0
rank interleaved = 0
rank rtsp_headers = 2
rank rtsp_content = 1
rank http_headers = 2
rank http_content = 1
rank http_idle = 1

module _ {T : Type 0} where
  -- What is left to do: three turns for each byte of the input, and those until the next request.
  abbrev pub size : Client T → ℕ
  size c = 3 * length c.input + rank c.status

  -- A turn from `c` does not loop, keeps the number of the last request or raises it, and comes
  -- nearer to the end if it asks for another turn.
  abbrev pub Turned : Client T → Outcome (Client T × Bool) → Type 0
  Turned c (fail f) = f ≢ out_of_fuel
  Turned c (ok r) = (c.last_cseq ≤ r.0.last_cseq) × (r.1 ≡ true → size (r.0) < size c)

  -- A call on `c` does not loop, and neither lowers the number of the last request nor adds input.
  abbrev pub Called : Client T → Outcome (Client T) → Type 0
  Called c (fail f) = f ≢ out_of_fuel
  Called c (ok d) = (c.last_cseq ≤ d.last_cseq) × (length d.input ≤ length c.input)

  -- A run of the loop does not run out of fuel, nor lowers the number of the last request.
  abbrev pub Run : Client T → Outcome (Client T) → Type 0
  Run c (fail f) = f ≢ out_of_fuel
  Run c (ok d) = c.last_cseq ≤ d.last_cseq

  -- The same of a check that answers the client itself if it fails.
  abbrev pub Checked : Client T → Client T × Bool → Type 0
  Checked c r = Called c (ok (r.0))

  pub interleaved-Turned : (c : Client T) → Turned c (handle_interleaved c)
  unfolding handle_interleaved packet_received
  interleaved-Turned c = elim (Bool-cases (ltb (length c.input) 4)) [
    | inl e ↦ rw e (omega arith, λ h. cc)
    | inr e ↦ elim (Bool-cases (byte c.input 0 == 36)) [
      | inr f ↦ rw (e, f) (λ h. cc)
      | inl f ↦ elim (Bool-cases (ltb (length c.input) (packet_length c.input + 4))) [
        | inl g ↦ rw (e, f, g) (omega arith, λ h. cc)
        | inr g ↦
            rw (e, f, g)
              (omega arith, λ h. ground (arith, length-drop (packet_length c.input + 4) c.input))
      ]
    ]
  ]

  restart :
      (c : Client T)
      → c.status ≡ begin
      → (m : Outcome (Client T × Bool)) → Turned (record c { status = interleaved }) m
      → Turned c m
  restart c s (fail f) t = t
  restart c s (ok r) t = (t.0, λ h. omega (arith, t.1 h))

  -- What the parsers, the method functions and the HTTP states are relied on for: a request line
  -- has a byte at least and ends within the input, and no call hangs, adds input or lowers the
  -- number of the last request; a turn of an HTTP state that asks for another brings it nearer.
  pub record Fair (lib : Library) (methods : Method → Client T → Request → Outcome (Client T))
      (http : Client T → Outcome (Client T × Bool)) : Type 0 where
    pub line_size :
        (xs : List ℕ) (n : ℕ) (req : Request)
        → lib.parse_request_line xs ≡ line n req
        → (0 < n) × (n ≤ length xs)
    pub called : (m : Method) (c : Client T) (req : Request) → Called c (methods m c req)
    pub turned : (c : Client T) → Turned c (http c)

  module _ (lib : Library) where
    start_request-Turned :
        (c : Client T) (n : ℕ) (req : Request) (s : State)
        → rank s ≤ 2
        → 0 < n
        → n ≤ length c.input
        → Turned c (start_request lib c n req s)
    unfolding start_request response_send
    start_request-Turned c n req s k l m = elim (Bool-cases (leb req.method_id 1)) [
      | inl e ↦ rw e (omega arith, λ h. cc)
      | inr e ↦ rw e (omega arith, λ h. omega (arith, k, l, m, length-drop n c.input))
    ]

    handle_line-Turned :
        (c : Client T) (n : ℕ) (req : Request) (p : Proto)
        → 0 < n
        → n ≤ length c.input
        → Turned c (handle_line lib c n req p)
    unfolding handle_line response_send
    handle_line-Turned c n req rtsp10 l m =
        start_request-Turned c n req rtsp_headers (omega arith) l m
    handle_line-Turned c n req http10 l m =
        start_request-Turned c n req http_headers (omega arith) l m
    handle_line-Turned c n req http11 l m =
        start_request-Turned c n req http_headers (omega arith) l m
    handle_line-Turned c n req http_unsupported_version l m = (omega arith, λ h. cc)
    handle_line-Turned c n req Proto.proto_invalid l m = (omega arith, λ h. cc)
    handle_line-Turned c n req Proto.proto_unsupported l m = (omega arith, λ h. cc)
    handle_line-Turned c n req Proto.rtsp_unsupported_version l m = (omega arith, λ h. cc)

    handle_parsed-Turned :
        (c : Client T) (x : Line)
        → ((n : ℕ) (req : Request) → x ≡ line n req → (0 < n) × (n ≤ length c.input))
        → Turned c (handle_parsed lib c x)
    unfolding handle_parsed rtsp_quick_response
    handle_parsed-Turned c (bad_line req) k = (omega arith, λ h. cc)
    handle_parsed-Turned c no_line k = (omega arith, λ h. cc)
    handle_parsed-Turned c (line n req) k =
        let b = k n req refl in handle_line-Turned c n req req.proto b.0 b.1

    pub handle_new-Turned :
        (c : Client T)
        → c.status ≡ begin
        → ((n : ℕ) (req : Request)
            → lib.parse_request_line c.input ≡ line n req
            → (0 < n) × (n ≤ length c.input))
        → Turned c (handle_new lib c)
    unfolding handle_new
    handle_new-Turned c s k =
        if-cases (Turned c) (ltb (length c.input) 1) _ _ (λ e. (omega arith, λ h. cc))
          (λ e.
            if-cases (Turned c) (byte c.input 0 == 36) _ _
              (λ f.
                restart c s (handle_interleaved (record c { status = interleaved }))
                  (interleaved-Turned (record c { status = interleaved })))
              (λ f. handle_parsed-Turned c (lib.parse_request_line c.input) k))

    handle_block-Turned :
        (c : Client T) (req : Request) (x : Block)
        → c.status ≡ rtsp_headers
        → Turned c (handle_block lib c req x)
    unfolding handle_block headers_done rtsp_quick_response
    handle_block-Turned c req (bad_block hs) s = (omega arith, λ h. cc)
    handle_block-Turned c req (block hs n false) s = (omega arith, λ h. cc)
    handle_block-Turned c req (block hs n true) s =
        let r : rank c.status ≡ 2 = ap rank s in
        (omega arith, λ h. omega (arith, r, length-drop n c.input))

    pub handle_headers-Turned :
        (c : Client T) → c.status ≡ rtsp_headers → Turned c (handle_headers lib c)
    unfolding handle_headers
    handle_headers-Turned c s = elim (Option-cases c.pending_request) [
      | inl e ↦ rw e (λ h. cc)
      | inr (req, e) ↦ rw e (handle_block-Turned c req (lib.read_headers req.headers c.input) s)
    ]
