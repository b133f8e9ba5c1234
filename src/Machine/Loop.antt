-- ===== src/Machine/Loop.antt =====
-- The loop of `RTSP_handler` (rtsp_state_machine.c): the turns that serve a request, and the loop.
use Prim.Native.String.{String}
use is_rtsp_server.Base.{
  ℕ, zero, suc, ◌≤◌, ◌<◌, ◌≡◌, refl, ap, arith, Bool, true, false, not, Option, none, some, length,
  leb, if-cases, match-cases, Outcome, ok, fail, ◌>>=◌,
}
use is_rtsp_server.Protocol.{
  Method, method_of, Request, headers_lookup, header_session, header_require, header_proxy_require,
  header_content_length,
}
use is_rtsp_server.Client.{
  State, begin, interleaved, rtsp_headers, rtsp_content, http_headers, http_content, http_idle,
  Client, rtsp_quick_response, response_send,
}
use is_rtsp_server.Machine.{
  Library, cseq_of, session_known, check_session, unsupported, check_required_options, dispatch,
  handle_fresh, handle_request, handle_content, turn_in, turn, handler,
}
use is_rtsp_server.Machine.Turns.{
  rank, size, Turned, Called, Run, Checked, Fair, interleaved-Turned, handle_new-Turned,
  handle_headers-Turned,
}

module _ {T : Type 0} (lib : Library) where
  unsupported-Called :
      (c : Client T) (req : Request) (a b : Option String)
      → Called c (ok (unsupported lib c req a b))
  unfolding unsupported response_send
  unsupported-Called c req a b = (omega arith, omega arith)

  check_session-Called :
      (c : Client T) (req : Request) → Called c (ok ((check_session lib c req).0))
  unfolding check_session rtsp_quick_response
  check_session-Called c req =
      match-cases (Checked c) (headers_lookup header_session req.headers) _ _
        (λ e. (omega arith, omega arith))
        (λ id e.
          if-cases (Checked c) (session_known lib c id) _ _ (λ f. (omega arith, omega arith))
            (λ f. (omega arith, omega arith)))

  check_required-Called :
      (c : Client T) (req : Request) → Called c (ok ((check_required_options lib c req).0))
  unfolding check_required_options
  check_required-Called c req =
      match-cases (Checked c) (headers_lookup header_require req.headers) _ _
        (λ e.
          match-cases (Checked c) (headers_lookup header_proxy_require req.headers) _ _
            (λ f. (omega arith, omega arith)) (λ r f. unsupported-Called c req none (some r)))
        (λ r e. unsupported-Called c req (some r) (headers_lookup header_proxy_require req.headers))

  module _ (methods : Method → Client T → Request → Outcome (Client T))
      (http : Client T → Outcome (Client T × Bool)) (fair : Fair lib methods http) where
    chain : (c d : Client T) (m : Outcome (Client T)) → Called c (ok d) → Called d m → Called c m
    chain c d (fail f) k t = t
    chain c d (ok e) k t = (omega (arith, k.0, t.0), omega (arith, k.1, t.1))

    dispatch-Called : (c : Client T) (req : Request) → Called c (dispatch lib methods c req)
    unfolding dispatch
    dispatch-Called c req =
        match-cases (Called c) (method_of req.method_id) _ _ (λ e h. cc)
          (λ m e. fair.called m c req)

    pub handle_fresh-Called :
        (c : Client T) (req : Request) → Called c (handle_fresh lib methods c req)
    unfolding handle_fresh
    handle_fresh-Called c req =
        let s = (check_session lib c req).0 in
        let o = (check_required_options lib s req).0 in
        if-cases (Called c) (not ((check_session lib c req).1)) _ _
          (λ e. check_session-Called c req)
          (λ e.
            if-cases (Called c) (not ((check_required_options lib s req).1)) _ _
              (λ f. chain c s (ok o) (check_session-Called c req) (check_required-Called s req))
              (λ f.
                chain c s _ (check_session-Called c req)
                  (chain s o _ (check_required-Called s req) (dispatch-Called o req))))

    cleared :
        (c d : Client T) (n : ℕ) (m : Outcome (Client T))
        → c.last_cseq ≤ n
        → length d.input ≤ length c.input
        → d.last_cseq ≡ n
        → Called d m
        → Called c (m >>= λ e. ok (record e { pending_request = none }))
    cleared c d n (fail f) l k q t = t
    cleared c d n (ok e) l k q t = (omega (arith, l, q, t.0), omega (arith, k, t.1))

    pub handle_request-Called :
        (c : Client T) (req : Request) → Called c (handle_request lib methods c req)
    unfolding handle_request rtsp_quick_response response_send
    handle_request-Called c req =
        match-cases (Called c) (cseq_of lib req) _ _ (λ e. (omega arith, omega arith))
          (λ n e.
            if-cases (Called c) (leb n c.last_cseq) _ _ (λ f. (omega arith, omega arith))
              (λ f.
                let d = record c { last_cseq = n } in
                cleared c d n (handle_fresh lib methods d req) (ground arith) (omega arith) refl
                  (handle_fresh-Called d req)))

    began :
        (c : Client T) (m : Outcome (Client T))
        → c.status ≡ rtsp_content
        → Called c m
        → Turned c (m >>= λ d. ok (record d { status = begin }, true))
    began c (fail f) s t = t
    began c (ok d) s t = let r : rank c.status ≡ 1 = ap rank s in (t.0, λ h. omega (arith, r, t.1))

    handle_content-Turned :
        (c : Client T) → c.status ≡ rtsp_content → Turned c (handle_content lib methods http c)
    unfolding handle_content
    handle_content-Turned c s =
        match-cases (Turned c) c.pending_request _ _ (λ e h. cc)
          (λ req e.
            match-cases (Turned c) (headers_lookup header_content_length req.headers) _ _
              (λ f. began c (handle_request lib methods c req) s (handle_request-Called c req))
              (λ n f h. cc))

    turn_in-Turned :
        (c : Client T) (s : State) → c.status ≡ s → Turned c (turn_in lib methods http s c)
    unfolding turn_in
    turn_in-Turned c begin e = handle_new-Turned lib c e (fair.line_size c.input)
    turn_in-Turned c rtsp_headers e = handle_headers-Turned lib c e
    turn_in-Turned c rtsp_content e = handle_content-Turned c e
    turn_in-Turned c interleaved e = interleaved-Turned c
    turn_in-Turned c http_headers e = fair.turned c
    turn_in-Turned c http_content e = fair.turned c
    turn_in-Turned c http_idle e = fair.turned c

    -- Every turn of the loop of `RTSP_handler` returns or fails without looping, keeps or raises
    -- the number of the last request, and comes nearer to the end if it asks for another turn.
    pub turn-Turned : (c : Client T) → Turned c (turn lib methods http c)
    unfolding turn
    turn-Turned c = turn_in-Turned c c.status refl

    later :
        (c d : Client T) (m : Outcome (Client T)) → c.last_cseq ≤ d.last_cseq → Run d m → Run c m
    later c d (fail f) l t = t
    later c d (ok e) l t = omega (arith, l, t)

    looped :
        (fuel : ℕ) (c : Client T) (m : Outcome (Client T × Bool))
        → size c ≤ fuel
        → Turned c m
        → ((d : Client T) → size d < fuel → Run d (handler lib methods http fuel d))
        → Run c
            (m >>= λ r. elim r.1 [ true ↦ handler lib methods http fuel (r.0) | false ↦ ok (r.0) ])
    looped fuel c (fail f) k t h = t
    looped fuel c (ok (d, false)) k t h = t.0
    looped fuel c (ok (d, true)) k t h = later c d _ (t.0) (h d (omega (arith, k, t.1 refl)))

    -- If the parsers, the methods and the HTTP states do as `Fair` says: with more fuel than three
    -- turns for each byte of the input and the rank of the state, the loop of `RTSP_handler` ends;
    -- it returns, and then the number of the last request is what it was or higher, or it fails
    -- otherwise than for want of fuel.
    pub handler-Run :
        (fuel : ℕ) (c : Client T) → size c < fuel → Run c (handler lib methods http fuel c)
    unfolding handler
    handler-Run zero c k = absurd (omega (arith, k))
    handler-Run (suc fuel) c k =
        looped fuel c (turn lib methods http c) (omega (arith, k)) (turn-Turned c)
          (λ d l. handler-Run fuel d l)
