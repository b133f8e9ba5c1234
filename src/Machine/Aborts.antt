-- ===== src/Machine/Aborts.antt =====
-- Requests that end the server (rtsp_state_machine.c).
use Prim.Native.String.{String}
use is_rtsp_server.Base.{
  ℕ, suc, ◌≤◌, ◌<◌, ◌≡◌, ◌≢◌, refl, sym, ap, ◌∙◌, arith, Bool, true, false, none, some, List, ◌++◌,
  length, drop, ltb, leb, ◌==◌, if-cases, match-cases, Outcome, ok, fail, null_pointer, assertion,
}
use is_rtsp_server.Protocol.{
  Method, Request, Headers, Proto, rtsp10, quick_response, header_content_length, headers_lookup,
}
use is_rtsp_server.Client.{Client, begin, rtsp_headers, rtsp_content, response_send}
use is_rtsp_server.Interleaved.{byte}
use is_rtsp_server.Machine.{
  Library, line, block, handle_new, handle_parsed, handle_line, start_request, handle_headers,
  handle_block, headers_done, handle_content, turn_in, handler,
}
use mathlib.Core.Option.{some-injective}
use is_rtsp_server.Machine.Packets.{turn_at, continued, paused, failed}

module _ {T : Type 0} (lib : Library) (methods : Method → Client T → Request → Outcome (Client T))
    (http : Client T → Outcome (Client T × Bool)) where
  -- The client that was told that its method is not implemented.
  rejected : Client T → Request → Client T
  unfolding response_send
  rejected c req =
      response_send (record c { status = rtsp_headers }) (quick_response lib.date req req.proto 501)

  rejected_status : (c : Client T) (req : Request) → (rejected c req).status ≡ rtsp_headers
  unfolding rejected
  rejected_status c req = refl

  rejected_pending :
      (c : Client T) (req : Request)
      → c.pending_request ≡ none
      → (rejected c req).pending_request ≡ none
  unfolding rejected
  rejected_pending c req p = p

  reject_line :
      (c : Client T) (n : ℕ) (req : Request)
      → req.method_id ≤ 1
      → start_request lib c n req rtsp_headers ≡ ok (rejected c req, false)
  unfolding start_request rejected
  reject_line c n req k =
      if-cases (λ m. m ≡ ok (rejected c req, false)) (leb req.method_id 1) _ _ (λ e. refl)
        (λ e. absurd (ground (arith, k, e)))

  line_of :
      (c : Client T) (n : ℕ) (req : Request) (p : Proto)
      → p ≡ rtsp10
      → handle_line lib c n req p ≡ start_request lib c n req rtsp_headers
  unfolding handle_line
  line_of c n req p e = ap (handle_line lib c n req) e

  reject :
      (c : Client T) (n : ℕ) (req : Request)
      → 0 < length c.input
      → byte c.input 0 ≢ 36
      → lib.parse_request_line c.input ≡ line n req
      → req.proto ≡ rtsp10
      → req.method_id ≤ 1
      → handle_new lib c ≡ ok (rejected c req, false)
  unfolding handle_new handle_parsed
  reject c n req l b x q k =
      let P : Outcome (Client T × Bool) → Type 0 = λ m. m ≡ ok (rejected c req, false) in
      if-cases P (ltb (length c.input) 1) _ _ (λ e. absurd (ground (arith, l, e)))
        (λ e.
          if-cases P (byte c.input 0 == 36) _ _ (λ f. absurd (b (ground (arith, f))))
            (λ f. ap (handle_parsed lib c) x ∙ line_of c n req req.proto q ∙ reject_line c n req k))

  no_request : (c : Client T) → c.pending_request ≡ none → handle_headers lib c ≡ fail null_pointer
  unfolding handle_headers
  no_request c p =
      match-cases (λ m. m ≡ fail null_pointer) c.pending_request _ _ (λ e. refl)
        (λ r e. absurd (let g = sym p ∙ e in cc))

  -- A request line with an unknown method, while a client is in no request, ends the server: the
  -- 501 response leaves the client in the state of reading headers with no request, and on the
  -- next bytes that it sends, whatever they are, the loop of `RTSP_handler` uses a null pointer.
  pub unknown_method_aborts :
      (c : Client T) (n : ℕ) (req : Request) (fuel : ℕ)
      → c.status ≡ begin
      → c.pending_request ≡ none
      → 0 < length c.input
      → byte c.input 0 ≢ 36
      → lib.parse_request_line c.input ≡ line n req
      → req.proto ≡ rtsp10
      → req.method_id ≤ 1
      → (d : Client T) × (handler lib methods http (suc fuel) c ≡ ok d)
        × ((more : List ℕ)
            → handler lib methods http (suc fuel) (record d { input = d.input ++ more })
              ≡ fail null_pointer)
  unfolding turn_in
  unknown_method_aborts c n req fuel s p l b x q k =
      let d = rejected c req in
      (
        d,
        paused lib methods http fuel c d
            (turn_at lib methods http c begin s ∙ reject c n req l b x q k),
        λ more.
            failed lib methods http fuel (record d { input = d.input ++ more }) null_pointer
              (turn_at lib methods http (record d { input = d.input ++ more }) rtsp_headers
                  (rejected_status c req)
                ∙ no_request (record d { input = d.input ++ more }) (rejected_pending c req p)),
      )

  -- The client once its headers are all read.
  all_headers :
      (c : Client T) (req : Request) (hs : Headers) (n : ℕ)
      → c.pending_request ≡ some req
      → lib.read_headers req.headers c.input ≡ block hs n true
      → (d : Client T) × (handle_headers lib c ≡ ok (d, true))
        × (d.status ≡ rtsp_content)
        × (r : Request) × (d.pending_request ≡ some r)
        × (r.headers ≡ hs)
  unfolding handle_headers handle_block headers_done
  all_headers c req hs n p x =
      let r = record req { headers = hs } in
      let d = headers_done lib (record c { pending_request = some r; input = drop n c.input }) r in
      (
        d,
        match-cases (λ m. m ≡ ok (d, true)) c.pending_request _ _
            (λ e. absurd (let g = sym p ∙ e in cc))
            (λ y e.
              ap (λ y. handle_block lib c y (lib.read_headers y.headers c.input))
                (some-injective y req (sym e ∙ p))
              ∙ ap (handle_block lib c req) x),
        refl,
        elim req.object [ none ↦ r | some o ↦ record r { uri = lib.uri_parse o } ],
        refl,
        match-cases (λ (y : Request). y.headers ≡ hs) req.object r
            (λ o. record r { uri = lib.uri_parse o }) (λ e. refl) (λ o e. refl),
      )

  with_content :
      (c : Client T) (req : Request) (v : String)
      → c.pending_request ≡ some req
      → headers_lookup header_content_length req.headers ≡ some v
      → handle_content lib methods http c ≡ fail assertion
  unfolding handle_content
  with_content c req v p h =
      let P : Outcome (Client T × Bool) → Type 0 = λ m. m ≡ fail assertion in
      match-cases P c.pending_request _ _ (λ e. absurd (let g = sym p ∙ e in cc))
        (λ r e.
          match-cases P (headers_lookup header_content_length r.headers) _ _
            (λ f. absurd (
              let g = some-injective r req (sym e ∙ p) in
              let k = sym f ∙ ap (λ y. headers_lookup header_content_length y.headers) g ∙ h in cc))
            (λ z f. refl))

  -- A request with a `Content-Length` header ends the server: once its headers are read, the loop
  -- of `RTSP_handler` fails an assertion.
  pub content_length_aborts :
      (c : Client T) (req : Request) (hs : Headers) (n fuel : ℕ) (v : String)
      → c.status ≡ rtsp_headers
      → c.pending_request ≡ some req
      → lib.read_headers req.headers c.input ≡ block hs n true
      → headers_lookup header_content_length hs ≡ some v
      → handler lib methods http (suc (suc fuel)) c ≡ fail assertion
  unfolding turn_in
  content_length_aborts c req hs n fuel v s p x h =
      let (d, e, f, r, g, k) = all_headers c req hs n p x in
      continued lib methods http (suc fuel) c d (turn_at lib methods http c rtsp_headers s ∙ e)
      ∙ failed lib methods http fuel d assertion (
          turn_at lib methods http d rtsp_content f
          ∙ with_content d r v g (ap (headers_lookup header_content_length) k ∙ h))
