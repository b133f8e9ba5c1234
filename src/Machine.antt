-- ===== src/Machine.antt =====
-- rtsp_state_machine.c: the incremental parser of a client's connection and what it does with each
-- request. The request line and header parsers, `g_ascii_strtoull` and `uri_parse` are parameters,
-- and so are the functions of the methods and of the HTTP states.
pub mod Turns
pub mod Loop
pub mod Packets
pub mod Requests
pub mod Aborts
pub mod Responses
pub mod Shorter
pub mod Reading
pub mod Ends
pub mod Tests
mod ResponsesTests
mod ReadingTests
use Prim.Native.String.{String, len, ◌++◌ as ◌+s+◌}
use is_rtsp_server.Base.{
  ℕ, zero, suc, ◌+◌, ◌-◌, ◌*◌, ◌^◌, Bool, true, false, not, ◌&&◌, Option, none, some, List, [], ◌∷◌,
  length, drop, ltb, leb, ◌==◌, if◌then◌else◌, Outcome, ok, fail, assertion, null_pointer,
  out_of_fuel, ◌>>=◌,
}
use is_rtsp_server.Protocol.{
  Proto, rtsp10, http10, http11, http_unsupported_version, Method, method_of, Headers, Request,
  Response, header_cseq, header_session, header_require, header_proxy_require,
  header_unsupported_options, header_content_length, headers_lookup, headers_set, same_text,
  response_new, quick_response,
}
use is_rtsp_server.Client.{
  State, begin, interleaved, rtsp_headers, rtsp_content, http_headers, http_content, http_idle,
  Client, Session, response_send, rtsp_quick_response,
}
use is_rtsp_server.Interleaved.{byte, handle_interleaved}

-- What `ragel_parse_request_line` makes of the input: an error, nothing yet, or a request line of a
-- number of bytes.
pub data Line : Type 0 where
  bad_line : Request → Line
  no_line : Line
  line : ℕ → Request → Line

-- What `ragel_read_rtsp_headers` makes of it: an error, or the headers with those added that it
-- read, how many bytes it read, and whether they were the last.
pub data Block : Type 0 where
  bad_block : Headers → Block
  block : Headers → ℕ → Bool → Block

-- The functions that this part calls and that are not modelled. `strtoull` gives the value and how
-- many characters it read, `uri_parse` the path, if the URI has one, and `date` is the printed time.
pub record Library : Type 0 where
  pub parse_request_line : List ℕ → Line
  pub read_headers : Headers → List ℕ → Block
  pub strtoull : String → ℕ × ℕ
  pub uri_parse : String → Option (Option String)
  pub date : String

abbrev pub or_empty : Option String → String
or_empty none = ""
or_empty (some s) = s

module _ (lib : Library) where
  -- The value of the `CSeq` header, if the header is there and is a number without a rest.
  pub cseq_of : Request → Option ℕ
  unfolding headers_lookup
  cseq_of req = elim (headers_lookup header_cseq req.headers) [
    | none ↦ none
    | some h ↦
        let r = lib.strtoull h in
        if r.0 == 2 ^ 64 - 1 then none else if ltb (r.1) (len h) then none else some (r.0)
  ]

abbrev pub same_state : State → State → Bool
same_state begin begin = true
same_state rtsp_headers rtsp_headers = true
same_state rtsp_content rtsp_content = true
same_state _ _ = false

module _ {T : Type 0} where
  -- The next conjunct of `rtsp_process_complete`, for a call that left `r`.
  abbrev pub conjunct :
      Client T × Bool → State → (Client T → Outcome (Client T × Bool)) → Outcome (Client T × Bool)
  conjunct r s k = if r.1 && same_state r.0.status s then k (r.0) else ok (r.0, false)

module _ {T : Type 0} (lib : Library) where
  -- The client's session has the id.
  pub session_known : Client T → String → Bool
  session_known c id = elim c.session [ none ↦ false | some s ↦ same_text id s.session_id ]

  -- `rtsp_check_session`
  pub check_session : Client T → Request → Client T × Bool
  unfolding headers_lookup session_known rtsp_quick_response
  check_session c req = elim (headers_lookup header_session req.headers) [
    | none ↦ (c, true)
    | some id ↦
        if session_known c id then (c, true) else (rtsp_quick_response lib.date c req 454, false)
  ]

  -- The 551 response of `rtsp_check_required_options`.
  pub unsupported : Client T → Request → Option String → Option String → Client T
  unfolding response_send response_new headers_set
  unsupported c req a b =
      let r = response_new lib.date req 551 in
      response_send c (record r {
        headers =
            headers_set header_unsupported_options (or_empty a +s+ (" " +s+ or_empty b)) r.headers;
      })

  -- `rtsp_check_required_options`
  pub check_required_options : Client T → Request → Client T × Bool
  unfolding headers_lookup unsupported
  check_required_options c req =
      let a = headers_lookup header_require req.headers in
      let b = headers_lookup header_proxy_require req.headers in
      elim a [
        | some r ↦ (unsupported c req (some r) b, false)
        | none ↦ elim b [ some r ↦ (unsupported c req none (some r), false) | none ↦ (c, true) ]
      ]

  module _ (methods : Method → Client T → Request → Outcome (Client T)) where
    -- `methods[req->method_id](client, req)`: the table has no function for the other codes.
    pub dispatch : Client T → Request → Outcome (Client T)
    unfolding method_of
    dispatch c req = elim (method_of req.method_id) [
      | none ↦ fail null_pointer
      | some m ↦ methods m c req
    ]

    -- `rtsp_handle_request` on a request whose `CSeq` is new.
    pub handle_fresh : Client T → Request → Outcome (Client T)
    unfolding check_session check_required_options dispatch
    handle_fresh c req =
        let s = check_session c req in
        if not (s.1)
        then ok (s.0)
        else let o = check_required_options (s.0) req in
          if not (o.1) then ok (o.0) else dispatch (o.0) req

    -- `rtsp_handle_request`
    pub handle_request : Client T → Request → Outcome (Client T)
    unfolding cseq_of handle_fresh rtsp_quick_response
    handle_request c req = elim (cseq_of lib req) [
      | none ↦ ok (record (rtsp_quick_response lib.date c req 400) { pending_request = none })
      | some n ↦
          if leb n c.last_cseq
          then ok (record c { pending_request = none })
          else (handle_fresh (record c { last_cseq = n }) req >>= λ d.
              ok (record d { pending_request = none }))
    ]

  -- `RTSP_handle_new` on a request line of `n` bytes of a supported protocol.
  pub start_request : Client T → ℕ → Request → State → Outcome (Client T × Bool)
  unfolding response_send quick_response
  start_request c n req s =
      let c' = record c { status = s } in
      if leb req.method_id 1
      then ok (response_send c' (quick_response lib.date req req.proto 501), false)
      else ok (record c' { pending_request = some req; input = drop n c.input }, true)

  -- `RTSP_handle_new` on a request line of `n` bytes, by the protocol that it names.
  pub handle_line : Client T → ℕ → Request → Proto → Outcome (Client T × Bool)
  unfolding start_request response_send quick_response
  handle_line c n req rtsp10 = start_request c n req rtsp_headers
  handle_line c n req http10 = start_request c n req http_headers
  handle_line c n req http11 = start_request c n req http_headers
  handle_line c n req http_unsupported_version =
      ok (response_send c (quick_response lib.date req http10 505), false)
  handle_line c n req _ = ok (response_send c (quick_response lib.date req rtsp10 505), false)

  -- `RTSP_handle_new` by what the parser made of the input.
  pub handle_parsed : Client T → Line → Outcome (Client T × Bool)
  unfolding handle_line rtsp_quick_response
  handle_parsed c (bad_line req) = ok (rtsp_quick_response lib.date c req 400, false)
  handle_parsed c no_line = ok (c, false)
  handle_parsed c (line n req) = handle_line c n req req.proto

  -- `RTSP_handle_new`
  pub handle_new : Client T → Outcome (Client T × Bool)
  unfolding handle_interleaved handle_parsed
  handle_new c =
      if ltb (length c.input) 1
      then ok (c, false)
      else if byte c.input 0 == 36
      then handle_interleaved (record c { status = interleaved })
      else handle_parsed c (lib.parse_request_line c.input)

  -- `RTSP_handle_headers` once the last header is read; `rtsp_connection_limit` returns true at
  -- once.
  pub headers_done : Client T → Request → Client T
  headers_done c req = record c {
    pending_request =
        some (elim req.object [ none ↦ req | some o ↦ record req { uri = lib.uri_parse o } ]);
    status = rtsp_content;
  }

  -- `RTSP_handle_headers` on the pending request, by what the parser made of the input.
  pub handle_block : Client T → Request → Block → Outcome (Client T × Bool)
  unfolding headers_done rtsp_quick_response
  handle_block c req (bad_block hs) =
      let r = record req { headers = hs } in
      ok (rtsp_quick_response lib.date (record c { pending_request = some r }) r 400, false)
  handle_block c req (block hs n last) =
      let r = record req { headers = hs } in
      let c' = record c { pending_request = some r; input = drop n c.input } in
      if not last then ok (c', false) else ok (headers_done c' r, true)

  -- `RTSP_handle_headers`
  pub handle_headers : Client T → Outcome (Client T × Bool)
  unfolding handle_block
  handle_headers c = elim c.pending_request [
    | none ↦ fail null_pointer
    | some req ↦ handle_block c req (lib.read_headers req.headers c.input)
  ]

  module _ (methods : Method → Client T → Request → Outcome (Client T))
      (http : Client T → Outcome (Client T × Bool)) where
    -- `RTSP_handle_content`
    pub handle_content : Client T → Outcome (Client T × Bool)
    unfolding headers_lookup handle_request
    handle_content c = elim c.pending_request [
      | none ↦ fail null_pointer
      | some req ↦ elim (headers_lookup header_content_length req.headers) [
        | some n ↦ fail assertion
        | none ↦ (handle_request methods c req >>= λ d. ok (record d { status = begin }, true))
      ]
    ]

    -- The function that the loop of `RTSP_handler` calls in a state.
    unfoldable pub turn_in : State → Client T → Outcome (Client T × Bool)
    unfolding handle_new handle_headers handle_content handle_interleaved
    turn_in begin c = handle_new c
    turn_in rtsp_headers c = handle_headers c
    turn_in rtsp_content c = handle_content c
    turn_in interleaved c = handle_interleaved c
    turn_in _ c = http c

    -- One turn of the loop of `RTSP_handler`
    pub turn : Client T → Outcome (Client T × Bool)
    unfolding turn_in
    turn c = turn_in c.status c

    -- `RTSP_handler`
    pub handler : ℕ → Client T → Outcome (Client T)
    unfolding turn
    handler zero c = fail out_of_fuel
    handler (suc fuel) c = turn c >>= λ r. elim r.1 [ true ↦ handler fuel (r.0) | false ↦ ok (r.0) ]

    -- The conjuncts of `rtsp_process_complete` from each call on.
    pub whole_content : Client T → Outcome (Client T × Bool)
    unfolding handle_content
    whole_content c = handle_content c >>= λ t. conjunct t begin (λ f. ok (f, true))

    pub whole_headers : Client T → Outcome (Client T × Bool)
    unfolding handle_headers whole_content
    whole_headers c = handle_headers c >>= λ s. conjunct s rtsp_content whole_content

    pub whole_request : Client T → Outcome (Client T × Bool)
    unfolding handle_new whole_headers
    whole_request c = handle_new c >>= λ r. conjunct r rtsp_headers whole_headers

    -- `rtsp_process_complete`
    pub process_complete : Client T → Outcome (Client T × Bool)
    unfolding whole_request
    process_complete c = if same_state c.status begin then whole_request c else ok (c, false)
