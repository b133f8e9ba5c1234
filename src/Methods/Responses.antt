-- ===== src/Methods/Responses.antt =====
-- One response for each call of a method of RTSP (rtsp_method_*.c).
use Prim.Native.String.{String}
use is_rtsp_server.Base.{
  ◌≡◌, refl, arith, Option, none, some, List, [], ◌∷◌, length, ◌++◌, match-cases, All, Outcome, ok,
  fail, null_pointer, ◌>>=◌,
}
use is_rtsp_server.Protocol.{
  Method, describe, options, pause, play, setup, teardown, Request, Response, header_session,
  header_transport, header_content_base, header_content_type, headers_set, response_new,
}
use is_rtsp_server.Protocol.Echo.{IsFor, with_header, added-IsFor}
use is_rtsp_server.Client.{Track, Session, Client, response_send, rtsp_quick_response}
use is_rtsp_server.Methods.{Env, check_path, url-cases, method_table}
use is_rtsp_server.Methods.Kept.{HasRange, Kept}
use is_rtsp_server.Methods.Setup.{
  ParsedTransport, Outside, fresh, select_requested_track, try_transports, rtp_session_new,
  set_ready, send_setup_reply, setup_track, setup_session, offered, session_or_new, setup_offered,
  do_setup,
}
use is_rtsp_server.Methods.Describe.{session_descr, describe_answer, do_describe}
use is_rtsp_server.Methods.Ready.{IsProper, Supported}
use is_rtsp_server.Methods.Served.{AreDescribed, method_table-Served}
use is_rtsp_server.Methods.Answers.{
  Answers, guarded, Answers-carry, quick-Answers, url-Checked, do_options-Answers,
  do_teardown-Answers, do_pause-Answers, do_play-Answers,
}
use is_rtsp_server.Methods.Selecting.{Chosen, select-Chosen, Quiet, try_transports-Quiet}

module _ {T : Type 0} where
  -- The call returned, and has sent one response more, for the request.
  abbrev pub AnswersOnce : Request → Client T → Outcome (Client T) → Type 0
  AnswersOnce req c (fail f) = ⊥
  AnswersOnce req c (ok d) = (r : Response) × (d.sent ≡ c.sent ++ r ∷ []) × IsFor req r

module _ {T : Type 0} (env : Env T) (out : Outside T) where
  reply-Answers :
      (d c : Client T) (req : Request) (s : Session T) (object : String) (k : Track) (text : String)
      → d.sent ≡ c.sent
      → Answers req c (
          let s' = record s {
            rtp_sessions = s.rtp_sessions ++ rtp_session_new env out object k ∷ [];
          } in
          let e = send_setup_reply env out (record d { session = some s' }) req s' text in
          ok (record e { session = some (set_ready env out s') }))
  unfolding send_setup_reply response_send
  reply-Answers d c req s object k text e =
      Answers-carry req c d
        (ok (
          response_send d (record (response_new env.date req 200) {
            headers =
                headers_set header_session s.session_id
                  (headers_set header_transport text (response_new env.date req 200).headers);
          })))
        e
        (
          _,
          refl,
          with_header req header_session s.session_id
              (headers_set header_transport text (response_new env.date req 200).headers)
              (omega arith) (added-IsFor env.date req 200 header_transport text (omega arith)),
        )

  setup_track-Answers :
      (c : Client T) (req : Request) (s : Session T) (object : String) (k : Track)
      (ps : List ParsedTransport)
      → Answers req c (setup_track env out c req s object k ps)
  unfolding setup_track
  setup_track-Answers c req s object k ps =
      tried (try_transports env out c (length s.rtp_sessions) fresh ps)
        (try_transports-Quiet env out c (length s.rtp_sessions) fresh ps)
    where
      tried :
          (o : Outcome (Client T × Option String))
          → Quiet env out c o
          → Answers req c (
              o >>= λ r. elim r.1 [
                | none ↦ ok (rtsp_quick_response env.date (r.0) req 461)
                | some text ↦
                    let s' = record s {
                      rtp_sessions = s.rtp_sessions ++ rtp_session_new env out object k ∷ [];
                    } in
                    let e =
                      send_setup_reply env out (record (r.0) { session = some s' }) req s' text in
                    ok (record e { session = some (set_ready env out s') })
              ])
      tried (fail f) q = tt
      tried (ok (d, none)) q =
          Answers-carry req c d (ok (rtsp_quick_response env.date d req 461)) q
            (quick-Answers env.date req d 461)
      tried (ok (d, some text)) q = reply-Answers d c req s object k text q

  setup_session-Answers :
      (c : Client T) (req : Request) (s : Session T) (ps : List ParsedTransport)
      → Answers req c (setup_session env out c req s ps)
  unfolding setup_session
  setup_session-Answers c req s ps =
      chosen (select_requested_track env out c req s) (select-Chosen env out c req s)
    where
      chosen :
          (o : Outcome (Client T × Session T × Option Track))
          → Chosen env out req c o
          → Answers req c (
              o >>= λ r. elim r.2 [
                | none ↦ ok (r.0)
                | some t ↦ elim req.object [
                  | none ↦ fail null_pointer
                  | some object ↦ setup_track env out (r.0) req (r.1) object t ps
                ]
              ])
      chosen (fail f) q = tt
      chosen (ok (d, t, none)) q = q
      chosen (ok (d, t, some k)) q =
          match-cases (Answers req c) req.object _ _ (λ e. tt)
            (λ object e.
              Answers-carry req c d (setup_track env out d req t object k ps) q
                (setup_track-Answers d req t object k ps))

  do_setup-Answers : (c : Client T) (req : Request) → Answers req c (do_setup env out c req)
  unfolding do_setup setup_offered
  do_setup-Answers c req =
      let u = (check_path env c req).0 in
      url-cases env (Answers req c) c req _ (λ e. tt)
        (guarded req c (check_path env c req) _ (url-Checked env c req) (λ e.
          Answers-carry req c u (setup_offered env out u req (offered env out req)) e
            (of u (offered env out req))))
    where
      of :
          (u : Client T) (ps : List ParsedTransport)
          → Answers req u (setup_offered env out u req ps)
      of u [] = quick-Answers env.date req u 461
      of u (p ∷ ps) =
          let s = session_or_new env out u.session in
          setup_session-Answers (record u { session = some s }) req s (p ∷ ps)

  described-Answers :
      (c : Client T) (req : Request) (o : Option String)
      → Answers req c (ok (describe_answer env out c req o))
  unfolding describe_answer response_send
  described-Answers c req none = quick-Answers env.date req c 404
  described-Answers c req (some text) = (
    _,
    refl,
    with_header req header_content_base _
        (headers_set header_content_type "application/sdp" (response_new env.date req 200).headers)
        (omega arith) (added-IsFor env.date req 200 header_content_type _ (omega arith)),
  )

  do_describe-Answers : (c : Client T) (req : Request) → Answers req c (do_describe env out c req)
  unfolding do_describe
  do_describe-Answers c req =
      url-cases env (Answers req c) c req _ (λ e. tt)
        (guarded req c (check_path env c req) _ (url-Checked env c req)
          (λ e. of ((check_path env c req).0) e (session_descr env out req)))
    where
      of :
          (u : Client T)
          → u.sent ≡ c.sent
          → (o : Outcome (Option String))
          → Answers req c (o >>= λ d. ok (describe_answer env out u req d))
      of u e (fail f) = tt
      of u e (ok d) =
          Answers-carry req c u (ok (describe_answer env out u req d)) e (described-Answers u req d)

  method-Answers :
      (m : Method) (c : Client T) (req : Request)
      → Answers req c (method_table env (do_describe env out) (do_setup env out) m c req)
  unfolding method_table
  method-Answers describe c req = do_describe-Answers c req
  method-Answers setup c req = do_setup-Answers c req
  method-Answers options c req = do_options-Answers env c req
  method-Answers pause c req = do_pause-Answers env c req
  method-Answers play c req = do_play-Answers env c req
  method-Answers teardown c req = do_teardown-Answers env c req

  returned :
      (m : Method) (req : Request) (c : Client T) (o : Outcome (Client T))
      → Kept m c o
      → Answers req c o
      → AnswersOnce req c o
  returned m req c (fail f) k a = k
  returned m req c (ok d) k a = a

  -- Under the conditions of `method_table-Served`, each of the six methods returns on any client
  -- and has then sent exactly one response more, whose `CSeq` header is that of the request (neither
  -- has one if the request has none).
  pub method_table-AnswersOnce :
      (m : Method) (c : Client T) (req : Request)
      → IsProper env out req
      → All (Supported out) (offered env out req)
      → AreDescribed env out
      → HasRange c.session
      → AnswersOnce req c (method_table env (do_describe env out) (do_setup env out) m c req)
  method_table-AnswersOnce m c req p q d h =
      returned m req c (method_table env (do_describe env out) (do_setup env out) m c req)
        (method_table-Served env out m c req p q d h) (method-Answers m c req)
