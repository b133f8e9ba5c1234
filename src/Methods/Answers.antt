-- ===== src/Methods/Answers.antt =====
-- The responses of the methods (rtsp_method_*.c, rtsp_utils.c): each call sends one, for its request.
use Prim.Native.String.{String}
use is_rtsp_server.Base.{
  ℕ, ◌≡◌, refl, ap, ◌∙◌, arith, Bool, true, false, not, ◌&&◌, Option, none, some, List, [], ◌∷◌,
  ◌++◌, ◌==◌, if◌then◌else◌, if-cases, match-cases, Outcome, ok, fail, ◌>>=◌,
}
use is_rtsp_server.Protocol.{
  header_allow, header_public, header_range, header_rtp_info, Request, Response, headers_set,
  response_new, rtsp10,
}
use is_rtsp_server.Protocol.Echo.{IsFor, with_header, added-IsFor, quick_response-IsFor}
use is_rtsp_server.Client.{
  ServerState, server_init, server_ready, Range, Session, Client, response_send,
  rtsp_quick_response,
}
use is_rtsp_server.Methods.{
  Env, state_code, check_forbidden_path, current_state, check_invalid_state, check_path, path_of,
  url-cases, session_free, do_options, do_teardown, pause_session, pause_client, do_pause,
  parse_range_header, play_session, range_text, send_play_reply, is_broken_vlc, play_answer,
  play_range, play_in, do_play,
}

module _ {T : Type 0} where
  -- A call that returned has sent one response more, for the request.
  abbrev pub Answers : Request → Client T → Outcome (Client T) → Type 0
  Answers req c (fail f) = Unit
  Answers req c (ok d) = (r : Response) × (d.sent ≡ c.sent ++ r ∷ []) × IsFor req r

  -- A check let the request pass, or it has answered it.
  abbrev pub Checked : Request → Client T → Client T × Bool → Type 0
  Checked req c (d, true) = d.sent ≡ c.sent
  Checked req c (d, false) = Answers req c (ok d)

  pub guarded :
      (req : Request) (c : Client T) (r : Client T × Bool) (o : Outcome (Client T))
      → Checked req c r
      → (r.0.sent ≡ c.sent → Answers req c o)
      → Answers req c (if not r.1 then ok (r.0) else o)
  guarded req c (d, true) o h k = k h
  guarded req c (d, false) o h k = h

  pub Answers-carry :
      (req : Request) (c d : Client T) (o : Outcome (Client T))
      → d.sent ≡ c.sent
      → Answers req d o
      → Answers req c o
  Answers-carry req c d (fail f) e a = tt
  Answers-carry req c d (ok x) e (r, a, i) = (r, a ∙ ap (λ rs. rs ++ r ∷ []) e, i)

  pub Checked-carry :
      (req : Request) (c d : Client T) (r : Client T × Bool)
      → d.sent ≡ c.sent
      → Checked req d r
      → Checked req c r
  Checked-carry req c d (x, true) e h = h ∙ e
  Checked-carry req c d (x, false) e h = Answers-carry req c d (ok x) e h

  -- What is answered with a code.
  pub quick-Answers :
      (date : String) (req : Request) (c : Client T) (n : ℕ)
      → Answers req c (ok (rtsp_quick_response date c req n))
  unfolding rtsp_quick_response response_send
  quick-Answers date req c n = (_, refl, quick_response-IsFor date req rtsp10 n)

  module _ (env : Env T) where
    pub invalid-Checked :
        (c : Client T) (req : Request) (x : ServerState)
        → Checked req c (check_invalid_state env c req x)
    unfolding check_invalid_state response_send
    invalid-Checked c req x =
        if-cases (Checked req c) (state_code (current_state env c) == state_code x) _ _
          (λ e. (_, refl, added-IsFor env.date req 455 header_allow _ (omega arith))) (λ e. refl)

    pub url-Checked : (c : Client T) (req : Request) → Checked req c (check_path env c req)
    unfolding check_path
    url-Checked c req =
        match-cases (Checked req c) (path_of req.uri) _ _ (λ e. quick-Answers env.date req c 400)
          (λ u e.
            if-cases (Checked req c) (check_forbidden_path u) _ _ (λ f. refl)
              (λ f. quick-Answers env.date req c 403))

    pub do_options-Answers : (c : Client T) (req : Request) → Answers req c (do_options env c req)
    unfolding do_options response_send
    do_options-Answers c req = (_, refl, added-IsFor env.date req 200 header_public _ (omega arith))

    pub do_teardown-Answers : (c : Client T) (req : Request) → Answers req c (do_teardown env c req)
    unfolding do_teardown
    do_teardown-Answers c req =
        url-cases env (Answers req c) c req _ (λ e. tt)
          (guarded req c (check_path env c req) _ (url-Checked c req) (λ e.
            let d = record ((check_path env c req).0) { session = none } in
            freed _ (session_free env (check_path env c req).0.session) (
              Answers-carry req c d (ok (rtsp_quick_response env.date d req 200)) e
                (quick-Answers env.date req d 200))))
      where
        freed :
            (m : Outcome (Client T)) (o : Outcome (Unit {0}))
            → Answers req c m
            → Answers req c (o >>= λ _. m)
        freed m (fail f) a = tt
        freed m (ok u) a = a

    pause-Answers :
        (c : Client T) (req : Request)
        → Answers req c (pause_client env c >>= λ d. ok (rtsp_quick_response env.date d req 200))
    unfolding pause_client
    pause-Answers c req =
        match-cases
          (λ (o : Outcome (Client T)).
            Answers req c (o >>= λ d. ok (rtsp_quick_response env.date d req 200)))
          c.session _ _ (λ e. tt) (λ s e. paused (pause_session env s s.play_requests))
      where
        paused :
            (o : Outcome (Session T))
            → Answers req c (
                (o >>= λ t. ok (record c { session = some t; timer = false })) >>= λ d.
                ok (rtsp_quick_response env.date d req 200))
        paused (fail f) = tt
        paused (ok t) =
            quick-Answers env.date req (record c { session = some t; timer = false }) 200

    pub do_pause-Answers : (c : Client T) (req : Request) → Answers req c (do_pause env c req)
    unfolding do_pause
    do_pause-Answers c req =
        let a = check_invalid_state env c req server_init in
        let b = check_invalid_state env (a.0) req server_ready in
        let u = check_path env (b.0) req in
        guarded req c a _ (invalid-Checked c req server_init) (λ e.
          guarded req c b _ (Checked-carry req c (a.0) b e (invalid-Checked (a.0) req server_ready))
            (λ f.
              url-cases env (Answers req c) (b.0) req _ (λ g. tt)
                (guarded req c u _ (Checked-carry req c (b.0) u f (url-Checked (b.0) req))
                  (λ g. Answers-carry req c (u.0) _ g (pause-Answers (u.0) req)))))

    play_reply-Answers :
        (c : Client T) (req : Request) (s : Session T) (rs : List (Range T))
        → Answers req c (send_play_reply env c req s rs >>= λ d. ok (record d { timer = true }))
    unfolding send_play_reply response_send
    play_reply-Answers c req s [] = tt
    play_reply-Answers c req s (r ∷ rs) = (
      _,
      refl,
      with_header req header_rtp_info _
          (headers_set header_range (range_text env r) (response_new env.date req 200).headers)
          (omega arith) (added-IsFor env.date req 200 header_range _ (omega arith)),
    )

    play_answer-Answers :
        (c : Client T) (req : Request) (t : Session T) (n : ℕ)
        → Answers req c (play_answer env c req t n)
    unfolding play_answer
    play_answer-Answers c req t n =
        if-cases (Answers req c) (n == 200) _ _
          (λ e. play_reply-Answers (record c { session = some t }) req t t.play_requests)
          (λ e. quick-Answers env.date req (record c { session = some t }) n)

    played-Answers :
        (c : Client T) (req : Request) (o : Outcome (Session T × ℕ))
        → Answers req c (o >>= λ p. play_answer env c req (p.0) (p.1))
    played-Answers c req (fail f) = tt
    played-Answers c req (ok p) = play_answer-Answers c req (p.0) (p.1)

    play_range-Answers :
        (c : Client T) (req : Request) (s : Session T) → Answers req c (play_range env c req s)
    unfolding play_range
    play_range-Answers c req s =
        let r = parse_range_header env s req in
        if-cases (Answers req c) (not (r.1 == 200)) _ _
          (λ e. quick-Answers env.date req (record c { session = some (r.0) }) (r.1))
          (λ e.
            if-cases (Answers req c) (state_code r.0.cur_state == 2) _ _
              (λ f. play_answer-Answers c req (r.0) 200)
              (λ f. played-Answers c req (play_session env (r.0) r.0.play_requests)))

    stopped-Answers :
        (c : Client T) (req : Request) (o : Outcome (Session T))
        → Answers req c (o >>= λ t. play_range env (record c { timer = false }) req t)
    stopped-Answers c req (fail f) = tt
    stopped-Answers c req (ok t) = play_range-Answers (record c { timer = false }) req t

    play_in-Answers :
        (c : Client T) (req : Request) (o : Option (Session T))
        → Answers req c (play_in env c req o)
    unfolding play_in
    play_in-Answers c req none = tt
    play_in-Answers c req (some s) =
        if-cases (Answers req c) (state_code s.cur_state == 2 && is_broken_vlc env req) _ _
          (λ e. stopped-Answers c req (pause_session env s s.play_requests))
          (λ e. play_range-Answers c req s)

    pub do_play-Answers : (c : Client T) (req : Request) → Answers req c (do_play env c req)
    unfolding do_play
    do_play-Answers c req =
        let a = check_invalid_state env c req server_init in
        let u = check_path env (a.0) req in
        guarded req c a _ (invalid-Checked c req server_init) (λ e.
          url-cases env (Answers req c) (a.0) req _ (λ f. tt)
            (guarded req c u _ (Checked-carry req c (a.0) u e (url-Checked (a.0) req))
              (λ f. Answers-carry req c (u.0) _ f (play_in-Answers (u.0) req u.0.session))))
