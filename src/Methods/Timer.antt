-- ===== src/Methods/Timer.antt =====
-- The timer of a client, which PLAY starts and PAUSE stops (rtsp_method_play.c, rtsp_method_pause.c):
-- whether there is a session when `client_ev_timeout` of rtsp_client.c is called.
use is_rtsp_server.Base.{
  ℕ, ◌≡◌, Bool, true, false, not, ◌&&◌, Option, none, some, List, [], ◌∷◌, ◌==◌, if◌then◌else◌,
  if-cases, match-cases, Outcome, ok, fail, null_pointer, ◌>>=◌,
}
use is_rtsp_server.Protocol.{Request}
use is_rtsp_server.Client.{
  ServerState, server_init, server_ready, Range, Session, Client, response_send,
  rtsp_quick_response,
}
use is_rtsp_server.Methods.{
  Env, state_code, check_forbidden_path, current_state, check_invalid_state, check_path, path_of,
  url-cases, do_options, pause_session, pause_client, do_pause, parse_range_header, play_session,
  send_play_reply, is_broken_vlc, play_answer, play_range, play_in, do_play,
}

module _ {T : Type 0} where
  abbrev pub HasSession : Option (Session T) → Type 0
  HasSession none = ⊥
  HasSession (some s) = Unit

  -- A client has a session if its timer runs.
  abbrev pub IsTimed : Client T → Type 0
  IsTimed c = c.timer ≡ true → HasSession c.session

  abbrev pub Timed : Outcome (Client T) → Type 0
  Timed (fail f) = Unit
  Timed (ok d) = IsTimed d

  pub guarded_timer :
      (r : Client T × Bool) (o : Outcome (Client T))
      → IsTimed (r.0)
      → Timed o
      → Timed (if not r.1 then ok (r.0) else o)
  guarded_timer (d, true) o h k = k
  guarded_timer (d, false) o h k = h

  module _ (env : Env T) where
    invalid_timer :
        (c : Client T) (req : Request) (x : ServerState)
        → IsTimed c
        → IsTimed ((check_invalid_state env c req x).0)
    unfolding check_invalid_state response_send
    invalid_timer c req x h =
        if-cases (λ (r : Client T × Bool). IsTimed (r.0))
          (state_code (current_state env c) == state_code x) _ _ (λ e. h) (λ e. h)

    pub url_timer : (c : Client T) (req : Request) → IsTimed c → IsTimed ((check_path env c req).0)
    unfolding check_path rtsp_quick_response response_send
    url_timer c req h =
        match-cases (λ (r : Client T × Bool). IsTimed (r.0)) (path_of req.uri) _ _ (λ e. h)
          (λ u e.
            if-cases (λ (r : Client T × Bool). IsTimed (r.0)) (check_forbidden_path u) _ _ (λ f. h)
              (λ f. h))

    pub do_options-Timed : (c : Client T) (req : Request) → IsTimed c → Timed (do_options env c req)
    unfolding do_options response_send
    do_options-Timed c req h = h

    pub do_pause-Timed : (c : Client T) (req : Request) → IsTimed c → Timed (do_pause env c req)
    unfolding do_pause pause_client
    do_pause-Timed c req h =
        let a = check_invalid_state env c req server_init in
        let b = check_invalid_state env (a.0) req server_ready in
        let u = check_path env (b.0) req in
        let p = invalid_timer c req server_init h in
        let q = invalid_timer (a.0) req server_ready p in
        let r = url_timer (b.0) req q in
        guarded_timer a _ p (
          guarded_timer b _ q (
            url-cases env Timed (b.0) req _ (λ e. tt) (guarded_timer u _ r (of (u.0) u.0.session))))
      where
        paused :
            (c : Client T) (o : Outcome (Session T))
            → Timed (
                (o >>= λ t. ok (record c { session = some t; timer = false })) >>= λ d.
                ok (rtsp_quick_response env.date d req 200))
        paused c (fail f) = tt
        paused c (ok t) = unfold rtsp_quick_response response_send in (λ e. tt)

        of :
            (c : Client T) (o : Option (Session T))
            → Timed (
                (elim o [
                  | none ↦ fail null_pointer
                  | some s ↦
                      (pause_session env s s.play_requests >>= λ t.
                      ok (record c { session = some t; timer = false }))
                ])
                >>= λ d. ok (rtsp_quick_response env.date d req 200))
        of c none = tt
        of c (some s) = paused c (pause_session env s s.play_requests)

    play_reply-Timed :
        (c : Client T) (req : Request) (s t : Session T) (rs : List (Range T))
        → Timed (
            send_play_reply env (record c { session = some t }) req s rs >>= λ d.
            ok (record d { timer = true }))
    unfolding send_play_reply response_send
    play_reply-Timed c req s t [] = tt
    play_reply-Timed c req s t (r ∷ rs) = λ e. tt

    play_answer-Timed :
        (c : Client T) (req : Request) (t : Session T) (n : ℕ) → Timed (play_answer env c req t n)
    unfolding play_answer rtsp_quick_response response_send
    play_answer-Timed c req t n =
        if-cases Timed (n == 200) _ _ (λ e. play_reply-Timed c req t t t.play_requests) (λ e f. tt)

    played-Timed :
        (c : Client T) (req : Request) (o : Outcome (Session T × ℕ))
        → Timed (o >>= λ p. play_answer env c req (p.0) (p.1))
    played-Timed c req (fail f) = tt
    played-Timed c req (ok p) = play_answer-Timed c req (p.0) (p.1)

    play_range-Timed :
        (c : Client T) (req : Request) (s : Session T) → Timed (play_range env c req s)
    unfolding play_range rtsp_quick_response response_send
    play_range-Timed c req s =
        let r = parse_range_header env s req in
        if-cases Timed (not (r.1 == 200)) _ _ (λ e f. tt)
          (λ e.
            if-cases Timed (state_code r.0.cur_state == 2) _ _
              (λ f. play_answer-Timed c req (r.0) 200)
              (λ f. played-Timed c req (play_session env (r.0) r.0.play_requests)))

    stopped-Timed :
        (c : Client T) (req : Request) (o : Outcome (Session T))
        → Timed (o >>= λ t. play_range env (record c { timer = false }) req t)
    stopped-Timed c req (fail f) = tt
    stopped-Timed c req (ok t) = play_range-Timed (record c { timer = false }) req t

    play_in-Timed :
        (c : Client T) (req : Request) (o : Option (Session T)) → Timed (play_in env c req o)
    unfolding play_in
    play_in-Timed c req none = tt
    play_in-Timed c req (some s) =
        if-cases Timed (state_code s.cur_state == 2 && is_broken_vlc env req) _ _
          (λ e. stopped-Timed c req (pause_session env s s.play_requests))
          (λ e. play_range-Timed c req s)

    pub do_play-Timed : (c : Client T) (req : Request) → IsTimed c → Timed (do_play env c req)
    unfolding do_play
    do_play-Timed c req h =
        let a = check_invalid_state env c req server_init in
        let u = check_path env (a.0) req in
        let p = invalid_timer c req server_init h in
        let r = url_timer (a.0) req p in
        guarded_timer a _ p (
          url-cases env Timed (a.0) req _ (λ e. tt)
            (guarded_timer u _ r (play_in-Timed (u.0) req u.0.session)))
