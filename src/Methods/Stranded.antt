-- ===== src/Methods/Stranded.antt =====
-- The timer of a client after a PLAY (rtsp_method_play.c) and a TEARDOWN (rtsp_method_teardown.c), and
-- what `client_ev_timeout` of rtsp_client.c does then.
use Prim.Native.String.{String}
use is_rtsp_server.Base.{
  ℕ, ◌<◌, ◌≡◌, refl, sym, ap, subst, ◌∙◌, arith, Bool, true, false, not, ◌&&◌, Option, none, some,
  List, [], ◌∷◌, length, ◌==◌, if-cases, Outcome, ok, fail, null_pointer, ◌>>=◌,
}
use is_rtsp_server.Connection.{client_ev_timeout}
use is_rtsp_server.Protocol.{Request, header_range, headers_lookup}
use is_rtsp_server.Client.{
  server_init, server_ready, Range, Session, Client, response_send, rtsp_quick_response,
}
use is_rtsp_server.Methods.{
  Env, state_code, check_forbidden_path, current_state, check_invalid_state, check_path, check_url,
  session_free_lem, do_teardown, append_range, same_range, parse_range_header, is_multicast,
  play_session, send_play_reply, is_broken_vlc, play_answer, play_range, play_in, do_play,
}
use is_rtsp_server.Methods.Played.{append_some}

module _ {T : Type 0} (env : Env T) where
  -- The call returned, and the timer runs.
  abbrev Starts : Outcome (Client T) → Type 0
  Starts (fail f) = ⊥
  Starts (ok d) = d.timer ≡ true

  -- A session with a range to play, and the code of success.
  abbrev Playable : Outcome (Session T × ℕ) → Type 0
  Playable (fail f) = ⊥
  Playable (ok p) = (0 < length p.0.play_requests) × (p.1 ≡ 200)

  reply-Starts :
      (c : Client T) (req : Request) (t : Session T) (rs : List (Range T))
      → 0 < length rs
      → Starts (send_play_reply env c req t rs >>= λ d. ok (record d { timer = true }))
  unfolding send_play_reply response_send
  reply-Starts c req t [] h = omega (arith, h)
  reply-Starts c req t (r ∷ rs) h = refl

  answer-Starts :
      (c : Client T) (req : Request) (t : Session T)
      → 0 < length t.play_requests
      → Starts (play_answer env c req t 200)
  unfolding play_answer
  answer-Starts c req t h = reply-Starts (record c { session = some t }) req t t.play_requests h

  answered-Starts :
      (c : Client T) (req : Request) (o : Outcome (Session T × ℕ))
      → Playable o
      → Starts (o >>= λ p. play_answer env c req (p.0) (p.1))
  answered-Starts c req (fail f) h = h
  answered-Starts c req (ok p) h =
      subst (λ n. Starts (play_answer env c req (p.0) n)) (sym (h.1))
        (answer-Starts c req (p.0) (h.0))

  same_range-Playable : (s : Session T) (rs : List (Range T)) → Playable (ok (same_range env s rs))
  unfolding same_range append_range
  same_range-Playable s [] = (append_some env _ _, refl)
  same_range-Playable s (r ∷ rs) = (omega arith, refl)

  play_session-Playable :
      (s : Session T) (rs : List (Range T))
      → ((t : T) → env.seek_fails t ≡ false)
      → 0 < length rs
      → 0 < length s.play_requests
      → Playable (play_session env s rs)
  unfolding play_session
  play_session-Playable s [] f h k = omega (arith, h)
  play_session-Playable s (r ∷ rs) f h k =
      if-cases Playable (s.seekable && env.seek_fails r.begin_time) _ _
        (λ e. absurd (let g = f r.begin_time in ground (arith, e, g)))
        (λ e.
          if-cases Playable (is_multicast env s.rtp_sessions) _ _ (λ g. (k, refl)) (λ g. (k, refl)))

  play_range-Starts :
      (c : Client T) (req : Request) (s : Session T)
      → ((t : T) → env.seek_fails t ≡ false)
      → headers_lookup header_range req.headers ≡ none
      → Starts (play_range env c req s)
  unfolding play_range parse_range_header
  play_range-Starts c req s f h =
      rw (play_range, parse_range_header, h)
        (let r = same_range env s s.play_requests in
          let p = same_range-Playable s s.play_requests in
          if-cases Starts (not (r.1 == 200)) _ _ (λ e. absurd (let g = p.1 in ground (arith, e, g)))
            (λ e.
              if-cases Starts (state_code r.0.cur_state == 2) _ _
                (λ g. answer-Starts c req (r.0) (p.0))
                (λ g.
                  answered-Starts c req (play_session env (r.0) r.0.play_requests)
                    (play_session-Playable (r.0) r.0.play_requests f (p.0) (p.0)))))

  url_allowed :
      (c : Client T) (req : Request) (path : String)
      → req.uri ≡ some (some path)
      → check_forbidden_path path ≡ true
      → check_url env c req ≡ ok (c, true)
  unfolding check_url check_path
  url_allowed c req path e f = rw (check_url, check_path, e, f)

  -- A PLAY that returns, and then a TEARDOWN and the call of `client_ev_timeout` for the timer.
  abbrev pub Stranded : ℕ → Client T → Request → Request → Type 0
  Stranded now c again last =
      (d : Client T) × (e : Client T) × (do_play env c again ≡ ok d)
      × (do_teardown env d last ≡ ok e)
      × (e.timer ≡ true)
      × (client_ev_timeout now e ≡ fail null_pointer)

  torn :
      (now : ℕ) (c : Client T) (again last : Request) (path : String)
      → last.uri ≡ some (some path)
      → check_forbidden_path path ≡ true
      → env.pause_hangs ≡ false
      → (o : Outcome (Client T)) → do_play env c again ≡ o
      → Starts o
      → Stranded now c again last
  unfolding do_teardown rtsp_quick_response response_send client_ev_timeout
  torn now c again last path e f q (fail x) p h = absurd h
  torn now c again last path e f q (ok d) p h = (
    d,
    rtsp_quick_response env.date (record d { session = none }) last 200,
    p,
    rw (do_teardown, url_allowed d last path e f, session_free_lem env d.session q) refl,
    h,
    refl,
  )

  ready_passes :
      (c : Client T) (req : Request) (s : Session T)
      → c.session ≡ some s
      → s.cur_state ≡ server_ready
      → check_invalid_state env c req server_init ≡ (c, true)
  unfolding check_invalid_state
  ready_passes c req s e r =
      let n : state_code (current_state env c) ≡ 1 =
        ap
          (λ (o : Option (Session T)).
            state_code (elim o [ none ↦ server_init | some t ↦ t.cur_state ]))
          e
        ∙ ap state_code r in
      if-cases (λ (x : Client T × Bool). x ≡ (c, true)) (state_code (current_state env c) == 0) _ _
        (λ f. absurd (ground (arith, f, n))) (λ f. refl)

  play_in-Starts :
      (c : Client T) (req : Request) (s : Session T)
      → s.cur_state ≡ server_ready
      → ((t : T) → env.seek_fails t ≡ false)
      → headers_lookup header_range req.headers ≡ none
      → Starts (play_in env c req (some s))
  unfolding play_in
  play_in-Starts c req s r f h =
      let n : state_code s.cur_state ≡ 1 = ap state_code r in
      if-cases Starts (state_code s.cur_state == 2 && is_broken_vlc env req) _ _
        (λ e. absurd (ground (arith, e, n))) (λ e. play_range-Starts c req s f h)

  do_play-Starts :
      (c : Client T) (req : Request) (s : Session T) (path : String)
      → c.session ≡ some s
      → s.cur_state ≡ server_ready
      → req.uri ≡ some (some path)
      → check_forbidden_path path ≡ true
      → headers_lookup header_range req.headers ≡ none
      → ((t : T) → env.seek_fails t ≡ false)
      → Starts (do_play env c req)
  unfolding do_play
  do_play-Starts c req s path e r u a h f =
      rw (do_play, ready_passes c req s e r, url_allowed c req path u a)
        (subst (λ o. Starts (play_in env c req o)) (sym e) (play_in-Starts c req s r f h))

  -- A client with a session in the state ready sends a PLAY without a range and then a TEARDOWN, both
  -- of allowed paths. If the resource can seek where it is asked to, and no call of `r_pause` hangs:
  -- both return, and the timer that the PLAY started runs on, so that when it fires,
  -- `client_ev_timeout` uses a null pointer.
  pub do_teardown-do_play :
      (now : ℕ) (c : Client T) (s : Session T) (again last : Request) (path path' : String)
      → c.session ≡ some s
      → s.cur_state ≡ server_ready
      → again.uri ≡ some (some path)
      → check_forbidden_path path ≡ true
      → headers_lookup header_range again.headers ≡ none
      → last.uri ≡ some (some path')
      → check_forbidden_path path' ≡ true
      → ((t : T) → env.seek_fails t ≡ false)
      → env.pause_hangs ≡ false
      → Stranded now c again last
  do_teardown-do_play now c s again last path path' e r u a h v b f q =
      torn now c again last path' v b q (do_play env c again) refl
        (do_play-Starts c again s path e r u a h f)
