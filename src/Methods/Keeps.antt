-- ===== src/Methods/Keeps.antt =====
-- What each method of RTSP (rtsp_method_*.c) leaves as it was, whether it succeeds or not.
use is_rtsp_server.Base.{
  ℕ, ◌≢◌, refl, ◌∙◌, Bool, true, false, not, ◌&&◌, Option, none, some, List, [], ◌∷◌, ◌==◌,
  if◌then◌else◌, if-cases, match-cases, Outcome, ok, fail, out_of_fuel, ◌>>=◌,
}
use is_rtsp_server.Protocol.{Request}
use is_rtsp_server.Client.{
  server_init, server_ready, Range, RtpSession, Session, Client, response_send, rtsp_quick_response,
}
use is_rtsp_server.Methods.{
  Env, state_code, check_invalid_state, check_path, check_url, url-cases, pause_all, session_free,
  do_options, do_teardown, pause_session, pause_client, do_pause, parse_range_header, is_multicast,
  play_session, send_play_reply, is_broken_vlc, play_answer, play_range, play_in, do_play,
}
use is_rtsp_server.Methods.Kept.{Same, Passed, invalid-Passed, url-Passed}

-- A call does not fail for want of fuel.
abbrev pub Fuelled : {A : Type 0} → Outcome A → Type 0
Fuelled (fail f) = f ≢ out_of_fuel
Fuelled (ok a) = Unit

pub both_run :
    {A B : Type 0} (o : Outcome A) (k : A → Outcome B)
    → Fuelled o
    → ((a : A) → Fuelled (k a))
    → Fuelled (o >>= k)
both_run (fail f) k h g = h
both_run (ok a) k h g = g a

module _ {T : Type 0} where
  -- The call does not fail for want of fuel, and if it returns, it kept the input, the state of the
  -- parser and the number of the last request of the client that `get` finds in the result.
  abbrev pub KeepsIn : {A : Type 0} → (A → Client T) → Client T → Outcome A → Type 0
  KeepsIn get c (fail f) = f ≢ out_of_fuel
  KeepsIn get c (ok a) = Same c (get a)

  abbrev pub Keeps : Client T → Outcome (Client T) → Type 0
  Keeps c o = KeepsIn (λ d. d) c o

  pub Same-twice : (c d e : Client T) → Same c d → Same d e → Same c e
  Same-twice c d e p q = (q.0 ∙ p.0, q.1 ∙ p.1, q.2 ∙ p.2)

  pub carry :
      {A : Type 0} (get : A → Client T) (c d : Client T) (o : Outcome A)
      → Same c d
      → KeepsIn get d o
      → KeepsIn get c o
  carry get c d (fail f) p k = k
  carry get c d (ok a) p k = Same-twice c d (get a) p k

  pub kept_then :
      {A B : Type 0} (get : A → Client T) (put : B → Client T) (c : Client T) (o : Outcome A)
      (k : A → Outcome B)
      → KeepsIn get c o
      → ((a : A) → KeepsIn put (get a) (k a))
      → KeepsIn put c (o >>= k)
  kept_then get put c (fail f) k h g = h
  kept_then get put c (ok a) k h g = carry put c (get a) (k a) h (g a)

  pub run_then :
      {A B : Type 0} (put : B → Client T) (c : Client T) (o : Outcome A) (k : A → Outcome B)
      → Fuelled o
      → ((a : A) → KeepsIn put c (k a))
      → KeepsIn put c (o >>= k)
  run_then put c (fail f) k h g = h
  run_then put c (ok a) k h g = g a

  pub guarded :
      (c : Client T) (r : Client T × Bool) (o : Outcome (Client T))
      → Passed c (r.0)
      → Keeps (r.0) o
      → Keeps c (if not r.1 then ok (r.0) else o)
  guarded c (d, true) o p k = carry (λ x. x) c d o (p.1) k
  guarded c (d, false) o p k = p.1

  pub same : (c : Client T) → Same c c
  same c = (refl, refl, refl)

  module _ (env : Env T) where
    pub quick :
        (c : Client T) (req : Request) (n : ℕ) → Same c (rtsp_quick_response env.date c req n)
    unfolding rtsp_quick_response response_send
    quick c req n = (refl, refl, refl)

    pub checked :
        (c : Client T) (req : Request) (k : Client T × Bool → Outcome (Client T))
        → Keeps c (k (check_path env c req))
        → Keeps c (check_url env c req >>= k)
    checked c req k h = url-cases env (Keeps c) c req k (λ e f. cc) h

    pub do_options-Keeps : (c : Client T) (req : Request) → Keeps c (do_options env c req)
    unfolding do_options response_send
    do_options-Keeps c req = (refl, refl, refl)

    pause_all-Fuelled : (rs : List (RtpSession T)) → Fuelled (pause_all env rs)
    unfolding pause_all
    pause_all-Fuelled [] = tt
    pause_all-Fuelled (r ∷ rs) =
        if-cases Fuelled (not r.live && env.pause_hangs) _ _ (λ e f. cc) (λ e. pause_all-Fuelled rs)

    free-Fuelled : (o : Option (Session T)) → Fuelled (session_free env o)
    unfolding session_free
    free-Fuelled none = tt
    free-Fuelled (some s) = pause_all-Fuelled s.rtp_sessions

    pub do_teardown-Keeps : (c : Client T) (req : Request) → Keeps c (do_teardown env c req)
    unfolding do_teardown
    do_teardown-Keeps c req =
        let u = (check_path env c req).0 in
        checked c req _ (
          guarded c (check_path env c req) _ (url-Passed env c req) (
            run_then (λ x. x) u (session_free env u.session) _ (free-Fuelled u.session)
              (λ a. quick (record u { session = none }) req 200)))

    pause-Fuelled : (s : Session T) (rs : List (Range T)) → Fuelled (pause_session env s rs)
    unfolding pause_session
    pause-Fuelled s [] = λ f. cc
    pause-Fuelled s (r ∷ rs) =
        both_run (pause_all env s.rtp_sessions) _ (pause_all-Fuelled s.rtp_sessions) (λ a. tt)

    pause_client-Keeps : (c : Client T) → Keeps c (pause_client env c)
    unfolding pause_client
    pause_client-Keeps c =
        match-cases (Keeps c) c.session _ _ (λ e f. cc)
          (λ s e.
            run_then (λ x. x) c (pause_session env s s.play_requests) _
              (pause-Fuelled s s.play_requests) (λ t. (refl, refl, refl)))

    pub do_pause-Keeps : (c : Client T) (req : Request) → Keeps c (do_pause env c req)
    unfolding do_pause
    do_pause-Keeps c req =
        let a = check_invalid_state env c req server_init in
        let b = check_invalid_state env (a.0) req server_ready in
        let u = check_path env (b.0) req in
        guarded c a _ (invalid-Passed env c req server_init) (
          guarded (a.0) b _ (invalid-Passed env (a.0) req server_ready) (
            checked (b.0) req _ (
              guarded (b.0) u _ (url-Passed env (b.0) req) (
                kept_then (λ x. x) (λ x. x) (u.0) (pause_client env (u.0)) _
                  (pause_client-Keeps (u.0)) (λ d. quick d req 200)))))

    play_session-Fuelled : (s : Session T) (rs : List (Range T)) → Fuelled (play_session env s rs)
    unfolding play_session
    play_session-Fuelled s [] = λ f. cc
    play_session-Fuelled s (r ∷ rs) =
        if-cases Fuelled (s.seekable && env.seek_fails r.begin_time) _ _ (λ e. tt)
          (λ e. if-cases Fuelled (is_multicast env s.rtp_sessions) _ _ (λ f. tt) (λ f. tt))

    reply-Keeps :
        (c : Client T) (req : Request) (s : Session T) (rs : List (Range T))
        → Keeps c (send_play_reply env c req s rs)
    unfolding send_play_reply response_send
    reply-Keeps c req s [] = λ f. cc
    reply-Keeps c req s (r ∷ rs) = (refl, refl, refl)

    play_answer-Keeps :
        (c : Client T) (req : Request) (t : Session T) (n : ℕ) → Keeps c (play_answer env c req t n)
    unfolding play_answer
    play_answer-Keeps c req t n =
        let d = record c { session = some t } in
        if-cases (Keeps c) (n == 200) _ _
          (λ e.
            kept_then (λ x. x) (λ x. x) d (send_play_reply env d req t t.play_requests) _
              (reply-Keeps d req t t.play_requests) (λ x. (refl, refl, refl)))
          (λ e. quick d req n)

    play_range-Keeps :
        (c : Client T) (req : Request) (s : Session T) → Keeps c (play_range env c req s)
    unfolding play_range
    play_range-Keeps c req s =
        let r = parse_range_header env s req in
        if-cases (Keeps c) (not (r.1 == 200)) _ _
          (λ e. quick (record c { session = some (r.0) }) req (r.1))
          (λ e.
            if-cases (Keeps c) (state_code r.0.cur_state == 2) _ _
              (λ f. play_answer-Keeps c req (r.0) 200)
              (λ f.
                run_then (λ x. x) c (play_session env (r.0) r.0.play_requests) _
                  (play_session-Fuelled (r.0) r.0.play_requests)
                  (λ p. play_answer-Keeps c req (p.0) (p.1))))

    play_in-Keeps :
        (c : Client T) (req : Request) (o : Option (Session T)) → Keeps c (play_in env c req o)
    unfolding play_in
    play_in-Keeps c req none = λ f. cc
    play_in-Keeps c req (some s) =
        if-cases (Keeps c) (state_code s.cur_state == 2 && is_broken_vlc env req) _ _
          (λ e.
            run_then (λ x. x) c (pause_session env s s.play_requests) _
              (pause-Fuelled s s.play_requests)
              (λ t. play_range-Keeps (record c { timer = false }) req t))
          (λ e. play_range-Keeps c req s)

    pub do_play-Keeps : (c : Client T) (req : Request) → Keeps c (do_play env c req)
    unfolding do_play
    do_play-Keeps c req =
        let a = check_invalid_state env c req server_init in
        let u = check_path env (a.0) req in
        guarded c a _ (invalid-Passed env c req server_init) (
          checked (a.0) req _
            (guarded (a.0) u _ (url-Passed env (a.0) req) (play_in-Keeps (u.0) req u.0.session)))
