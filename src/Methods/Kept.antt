-- ===== src/Methods/Kept.antt =====
-- What the methods of RTSP keep: the sessions' states, and the rest of the client (rtsp_utils.c,
-- rtsp_method_*.c).
use is_rtsp_server.Base.{
  ℕ, ◌<◌, ◌≡◌, ◌≢◌, ◌⊎◌, inl, inr, refl, sym, ap, subst, ◌∙◌, arith, Bool, false, not, Option, none,
  some, List, [], ◌∷◌, length, ◌==◌, if-cases, match-cases, Outcome, ok, fail, ◌>>=◌,
}
use is_rtsp_server.Protocol.{Method, describe, options, pause, play, setup, teardown, Request}
use is_rtsp_server.Client.{
  ServerState, server_init, server_ready, Range, Session, Client, response_send,
  rtsp_quick_response,
}
use is_rtsp_server.Methods.{
  Env, state_code, check_forbidden_path, current_state, check_invalid_state, check_path, path_of,
  is_pathless, url-cases, session_free_lem, pause_all_lem, do_options, do_teardown, pause_session,
  pause_client, do_pause,
}

-- The state of a session that there may be, by its code.
abbrev pub code_of : {T : Type 0} → Option (Session T) → ℕ
code_of none = 0
code_of (some s) = state_code s.cur_state

-- Which states a method may lead to (RFC 2326, appendix A.2). A PLAY that is not valid for the
-- range can stop the play of a client that seeks by it.
abbrev pub Move : Method → ℕ → ℕ → Type 0
Move options a b = a ≡ b
Move teardown a b = (a ≡ b) ⊎ (b ≡ 0)
Move pause a b = (a ≡ b) ⊎ ((1 < a) × (b ≡ 1))
Move play a b = (a ≡ b) ⊎ ((0 < a) × ((b ≡ 2) ⊎ ((a ≡ 2) × (b ≡ 1))))
Move describe a b = a ≡ b
Move setup a b = (a ≡ b) ⊎ ((a ≡ 0) × (b ≡ 1))

-- A session that is being played has a range that it plays.
abbrev pub HasRange : {T : Type 0} → Option (Session T) → Type 0
HasRange none = Unit
HasRange (some s) = 1 < state_code s.cur_state → 0 < length s.play_requests

module _ {T : Type 0} where
  -- The same but for the session, the timer, the requests and the responses.
  abbrev pub Same : Client T → Client T → Type 0
  Same c d = (d.input ≡ c.input) × (d.last_cseq ≡ c.last_cseq) × (d.status ≡ c.status)

  -- The call succeeded, in a state that the method may lead to, with a range for what is played,
  -- and kept the input, the state of the parser and the number of the last request.
  abbrev pub Kept : Method → Client T → Outcome (Client T) → Type 0
  Kept m c (fail f) = ⊥
  Kept m c (ok d) = Move m (code_of c.session) (code_of d.session) × HasRange d.session × Same c d

  -- A check that changed the client in nothing but its responses.
  abbrev pub Passed : Client T → Client T → Type 0
  Passed c d = (d.session ≡ c.session) × Same c d

  pub carry :
      (m : Method) (c d : Client T) (o : Outcome (Client T)) → Passed c d → Kept m d o → Kept m c o
  carry m c d (fail f) p k = k
  carry m c d (ok e) p k = (
    subst (λ s. Move m (code_of s) (code_of e.session)) p.0 k.0,
    k.1,
    (k.2.0 ∙ p.1.0, k.2.1 ∙ p.1.1, k.2.2 ∙ p.1.2),
  )

  pub Passed-twice : (c d e : Client T) → Passed c d → Passed d e → Passed c e
  Passed-twice c d e p q = (q.0 ∙ p.0, (q.1.0 ∙ p.1.0, q.1.1 ∙ p.1.1, q.1.2 ∙ p.1.2))

  module _ (env : Env T) where
    pub invalid-Passed :
        (c : Client T) (req : Request) (x : ServerState)
        → Passed c ((check_invalid_state env c req x).0)
    unfolding check_invalid_state response_send
    invalid-Passed c req x =
        if-cases (λ (r : Client T × Bool). Passed c (r.0))
          (state_code (current_state env c) == state_code x) _ _ (λ e. (refl, (refl, refl, refl)))
          (λ e. (refl, (refl, refl, refl)))

    pub url-Passed : (c : Client T) (req : Request) → Passed c ((check_path env c req).0)
    unfolding check_path rtsp_quick_response response_send
    url-Passed c req =
        match-cases (λ (r : Client T × Bool). Passed c (r.0)) (path_of req.uri) _ _
          (λ e. (refl, (refl, refl, refl)))
          (λ u e.
            if-cases (λ (r : Client T × Bool). Passed c (r.0)) (check_forbidden_path u) _ _
              (λ f. (refl, (refl, refl, refl))) (λ f. (refl, (refl, refl, refl))))

    code_current : (c : Client T) → state_code (current_state env c) ≡ code_of c.session
    code_current c = of c.session
      where
        of :
            (s : Option (Session T))
            → state_code (elim s [ none ↦ server_init | some t ↦ t.cur_state ]) ≡ code_of s
        of none = refl
        of (some t) = refl

    -- A client that passes the check is not in the state.
    pub valid_state :
        (c : Client T) (req : Request) (x : ServerState)
        → not ((check_invalid_state env c req x).1) ≡ false
        → code_of c.session ≢ state_code x
    unfolding check_invalid_state
    valid_state c req x =
        if-cases (λ (r : Client T × Bool). not (r.1) ≡ false → code_of c.session ≢ state_code x)
          (state_code (current_state env c) == state_code x) _ _ (λ e f. absurd cc)
          (λ e f g. let h = code_current c in ground (arith, e, g, h))

    pub do_options-Kept :
        (c : Client T) (req : Request) → HasRange c.session → Kept options c (do_options env c req)
    unfolding do_options response_send
    do_options-Kept c req h = (refl, h, (refl, refl, refl))

    pub session_kept : (c d : Client T) → Passed c d → HasRange c.session → HasRange d.session
    session_kept c d p h = subst HasRange (sym p.0) h

    pub same_code : (c d : Client T) → Passed c d → code_of c.session ≡ code_of d.session
    same_code c d p = ap code_of (sym p.0)

    pub do_teardown-Kept :
        (c : Client T) (req : Request)
        → is_pathless req.uri ≡ false
        → env.pause_hangs ≡ false
        → HasRange c.session
        → Kept teardown c (do_teardown env c req)
    unfolding do_teardown rtsp_quick_response response_send
    do_teardown-Kept c req n q h =
        let p = url-Passed c req in
        let d = (check_path env c req).0 in
        url-cases env (Kept teardown c) c req _ (λ e. absurd (let f = sym e ∙ n in cc))
          (if-cases (Kept teardown c) (not ((check_path env c req).1)) _ _
            (λ e. (inl (same_code c d p), session_kept c d p h, p.1))
            (λ e. rw (session_free_lem env d.session q) (inr refl, tt, p.1)))

    -- The session is paused, and played no more.
    abbrev pub Paused : Session T → Outcome (Session T) → Type 0
    Paused s (fail f) = ⊥
    Paused s (ok t) = (state_code t.cur_state ≡ 1) × (0 < length t.play_requests)

    pub pause_session-Paused :
        (s : Session T) (rs : List (Range T))
        → env.pause_hangs ≡ false
        → 0 < length rs
        → Paused s (pause_session env s rs)
    unfolding pause_session
    pause_session-Paused s [] q h = omega (arith, h)
    pause_session-Paused s (r ∷ rs) q h =
        rw (pause_all_lem env s.rtp_sessions q) (refl, omega arith)

    beyond : (x y z : ℕ) → x ≡ y → x ≡ z → x ≢ 0 → y ≢ 1 → 1 < z
    beyond x y z e f g h = ground (arith, e, f, g, h)

    Paused-answer :
        (c u : Client T) (req : Request) (s : Session T) (o : Outcome (Session T))
        → Same c u
        → 1 < code_of c.session
        → Paused s o
        → Kept pause c (
            (o >>= λ t. ok (record u { session = some t; timer = false })) >>= λ d.
            ok (rtsp_quick_response env.date d req 200))
    unfolding rtsp_quick_response response_send
    Paused-answer c u req s (fail f) q h p = p
    Paused-answer c u req s (ok t) q h p = (inr (h, p.0), λ g. p.1, q)

    pause_answer :
        (c u : Client T) (req : Request)
        → env.pause_hangs ≡ false
        → Passed c u
        → 1 < code_of u.session
        → HasRange u.session
        → Kept pause c (pause_client env u >>= λ d. ok (rtsp_quick_response env.date d req 200))
    unfolding pause_client
    pause_answer c u req x p h r =
        match-cases
          (λ (o : Outcome (Client T)).
            Kept pause c (o >>= λ d. ok (rtsp_quick_response env.date d req 200)))
          u.session _ _
          (λ e. absurd (let k : code_of u.session ≡ 0 = ap code_of e in omega (arith, h, k)))
          (λ s e.
            let k : code_of u.session ≡ state_code s.cur_state = ap code_of e in
            let l : HasRange (some s) = subst HasRange e r in
            Paused-answer c u req s (pause_session env s s.play_requests) p.1
              (let m = same_code c u p in omega (arith, h, m))
              (pause_session-Paused s s.play_requests x (l (omega (arith, h, k)))))

    pub do_pause-Kept :
        (c : Client T) (req : Request)
        → is_pathless req.uri ≡ false
        → env.pause_hangs ≡ false
        → HasRange c.session
        → Kept pause c (do_pause env c req)
    unfolding do_pause
    do_pause-Kept c req n w h =
        let a = (check_invalid_state env c req server_init).0 in
        let b = (check_invalid_state env a req server_ready).0 in
        let u = (check_path env b req).0 in
        let p = invalid-Passed c req server_init in
        let q = Passed-twice c a b p (invalid-Passed a req server_ready) in
        let r = Passed-twice c b u q (url-Passed b req) in
        if-cases (Kept pause c) (not ((check_invalid_state env c req server_init).1)) _ _
          (λ e. (inl (same_code c a p), session_kept c a p h, p.1))
          (λ e.
            if-cases (Kept pause c) (not ((check_invalid_state env a req server_ready).1)) _ _
              (λ f. (inl (same_code c b q), session_kept c b q h, q.1))
              (λ f.
                url-cases env (Kept pause c) b req _ (λ g. absurd (let x = sym g ∙ n in cc))
                  (if-cases (Kept pause c) (not ((check_path env b req).1)) _ _
                    (λ g. (inl (same_code c u r), session_kept c u r h, r.1))
                    (λ g.
                      pause_answer c u req w r
                        (let x = valid_state c req server_init e in
                          let y = valid_state a req server_ready f in
                          let k = same_code c a p in
                          let l = same_code c u r in
                          beyond (code_of c.session) (code_of a.session) (code_of u.session) k l x
                            y)
                        (session_kept c u r h)))))
