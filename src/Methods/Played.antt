-- ===== src/Methods/Played.antt =====
-- PLAY (rtsp_method_play.c) on its ranges.
use is_rtsp_server.Base.{
  ℕ, ◌<◌, ◌≡◌, ◌⊎◌, inl, inr, refl, sym, ap, subst, arith, true, false, not, ◌&&◌, Option, none,
  some, List, [], ◌∷◌, ◌++◌, length, length-append, ◌==◌, if-cases, match-cases, Outcome, ok, fail,
  ◌>>=◌,
}
use is_rtsp_server.Protocol.{play, Request, headers_lookup, header_range}
use is_rtsp_server.Client.{Range, Session, Client, response_send, rtsp_quick_response}
use is_rtsp_server.Methods.{
  Env, state_code, default_range, append_range, given_range, same_range, parse_range_header,
  is_multicast, play_session, send_play_reply, play_answer, play_range,
}
use is_rtsp_server.Methods.Kept.{code_of, Move, HasRange, Same}

module _ {T : Type 0} (env : Env T) where
  -- As `Kept` for PLAY, from a state of code `a`.
  abbrev pub End : ℕ → Client T → Outcome (Client T) → Type 0
  End a u (fail f) = ⊥
  End a u (ok d) = Move play a (code_of d.session) × HasRange d.session × Same u d

  -- The state of a session of code `b` for one that was of code `a`: the same, or paused meanwhile.
  abbrev pub Near : ℕ → ℕ → Type 0
  Near a b = (b ≡ a) ⊎ ((a ≡ 2) × (b ≡ 1))

  Near-Move : (a b : ℕ) → 0 < a → Near a b → Move play a b
  Near-Move a b z (inl e) = inl (sym e)
  Near-Move a b z (inr e) = inr (z, inr e)

  ok_code : (n : ℕ) → not (n == 200) ≡ false → n ≡ 200
  ok_code n e = ground (arith, e)

  -- What `parse_range_header` leaves of a session.
  abbrev Ranged : Session T → Session T × ℕ → Type 0
  Ranged s r =
      (r.0.cur_state ≡ s.cur_state)
      × (r.1 ≡ 200 → 0 < length r.0.play_requests)
      × (0 < length s.play_requests → 0 < length r.0.play_requests)

  pub append_some : {A : Type 0} (xs : List A) (x : A) → 0 < length (xs ++ x ∷ [])
  append_some xs x = omega (arith, length-append xs (x ∷ []))

  append_range-Ranged : (s : Session T) (r : Range T) → Ranged s (append_range env s r, 200)
  unfolding append_range
  append_range-Ranged s r = (refl, λ e. append_some _ _, λ e. append_some _ _)

  given_range-Ranged : (s : Session T) (o : Option (Range T)) → Ranged s (given_range env s o)
  unfolding given_range
  given_range-Ranged s none = (refl, λ e. omega (arith, e), λ h. h)
  given_range-Ranged s (some r) =
      if-cases (Ranged s)
        (not s.seekable
          && not (env.same r.begin_time env.origin)
          && not (env.same r.end_time env.unset))
        _ _ (λ e. (refl, λ f. omega (arith, f), λ h. h)) (λ e. append_range-Ranged s r)

  same_range-Ranged : (s : Session T) (rs : List (Range T)) → Ranged s (same_range env s rs)
  unfolding same_range
  same_range-Ranged s [] = append_range-Ranged s (default_range env)
  same_range-Ranged s (r ∷ rs) = (refl, λ e. omega arith, λ e. omega arith)

  parse_range_header-Ranged :
      (s : Session T) (req : Request) → Ranged s (parse_range_header env s req)
  unfolding parse_range_header
  parse_range_header-Ranged s req =
      match-cases (Ranged s) (headers_lookup header_range req.headers) _ _
        (λ e. same_range-Ranged s s.play_requests)
        (λ h e. given_range-Ranged s (env.parse_range h (default_range env)))

  -- What `do_play` leaves of a session.
  abbrev Out : Session T → Outcome (Session T × ℕ) → Type 0
  Out s (fail f) = ⊥
  Out s (ok p) =
      ((state_code p.0.cur_state ≡ 2) ⊎ (p.0.cur_state ≡ s.cur_state))
      × (p.0.play_requests ≡ s.play_requests)

  play_session-Out :
      (s : Session T) (rs : List (Range T)) → 0 < length rs → Out s (play_session env s rs)
  unfolding play_session
  play_session-Out s [] h = omega (arith, h)
  play_session-Out s (r ∷ rs) h =
      if-cases (Out s) (s.seekable && env.seek_fails r.begin_time) _ _ (λ e. (inr refl, refl))
        (λ e.
          if-cases (Out s) (is_multicast env s.rtp_sessions) _ _ (λ f. (inl refl, refl))
            (λ f. (inl refl, refl)))

  reply-End :
      (a : ℕ) (u : Client T) (req : Request) (t : Session T) (rs : List (Range T))
      → 0 < length rs
      → Move play a (state_code t.cur_state)
      → 0 < length t.play_requests
      → End a u (
          send_play_reply env (record u { session = some t }) req t rs >>= λ d.
          ok (record d { timer = true }))
  unfolding send_play_reply response_send
  reply-End a u req t [] h m k = omega (arith, h)
  reply-End a u req t (r ∷ rs) h m k = (m, λ g. k, (refl, refl, refl))

  play_answer-End :
      (a : ℕ) (u : Client T) (req : Request) (t : Session T) (code : ℕ)
      → Move play a (state_code t.cur_state)
      → 0 < length t.play_requests
      → End a u (play_answer env u req t code)
  unfolding play_answer rtsp_quick_response response_send
  play_answer-End a u req t code m k =
      if-cases (End a u) (code == 200) _ _ (λ e. reply-End a u req t t.play_requests k m k)
        (λ e. (m, λ g. k, (refl, refl, refl)))

  played-End :
      (a : ℕ) (u : Client T) (req : Request) (s : Session T) (o : Outcome (Session T × ℕ))
      → 0 < a
      → Near a (state_code s.cur_state)
      → 0 < length s.play_requests
      → Out s o
      → End a u (o >>= λ p. play_answer env u req (p.0) (p.1))
  played-End a u req s (fail f) z n k x = x
  played-End a u req s (ok p) z n k x =
      play_answer-End a u req (p.0) (p.1)
        (elim x.0 [
          | inl e ↦ inr (z, inl e)
          | inr e ↦
              Near-Move a (state_code p.0.cur_state) z
                (subst (λ y. Near a (state_code y)) (sym e) n)
        ])
        (subst (λ rs. 0 < length rs) (sym x.1) k)

  pub play_range-End :
      (a : ℕ) (u : Client T) (req : Request) (s : Session T)
      → 0 < a
      → Near a (state_code s.cur_state)
      → HasRange (some s)
      → End a u (play_range env u req s)
  unfolding play_range rtsp_quick_response response_send
  play_range-End a u req s z n h =
      let t = (parse_range_header env s req).0 in
      let code = (parse_range_header env s req).1 in
      let r = parse_range_header-Ranged s req in
      let near : Near a (state_code t.cur_state) = subst (λ y. Near a (state_code y)) (sym r.0) n in
      if-cases (End a u) (not (code == 200)) _ _
        (λ e. (
          Near-Move a (state_code t.cur_state) z near,
          (λ g. r.2 (
              h (
                let k : state_code t.cur_state ≡ state_code s.cur_state = ap state_code r.0 in
                omega (arith, g, k)))),
          (refl, refl, refl),
        ))
        (λ e.
          let some_range = r.1 (ok_code code e) in
          if-cases (End a u) (state_code t.cur_state == 2) _ _
            (λ f.
              play_answer-End a u req t 200 (Near-Move a (state_code t.cur_state) z near)
                some_range)
            (λ f.
              played-End a u req t (play_session env t t.play_requests) z near some_range
                (play_session-Out t t.play_requests some_range)))
