-- ===== src/Methods/Table.antt =====
-- What PLAY keeps (rtsp_method_play.c): the states that it may lead to.
use is_rtsp_server.Base.{
  ℕ, ◌<◌, ◌≡◌, ◌≢◌, inl, inr, refl, sym, subst, ◌∙◌, arith, Bool, true, false, not, ◌&&◌, Option,
  none, some, ◌==◌, if-cases, Outcome, ok, fail, ◌>>=◌,
}
use is_rtsp_server.Protocol.{play, Request}
use is_rtsp_server.Client.{server_init, Session, Client}
use is_rtsp_server.Methods.{
  Env, state_code, check_invalid_state, check_path, is_pathless, url-cases, pause_session,
  is_broken_vlc, play_range, play_in, do_play,
}
use is_rtsp_server.Methods.Kept.{
  code_of, Move, HasRange, Same, Kept, Passed-twice, invalid-Passed, url-Passed, valid_state,
  session_kept, same_code, Paused, pause_session-Paused,
}
use is_rtsp_server.Methods.Played.{End, play_range-End}

module _ {T : Type 0} (env : Env T) where
  Paused-End :
      (u : Client T) (req : Request) (s : Session T) (o : Outcome (Session T))
      → Paused env s o
      → End env 2 u (o >>= λ t. play_range env (record u { timer = false }) req t)
  Paused-End u req s (fail f) p = p
  Paused-End u req s (ok t) p =
      play_range-End env 2 (record u { timer = false }) req t (omega arith) (inr (refl, p.0))
        (λ g. p.1)

  vlc_playing : (n : ℕ) (b : Bool) → (n == 2 && b) ≡ true → n ≡ 2
  vlc_playing n b e = ground (arith, e)

  play_in-End :
      (a : ℕ) (u : Client T) (req : Request) (o : Option (Session T))
      → env.pause_hangs ≡ false
      → 0 < a
      → code_of o ≡ a
      → HasRange o
      → End env a u (play_in env u req o)
  unfolding play_in
  play_in-End a u req none q z e h = omega (arith, z, e)
  play_in-End a u req (some s) q z e h =
      if-cases (End env a u) (state_code s.cur_state == 2 && is_broken_vlc env req) _ _
        (λ f.
          let k = vlc_playing (state_code s.cur_state) (is_broken_vlc env req) f in
          subst
            (λ x. End env x u (
              pause_session env s s.play_requests >>= λ t.
              play_range env (record u { timer = false }) req t))
            (sym k ∙ e)
            (Paused-End u req s (pause_session env s s.play_requests)
              (pause_session-Paused env s s.play_requests q (h (omega (arith, k))))))
        (λ f. play_range-End env a u req s z (inl e) h)

  End-Kept :
      (c u : Client T) (a : ℕ) (o : Outcome (Client T))
      → code_of c.session ≡ a
      → Same c u
      → End env a u o
      → Kept play c o
  End-Kept c u a (fail f) e p k = k
  End-Kept c u a (ok d) e p k = (
    subst (λ x. Move play x (code_of d.session)) (sym e) k.0,
    k.1,
    (k.2.0 ∙ p.0, k.2.1 ∙ p.1, k.2.2 ∙ p.2),
  )

  positive : (x y : ℕ) → x ≡ y → x ≢ 0 → 0 < y
  positive x y e f = ground (arith, e, f)

  pub do_play-Kept :
      (c : Client T) (req : Request)
      → is_pathless req.uri ≡ false
      → env.pause_hangs ≡ false
      → HasRange c.session
      → Kept play c (do_play env c req)
  unfolding do_play
  do_play-Kept c req n w h =
      let a = (check_invalid_state env c req server_init).0 in
      let u = (check_path env a req).0 in
      let p = invalid-Passed env c req server_init in
      let q = Passed-twice c a u p (url-Passed env a req) in
      if-cases (Kept play c) (not ((check_invalid_state env c req server_init).1)) _ _
        (λ e. (inl (same_code env c a p), session_kept env c a p h, p.1))
        (λ e.
          url-cases env (Kept play c) a req _ (λ g. absurd (let x = sym g ∙ n in cc))
            (if-cases (Kept play c) (not ((check_path env a req).1)) _ _
              (λ f. (inl (same_code env c u q), session_kept env c u q h, q.1))
              (λ f.
                End-Kept c u (code_of u.session) (play_in env u req u.session) (same_code env c u q)
                  q.1
                  (play_in-End (code_of u.session) u req u.session w
                    (positive (code_of c.session) (code_of u.session) (same_code env c u q)
                      (valid_state env c req server_init e))
                    refl (session_kept env c u q h)))))
