-- ===== src/Methods/Timed.antt =====
-- The timer of a client over all the methods of RTSP but TEARDOWN.
use is_rtsp_server.Base.{
  ℕ, ◌+◌, ◌≤◌, ◌↔◌, ◌⊎◌, inl, inr, ◌||◌, leb, arith, ◌≡◌, ◌≢◌, refl, ap, Bool, true, false, Option,
  none, some, List, [], ◌∷◌, All, Outcome, ok, fail, null_pointer, ◌>>=◌,
}
use is_rtsp_server.Protocol.{Method, describe, options, pause, play, setup, teardown, Request}
use is_rtsp_server.Client.{RtpSession, Session, Client, response_send, rtsp_quick_response}
use is_rtsp_server.Connection.{is_late, any_late, client_ev_timeout}
use is_rtsp_server.Methods.{Env, check_path, url-cases, method_table}
use is_rtsp_server.Methods.Kept.{HasRange, Kept}
use is_rtsp_server.Methods.Setup.{
  ParsedTransport, Outside, offered, session_or_new, setup_session, setup_offered, do_setup,
}
use is_rtsp_server.Methods.Describe.{session_descr, describe_answer, do_describe}
use is_rtsp_server.Methods.Ready.{IsProper, Supported, Settled, Ready, setup_session-Ready}
use is_rtsp_server.Methods.Served.{AreDescribed, method_table-Served}
use is_rtsp_server.Methods.Timer.{
  HasSession, IsTimed, Timed, guarded_timer, url_timer, do_options-Timed, do_pause-Timed,
  do_play-Timed,
}

-- An RTP session has sent no packet for 12 seconds.
abbrev pub Late : {T : Type 0} → ℕ → List (RtpSession T) → Type 0
Late now [] = ⊥
Late now (r ∷ rs) = (r.last_packet_send_time + 12 ≤ now) ⊎ Late now rs

leb_late : (a b : ℕ) → (leb a b ≡ true) ↔ (a ≤ b)
leb_late a b = ground arith

module _ {T : Type 0} (env : Env T) (out : Outside T) where
  Settled-HasSession : (s : Session T) (o : Option (Session T)) → Settled env out s o → HasSession o
  Settled-HasSession s none h = h
  Settled-HasSession s (some t) h = tt

  Ready-Timed :
      (c : Client T) (s : Session T) (o : Outcome (Client T)) → Ready env out c s o → Timed o
  Ready-Timed c s (fail f) r = tt
  Ready-Timed c s (ok d) r = λ e. Settled-HasSession s d.session (r.0)

  do_setup-Timed :
      (c : Client T) (req : Request)
      → IsProper env out req
      → All (Supported out) (offered env out req)
      → IsTimed c
      → Timed (do_setup env out c req)
  unfolding do_setup setup_offered
  do_setup-Timed c req p q h =
      let u = url_timer env c req h in
      url-cases env Timed c req _ (λ e. tt)
        (guarded_timer (check_path env c req) _ u
          (of ((check_path env c req).0) (offered env out req) q u))
    where
      of :
          (u : Client T) (ps : List ParsedTransport)
          → All (Supported out) ps
          → IsTimed u
          → Timed (setup_offered env out u req ps)
      of u [] q h = unfold rtsp_quick_response response_send in h
      of u (k ∷ ks) q h =
          let s = session_or_new env out u.session in
          let d = record u { session = some s } in
          Ready-Timed d s (setup_session env out d req s (k ∷ ks))
            (setup_session-Ready env out d req s (k ∷ ks) p q)

  described_timer :
      (c : Client T) (req : Request) (o : Option _)
      → IsTimed c
      → IsTimed (describe_answer env out c req o)
  unfolding describe_answer rtsp_quick_response response_send
  described_timer c req none h = h
  described_timer c req (some t) h = h

  do_describe-Timed : (c : Client T) (req : Request) → IsTimed c → Timed (do_describe env out c req)
  unfolding do_describe
  do_describe-Timed c req h =
      let u = url_timer env c req h in
      url-cases env Timed c req _ (λ e. tt)
        (guarded_timer (check_path env c req) _ u
          (of ((check_path env c req).0) (session_descr env out req) u))
    where
      of :
          (u : Client T) (o : Outcome (Option _))
          → IsTimed u
          → Timed (o >>= λ d. ok (describe_answer env out u req d))
      of u (fail f) h = tt
      of u (ok d) h = described_timer u req d h

  method-Timed :
      (m : Method) (c : Client T) (req : Request)
      → m ≢ teardown
      → IsProper env out req
      → All (Supported out) (offered env out req)
      → IsTimed c
      → Timed (method_table env (do_describe env out) (do_setup env out) m c req)
  unfolding method_table
  method-Timed describe c req n p q h = do_describe-Timed c req h
  method-Timed setup c req n p q h = do_setup-Timed c req p q h
  method-Timed options c req n p q h = do_options-Timed env c req h
  method-Timed pause c req n p q h = do_pause-Timed env c req h
  method-Timed play c req n p q h = do_play-Timed env c req h
  method-Timed teardown c req n p q h = absurd (n refl)

  any_late-Late : (now : ℕ) (rs : List (RtpSession T)) → (any_late now rs ≡ true) ↔ Late now rs
  unfolding any_late
  any_late-Late now [] = ((λ e. absurd cc), (λ l. absurd l))
  any_late-Late now (r ∷ rs) =
      of (is_late now r) (any_late now rs) (leb_late (r.last_packet_send_time + 12) now)
        (any_late-Late now rs)
    where
      of :
          (a b : Bool)
          → (a ≡ true) ↔ (r.last_packet_send_time + 12 ≤ now)
          → (b ≡ true) ↔ Late now rs
          → ((a || b) ≡ true) ↔ Late now (r ∷ rs)
      of true b f g = ((λ e. inl (f.0 refl)), (λ l. refl))
      of false b f g = (
        (λ e. inr (g.0 e)),
        (λ l. elim l [ inl x ↦ absurd (let y = f.1 x in cc) | inr x ↦ g.1 x ]),
      )

  -- The call of `client_ev_timeout` returns whenever the timer runs, sets it again, and leaves the
  -- loop exactly if an RTP session is late.
  abbrev pub FiresWell : ℕ → Outcome (Client T) → Type 0
  FiresWell now (fail f) = ⊥
  FiresWell now (ok d) =
      d.timer ≡ true
      → (s : Session T) × (left : Bool) × (d.session ≡ some s)
        × (client_ev_timeout now d ≡ ok (record d { timer = true }, left))
        × ((left ≡ true) ↔ Late now s.rtp_sessions)

  timeout_of :
      (now : ℕ) (d : Client T) (s : Session T)
      → d.session ≡ some s
      → client_ev_timeout now d ≡ ok (record d { timer = true }, any_late now s.rtp_sessions)
  unfolding client_ev_timeout
  timeout_of now d s e =
      ap
        (λ (x : Option (Session T)).
          let r : Outcome (Client T × Bool) = elim x [
            | none ↦ fail null_pointer
            | some s ↦ ok (record d { timer = true }, any_late now s.rtp_sessions)
          ] in
          r)
        e

  timeout_returns : (now : ℕ) (d : Client T) → IsTimed d → FiresWell now (ok d)
  timeout_returns now d h t = of d.session refl (h t)
    where
      of :
          (o : Option (Session T))
          → d.session ≡ o
          → HasSession o
          → (s : Session T) × (left : Bool) × (d.session ≡ some s)
            × (client_ev_timeout now d ≡ ok (record d { timer = true }, left))
            × ((left ≡ true) ↔ Late now s.rtp_sessions)
      of none e k = absurd k
      of (some s) e k = (
        s,
        any_late now s.rtp_sessions,
        e,
        timeout_of now d s e,
        any_late-Late now s.rtp_sessions,
      )

  fired :
      (m : Method) (c : Client T) (now : ℕ) (o : Outcome (Client T))
      → Kept m c o
      → Timed o
      → FiresWell now o
  fired m c now (fail f) k t = k
  fired m c now (ok d) k t = timeout_returns now d t

  -- If a client has a session while its timer runs, then under the conditions of
  -- `method_table-Served` each method but TEARDOWN returns a client on which a call of
  -- `client_ev_timeout`, if the timer runs, returns, sets it again, and leaves the loop exactly if
  -- an RTP session has sent no packet for 12 seconds.
  pub method_table-FiresWell :
      (m : Method) (now : ℕ) (c : Client T) (req : Request)
      → m ≢ teardown
      → IsProper env out req
      → All (Supported out) (offered env out req)
      → AreDescribed env out
      → HasRange c.session
      → IsTimed c
      → FiresWell now (method_table env (do_describe env out) (do_setup env out) m c req)
  method_table-FiresWell m now c req n p q d r h =
      fired m c now (method_table env (do_describe env out) (do_setup env out) m c req)
        (method_table-Served env out m c req p q d r) (method-Timed m c req n p q h)
