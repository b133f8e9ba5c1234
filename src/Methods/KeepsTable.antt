-- ===== src/Methods/KeepsTable.antt =====
-- What SETUP (rtsp_method_setup.c), DESCRIBE (rtsp_method_describe.c) and with them all the methods of
-- RTSP leave as it was.
use Prim.Native.Char.{code}
use Prim.Native.String.{String, ◌++◌ as ◌+s+◌}
use is_rtsp_server.Base.{
  ℕ, refl, Bool, true, false, not, ◌||◌, Option, none, some, List, [], ◌∷◌, length, ◌==◌, if-cases,
  match-cases, Outcome, ok, assert, ◌>>◌,
}
use is_rtsp_server.Text.{codes, str_is_unreserved, split_last, after_prefix}
use is_rtsp_server.Protocol.{Method, describe, options, pause, play, setup, teardown, Request}
use is_rtsp_server.Client.{Track, Session, Client, response_send, rtsp_quick_response}
use is_rtsp_server.Interleaved.{transport}
use is_rtsp_server.Methods.{Env, path_of, check_path, method_table}
use is_rtsp_server.Methods.Kept.{Same, url-Passed}
use is_rtsp_server.Methods.Setup.{
  ParsedTransport, Outside, Addresses, Attempt, sockets_fail, connect1_fails, connect2_fails,
  connected, fresh, attempt, find_track, select_track, resource_path, resource-cases, open_track,
  known_track, select_requested_track, try_transports, send_setup_reply, setup_track, setup_session,
  offered, session_or_new, setup_offered, do_setup,
}
use is_rtsp_server.Methods.Describe.{
  session_lines, track_descr, tracks_descr, session_descr, describe_answer, do_describe,
}
use is_rtsp_server.Methods.Ready.{carrier-cases}
use is_rtsp_server.Methods.Keeps.{
  KeepsIn, Keeps, Fuelled, carry, kept_then, run_then, both_run, guarded, same, quick, checked,
  do_options-Keeps, do_teardown-Keeps, do_pause-Keeps, do_play-Keeps,
}

module _ {T : Type 0} (env : Env T) (out : Outside T) where
  -- What the selection of a track leaves of the client.
  abbrev Selects : Client T → Outcome (Client T × Session T × Option Track) → Type 0
  Selects c o = KeepsIn (λ r. r.0) c o

  answered :
      (c : Client T) (req : Request) (s t : Session T) (n : ℕ)
      → Selects c (ok (rtsp_quick_response env.date (record c { session = some s }) req n, t, none))
  answered c req s t n = quick env (record c { session = some s }) req n

  select_track-Selects :
      (c : Client T) (req : Request) (s : Session T) (name : String)
      → Selects c (ok (select_track env out c req s name))
  unfolding select_track
  select_track-Selects c req s name =
      let P : Client T × Session T × Option Track → Type 0 = λ r. Selects c (ok r) in
      if-cases P (not (str_is_unreserved (some (codes name)))) _ _ (λ e. answered c req s s 460)
        (λ e.
          match-cases P (find_track name s.tracks) _ _ (λ f. answered c req s s 404)
            (λ x f. (refl, refl, refl)))

  known_track-Selects :
      (c : Client T) (req : Request) (s : Session T) (o : Option String)
      → Selects c (ok (known_track env out c req s o))
  unfolding known_track
  known_track-Selects c req s none = answered c req s s 460
  known_track-Selects c req s (some String.[]) = answered c req s s 460
  known_track-Selects c req s (some (String.◌∷◌ k String.[])) = answered c req s s 460
  known_track-Selects c req s (some (String.◌∷◌ k (String.◌∷◌ l name))) =
      if-cases (λ (r : Client T × Session T × Option Track). Selects c (ok r)) (code k == b'/') _ _
        (λ e. select_track-Selects c req s (String.◌∷◌ l name)) (λ e. answered c req s s 460)

  open_track-Selects :
      (c : Client T) (req : Request) (s : Session T) (base name : String)
      → Selects c (open_track env out c req s base name)
  unfolding open_track
  open_track-Selects c req s base name =
      match-cases (Selects c) (path_of req.uri) _ _ (λ e f. cc)
        (λ path e.
          match-cases (Selects c) (out.unescape path) _ _ (λ f g. cc)
            (λ q f.
              resource-cases (Selects c) out (some (resource_path env out q)) _ (λ g h. cc)
                (answered c req s s 404) (select_track-Selects c req _ name)))

  select-Selects :
      (c : Client T) (req : Request) (s : Session T)
      → Selects c (select_requested_track env out c req s)
  unfolding select_requested_track
  select-Selects c req s =
      match-cases (Selects c) req.object _ _ (λ e f. cc)
        (λ object e.
          match-cases (Selects c) s.resource_uri _ _
            (λ f.
              match-cases (Selects c) (split_last b'/' object) _ _ (λ g. answered c req s s 460)
                (λ r g. open_track-Selects c req s (r.0) (r.1)))
            (λ uri f. known_track-Selects c req s (after_prefix uri object)))

  abbrev Tries : Client T → Outcome (Client T × Option String) → Type 0
  Tries c o = KeepsIn (λ r. r.0) c o

  transport-Tries : (c : Client T) (n : ℕ) (a b : Option ℕ) → Same c ((transport c n a b).0)
  unfolding transport
  transport-Tries c n a b =
      if-cases (λ (r : Client T × Option (ℕ × ℕ)). Same c (r.0)) _ _ _ (λ e. (refl, refl, refl))
        (λ e. (refl, refl, refl))

  attempt-Fuelled : (a : Attempt) (m : Addresses) → Fuelled (attempt a m)
  unfolding attempt
  attempt-Fuelled sockets_fail m =
      if-cases Fuelled (m.rtp_freed || m.rtcp_freed) _ _ (λ e f. cc) (λ e. tt)
  attempt-Fuelled connect1_fails m = if-cases Fuelled m.rtcp_freed _ _ (λ e f. cc) (λ e. tt)
  attempt-Fuelled connect2_fails m = tt
  attempt-Fuelled (connected text) m = tt

  try_transports-Tries :
      (c : Client T) (n : ℕ) (m : Addresses) (ps : List ParsedTransport)
      → Tries c (try_transports env out c n m ps)
  unfolding try_transports
  try_transports-Tries c n m [] = (refl, refl, refl)
  try_transports-Tries c n m (p ∷ ps) =
      carrier-cases (Tries c) p.protocol _ _ _
        (λ e.
          run_then (λ r. r.0) c (attempt (out.udp_transport (length ps) p) m) _
            (attempt-Fuelled (out.udp_transport (length ps) p) m)
            (λ a.
              match-cases (Tries c) (a.1) _ _ (λ f. try_transports-Tries c n (a.0) ps)
                (λ text f. (refl, refl, refl))))
        (λ e.
          let r = transport c n p.rtp_channel p.rtcp_channel in
          let q = transport-Tries c n p.rtp_channel p.rtcp_channel in
          match-cases (Tries c) (r.1) _ _
            (λ f. carry (λ x. x.0) c (r.0) _ q (try_transports-Tries (r.0) n m ps)) (λ ch f. q))
        (λ e f. cc)

  setup_track-Keeps :
      (c : Client T) (req : Request) (s : Session T) (object : String) (k : Track)
      (ps : List ParsedTransport)
      → Keeps c (setup_track env out c req s object k ps)
  unfolding setup_track send_setup_reply response_send
  setup_track-Keeps c req s object k ps =
      kept_then (λ r. r.0) (λ x. x) c (try_transports env out c (length s.rtp_sessions) fresh ps) _
        (try_transports-Tries c (length s.rtp_sessions) fresh ps)
        (λ r.
          match-cases (Keeps (r.0)) (r.1) _ _ (λ e. quick env (r.0) req 461)
            (λ text e. (refl, refl, refl)))

  setup_session-Keeps :
      (c : Client T) (req : Request) (s : Session T) (ps : List ParsedTransport)
      → Keeps c (setup_session env out c req s ps)
  unfolding setup_session
  setup_session-Keeps c req s ps =
      kept_then (λ r. r.0) (λ x. x) c (select_requested_track env out c req s) _
        (select-Selects c req s)
        (λ r.
          match-cases (Keeps (r.0)) (r.2) _ _ (λ e. same (r.0))
            (λ t e.
              match-cases (Keeps (r.0)) req.object _ _ (λ f g. cc)
                (λ object f. setup_track-Keeps (r.0) req (r.1) object t ps)))

  offered-Keeps :
      (c : Client T) (req : Request) (ps : List ParsedTransport)
      → Keeps c (setup_offered env out c req ps)
  unfolding setup_offered
  offered-Keeps c req [] = quick env c req 461
  offered-Keeps c req (p ∷ ps) =
      let s = session_or_new env out c.session in
      setup_session-Keeps (record c { session = some s }) req s (p ∷ ps)

  do_setup-Keeps : (c : Client T) (req : Request) → Keeps c (do_setup env out c req)
  unfolding do_setup
  do_setup-Keeps c req =
      let u = check_path env c req in
      checked env c req _
        (guarded c u _ (url-Passed env c req) (offered-Keeps (u.0) req (offered env out req)))

  tracks_descr-Fuelled : (ts : List Track) → Fuelled (tracks_descr env out ts)
  unfolding tracks_descr track_descr
  tracks_descr-Fuelled [] = tt
  tracks_descr-Fuelled (t ∷ ts) =
      both_run (track_descr env out t) _ (asserted t.is_defined _)
        (λ a. both_run (tracks_descr env out ts) _ (tracks_descr-Fuelled ts) (λ b. tt))
    where
      asserted : (b : Bool) (x : String) → Fuelled (assert b >> ok x)
      asserted true x = tt
      asserted false x = λ f. cc

  session_descr-Fuelled : (req : Request) → Fuelled (session_descr env out req)
  unfolding session_descr
  session_descr-Fuelled req =
      match-cases Fuelled out.family _ _ (λ e. tt)
        (λ family e.
          match-cases Fuelled (path_of req.uri) _ _ (λ f g. cc)
            (λ path f.
              resource-cases Fuelled out (out.unescape path) _ (λ g h. cc) tt
                (both_run {B = Option String}
                  (tracks_descr env out (out.resource (out.unescape path)).tracks)
                  (λ t.
                    ok (
                      some (session_lines env out family (out.resource (out.unescape path)) +s+ t)))
                  (tracks_descr-Fuelled (out.resource (out.unescape path)).tracks) (λ t. tt))))

  described-Keeps :
      (c : Client T) (req : Request) (o : Option String)
      → Keeps c (ok (describe_answer env out c req o))
  unfolding describe_answer rtsp_quick_response response_send
  described-Keeps c req none = (refl, refl, refl)
  described-Keeps c req (some text) = (refl, refl, refl)

  do_describe-Keeps : (c : Client T) (req : Request) → Keeps c (do_describe env out c req)
  unfolding do_describe
  do_describe-Keeps c req =
      let u = check_path env c req in
      checked env c req _ (
        guarded c u _ (url-Passed env c req) (
          run_then (λ x. x) (u.0) (session_descr env out req) _ (session_descr-Fuelled req)
            (λ d. described-Keeps (u.0) req d)))

  -- Each method, on any client and request and whatever fails, does not fail for want of fuel, and if
  -- it returns it has kept the input, the state of the parser and the number of the last request.
  pub method_table-Keeps :
      (m : Method) (c : Client T) (req : Request)
      → Keeps c (method_table env (do_describe env out) (do_setup env out) m c req)
  unfolding method_table
  method_table-Keeps describe c req = do_describe-Keeps c req
  method_table-Keeps setup c req = do_setup-Keeps c req
  method_table-Keeps options c req = do_options-Keeps env c req
  method_table-Keeps pause c req = do_pause-Keeps env c req
  method_table-Keeps play c req = do_play-Keeps env c req
  method_table-Keeps teardown c req = do_teardown-Keeps env c req
