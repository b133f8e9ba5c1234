-- ===== src/Methods/Selecting.antt =====
-- What SETUP sends while it selects a track and a transport (rtsp_method_setup.c, rtp.c).
use Prim.Native.Char.{code}
use Prim.Native.String.{String}
use is_rtsp_server.Base.{
  ℕ, ◌≡◌, refl, ◌∙◌, not, Option, none, some, List, [], ◌∷◌, ◌==◌, if-cases, match-cases, Outcome,
  ok, fail, length, ◌>>=◌,
}
use is_rtsp_server.Text.{codes, str_is_unreserved, split_last, after_prefix}
use is_rtsp_server.Protocol.{Request}
use is_rtsp_server.Client.{Track, Session, Client, rtsp_quick_response}
use is_rtsp_server.Interleaved.{transport}
use is_rtsp_server.Methods.{Env, path_of}
use is_rtsp_server.Methods.Setup.{
  ParsedTransport, Outside, Addresses, attempt, resource-cases, find_track, select_track,
  resource_path, open_track, known_track, select_requested_track, try_transports,
}
use is_rtsp_server.Methods.Ready.{carrier-cases}
use is_rtsp_server.Methods.Answers.{Answers, quick-Answers}

module _ {T : Type 0} (env : Env T) (out : Outside T) where
  -- A track is selected and nothing sent, or the request is answered.
  abbrev pub Chosen : Request → Client T → Outcome (Client T × Session T × Option Track) → Type 0
  Chosen req c (fail f) = Unit
  Chosen req c (ok (d, s, some t)) = d.sent ≡ c.sent
  Chosen req c (ok (d, s, none)) = Answers req c (ok d)

  answer-Chosen :
      (c : Client T) (req : Request) (s : Session T) (n : ℕ)
      → Chosen req c
          (ok (rtsp_quick_response env.date (record c { session = some s }) req n, s, none))
  answer-Chosen c req s n = quick-Answers env.date req (record c { session = some s }) n

  select_track-Chosen :
      (c : Client T) (req : Request) (s : Session T) (name : String)
      → Chosen req c (ok (select_track env out c req s name))
  unfolding select_track
  select_track-Chosen c req s name =
      if-cases (λ (r : Client T × Session T × Option Track). Chosen req c (ok r))
        (not (str_is_unreserved (some (codes name)))) _ _ (λ e. answer-Chosen c req s 460)
        (λ e.
          match-cases (λ (r : Client T × Session T × Option Track). Chosen req c (ok r))
            (find_track name s.tracks) _ _ (λ f. answer-Chosen c req s 404) (λ x f. refl))

  known_track-Chosen :
      (c : Client T) (req : Request) (s : Session T) (o : Option String)
      → Chosen req c (ok (known_track env out c req s o))
  unfolding known_track
  known_track-Chosen c req s none = answer-Chosen c req s 460
  known_track-Chosen c req s (some String.[]) = answer-Chosen c req s 460
  known_track-Chosen c req s (some (String.◌∷◌ k String.[])) = answer-Chosen c req s 460
  known_track-Chosen c req s (some (String.◌∷◌ k (String.◌∷◌ l name))) =
      if-cases (λ (r : Client T × Session T × Option Track). Chosen req c (ok r)) (code k == b'/') _
        _ (λ e. select_track-Chosen c req s (String.◌∷◌ l name)) (λ e. answer-Chosen c req s 460)

  open_track-Chosen :
      (c : Client T) (req : Request) (s : Session T) (base name : String)
      → Chosen req c (open_track env out c req s base name)
  unfolding open_track
  open_track-Chosen c req s base name =
      match-cases (Chosen req c) (path_of req.uri) _ _ (λ e. tt)
        (λ path e.
          match-cases (Chosen req c) (out.unescape path) _ _ (λ f. tt)
            (λ q f.
              resource-cases (Chosen req c) out (some (resource_path env out q)) _ (λ g. tt)
                (answer-Chosen c req s 404) (select_track-Chosen c req _ name)))

  pub select-Chosen :
      (c : Client T) (req : Request) (s : Session T)
      → Chosen req c (select_requested_track env out c req s)
  unfolding select_requested_track
  select-Chosen c req s =
      match-cases (Chosen req c) req.object _ _ (λ e. tt)
        (λ object e.
          match-cases (Chosen req c) s.resource_uri _ _
            (λ f.
              match-cases (Chosen req c) (split_last b'/' object) _ _
                (λ g. answer-Chosen c req s 460) (λ r g. open_track-Chosen c req s (r.0) (r.1)))
            (λ uri f. known_track-Chosen c req s (after_prefix uri object)))

  -- The choice of a transport sends nothing.
  abbrev pub Quiet : Client T → Outcome (Client T × Option String) → Type 0
  Quiet c (fail f) = Unit
  Quiet c (ok r) = r.0.sent ≡ c.sent

  Quiet-carry :
      (c d : Client T) (o : Outcome (Client T × Option String))
      → d.sent ≡ c.sent
      → Quiet d o
      → Quiet c o
  Quiet-carry c d (fail f) e q = tt
  Quiet-carry c d (ok r) e q = q ∙ e

  transport_quiet : (c : Client T) (n : ℕ) (a b : Option ℕ) → (transport c n a b).0.sent ≡ c.sent
  unfolding transport
  transport_quiet c n a b =
      if-cases (λ (r : Client T × Option (ℕ × ℕ)). r.0.sent ≡ c.sent) _ _ _ (λ e. refl) (λ e. refl)

  attempted_rest :
      (c : Client T) (n : ℕ) (ps : List ParsedTransport) (o : Outcome (Addresses × Option String))
      → ((m : Addresses) → Quiet c (try_transports env out c n m ps))
      → Quiet c (
          o >>= λ b. elim b.1 [
            | some text ↦ ok (c, some text)
            | none ↦ try_transports env out c n (b.0) ps
          ])
  attempted_rest c n ps (fail f) k = tt
  attempted_rest c n ps (ok (m, none)) k = k m
  attempted_rest c n ps (ok (m, some text)) k = refl

  pub try_transports-Quiet :
      (c : Client T) (n : ℕ) (m : Addresses) (ps : List ParsedTransport)
      → Quiet c (try_transports env out c n m ps)
  unfolding try_transports
  try_transports-Quiet c n m [] = refl
  try_transports-Quiet c n m (p ∷ ps) =
      carrier-cases (Quiet c) p.protocol _ _ _
        (λ e.
          attempted_rest c n ps (attempt (out.udp_transport (length ps) p) m)
            (λ m'. try_transports-Quiet c n m' ps))
        (λ e.
          let r = transport c n p.rtp_channel p.rtcp_channel in
          let q = transport_quiet c n p.rtp_channel p.rtcp_channel in
          match-cases (Quiet c) (r.1) _ _
            (λ f. Quiet-carry c (r.0) _ q (try_transports-Quiet (r.0) n m ps)) (λ ch f. q))
        (λ e. tt)
