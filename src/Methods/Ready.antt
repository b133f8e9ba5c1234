-- ===== src/Methods/Ready.antt =====
-- What SETUP keeps (rtsp_method_setup.c).
use Prim.Native.Char.{code}
use Prim.Native.String.{String}
use is_rtsp_server.Base.{
  ℕ, ◌<◌, ◌≡◌, ◌≢◌, inl, inr, refl, sym, ap, subst, ◌∙◌, arith, true, false, not, Option, none,
  some, List, [], ◌∷◌, length, ◌++◌, ◌==◌, if-cases, match-cases, All, Outcome, ok, fail,
  null_pointer, ◌>>=◌,
}
use is_rtsp_server.Text.{codes, str_is_unreserved, split_last, after_prefix}
use is_rtsp_server.Protocol.{setup, Request}
use is_rtsp_server.Client.{Track, Session, Client, response_send, rtsp_quick_response}
use is_rtsp_server.Interleaved.{transport}
use is_rtsp_server.Methods.{
  Env, state_code, check_forbidden_path, path_of, is_pathless, url-cases, check_path, check_url,
}
use is_rtsp_server.Methods.Kept.{
  code_of, Move, HasRange, Same, Kept, Passed, url-Passed, same_code, session_kept, Passed-twice,
}
use is_rtsp_server.Methods.Setup.{
  Attempt, sockets_fail, connect1_fails, connect2_fails, connected, fresh, attempt, OpensSafely,
  resource-cases, Carrier, udp, tcp, sctp, ParsedTransport, Outside, find_track, select_track,
  resource_path, open_track, known_track, select_requested_track, try_transports, rtp_session_new,
  set_ready, send_setup_reply, setup_track, setup_session, offered, session_or_new, setup_offered,
  do_setup, session_new,
}

-- A property of what a match on a carrier gives.
pub carrier-cases {ℓ κ} :
    {B : Type ℓ} (P : B → Type κ) (k : Carrier) (x y z : B)
    → (k ≡ udp → P x)
    → (k ≡ tcp → P y)
    → (k ≡ sctp → P z)
    → P (elim k [ sctp ↦ z | udp ↦ x | tcp ↦ y ])
carrier-cases P udp x y z f g h = f refl
carrier-cases P tcp x y z f g h = g refl
carrier-cases P sctp x y z f g h = h refl

-- The sockets of a UDP transport fail before they are connected, or not at all.
abbrev pub Connects : Attempt → Type 0
Connects sockets_fail = Unit
Connects connect1_fails = ⊥
Connects connect2_fails = ⊥
Connects (connected text) = Unit

-- A transport that there is a function for, and whose connection does not fail.
abbrev pub Supported : {T : Type 0} → Outside T → ParsedTransport → Type 0
Supported out p = (p.protocol ≢ sctp) × ((n : ℕ) → Connects (out.udp_transport n p))

pub path-pathless :
    (u : Option (Option String)) (path : String) → path_of u ≡ some path → is_pathless u ≡ false
path-pathless none path e = refl
path-pathless (some none) path e = absurd cc
path-pathless (some (some p)) path e = refl

module _ {T : Type 0} (env : Env T) (out : Outside T) where
  -- A client that only had responses and channels change, and that has the session `s`.
  abbrev Holds : Client T → Session T → Client T → Type 0
  Holds c s d = (d.session ≡ some s) × Same c d

  -- A session of the same state and the same ranges.
  abbrev Alike : Session T → Session T → Type 0
  Alike s t = (t.cur_state ≡ s.cur_state) × (t.play_requests ≡ s.play_requests)

  -- The selection of a track changed the client in its session alone, which is alike.
  abbrev Selected : Client T → Session T → Outcome (Client T × Session T × Option Track) → Type 0
  Selected c s (fail f) = ⊥
  Selected c s (ok r) = Holds c (r.1) (r.0) × Alike s (r.1)

  select_track-Selected :
      (c : Client T) (req : Request) (s t : Session T) (name : String)
      → Alike s t
      → Selected c s (ok (select_track env out c req t name))
  unfolding select_track rtsp_quick_response response_send
  select_track-Selected c req s t name a =
      if-cases (λ (r : Client T × Session T × Option Track). Selected c s (ok r))
        (not (str_is_unreserved (some (codes name)))) _ _ (λ e. ((refl, (refl, refl, refl)), a))
        (λ e.
          match-cases (λ (r : Client T × Session T × Option Track). Selected c s (ok r))
            (find_track name t.tracks) _ _ (λ f. ((refl, (refl, refl, refl)), a))
            (λ x f. ((refl, (refl, refl, refl)), a)))

  known_track-Selected :
      (c : Client T) (req : Request) (s : Session T) (o : Option String)
      → Selected c s (ok (known_track env out c req s o))
  unfolding known_track rtsp_quick_response response_send
  known_track-Selected c req s none = ((refl, (refl, refl, refl)), (refl, refl))
  known_track-Selected c req s (some String.[]) = ((refl, (refl, refl, refl)), (refl, refl))
  known_track-Selected c req s (some (String.◌∷◌ k String.[])) =
      ((refl, (refl, refl, refl)), (refl, refl))
  known_track-Selected c req s (some (String.◌∷◌ k (String.◌∷◌ l name))) =
      if-cases (λ (r : Client T × Session T × Option Track). Selected c s (ok r)) (code k == b'/') _
        _ (λ e. select_track-Selected c req s s (String.◌∷◌ l name) (refl, refl))
        (λ e. ((refl, (refl, refl, refl)), (refl, refl)))

  -- The request has an object and a URI, whose path can be unescaped; no live resource that is new
  -- fails to start, and no call of `r_pause` hangs.
  pub record IsProper (req : Request) : Type 0 where
    pub object : String
    pub has_object : req.object ≡ some object
    pub path : String
    pub has_uri : path_of req.uri ≡ some path
    pub plain : String
    pub unescaped : out.unescape path ≡ some plain
    pub opens : OpensSafely out
    pub pause_returns : env.pause_hangs ≡ false

  open_track-Selected :
      (c : Client T) (req : Request) (s : Session T) (base name : String)
      → IsProper req
      → Selected c s (open_track env out c req s base name)
  unfolding open_track rtsp_quick_response response_send
  open_track-Selected c req s base name p =
      match-cases (Selected c s) (path_of req.uri) _ _
        (λ e. absurd (let g = sym e ∙ p.has_uri in cc))
        (λ path e.
          match-cases (Selected c s) (out.unescape path) _ _
            (λ f.
              absurd (
                let g = some_path path e p in
                let h = sym f ∙ ap out.unescape g ∙ p.unescaped in cc))
            (λ q f.
              resource-cases (Selected c s) out (some (resource_path env out q)) _
                (λ g.
                  absurd
                    (let h = p.opens (some (resource_path env out q)) in let i = sym g ∙ h in cc))
                ((refl, (refl, refl, refl)), (refl, refl))
                (select_track-Selected c req s _ name (refl, refl))))
    where
      some_path : (path : String) → path_of req.uri ≡ some path → IsProper req → path ≡ p.path
      some_path path e q = let g = sym e ∙ p.has_uri in cc

  select-Selected :
      (c : Client T) (req : Request) (s : Session T)
      → IsProper req
      → Selected c s (select_requested_track env out c req s)
  unfolding select_requested_track rtsp_quick_response response_send
  select-Selected c req s p =
      match-cases (Selected c s) req.object _ _ (λ e. absurd (let g = sym e ∙ p.has_object in cc))
        (λ object e.
          match-cases (Selected c s) s.resource_uri _ _
            (λ f.
              match-cases (Selected c s) (split_last b'/' object) _ _
                (λ g. ((refl, (refl, refl, refl)), (refl, refl)))
                (λ r g. open_track-Selected c req s (r.0) (r.1) p))
            (λ uri f. known_track-Selected c req s (after_prefix uri object)))

  -- A transport changes nothing but the channels.
  transport-Passed : (c : Client T) (n : ℕ) (a b : Option ℕ) → Passed c ((transport c n a b).0)
  unfolding transport
  transport-Passed c n a b =
      if-cases (λ (r : Client T × Option (ℕ × ℕ)). Passed c (r.0)) _ _ _
        (λ e. (refl, (refl, refl, refl))) (λ e. (refl, (refl, refl, refl)))

  abbrev Tried : Client T → Outcome (Client T × Option String) → Type 0
  Tried c (fail f) = ⊥
  Tried c (ok r) = Passed c (r.0)

  Tried-twice :
      (c d : Client T) (o : Outcome (Client T × Option String)) → Passed c d → Tried d o → Tried c o
  Tried-twice c d (fail f) p q = q
  Tried-twice c d (ok r) p q = Passed-twice c d (r.0) p q

  attempted :
      (c : Client T) (n : ℕ) (ps : List ParsedTransport) (a : Attempt)
      → Connects a
      → Tried c (try_transports env out c n fresh ps)
      → Tried c (
          attempt a fresh >>= λ b. elim b.1 [
            | some text ↦ ok (c, some text)
            | none ↦ try_transports env out c n (b.0) ps
          ])
  unfolding attempt
  attempted c n ps sockets_fail h t = t
  attempted c n ps connect1_fails h t = absurd h
  attempted c n ps connect2_fails h t = absurd h
  attempted c n ps (connected text) h t = (refl, (refl, refl, refl))

  try_transports-Tried :
      (c : Client T) (n : ℕ) (ps : List ParsedTransport)
      → All (Supported out) ps
      → Tried c (try_transports env out c n fresh ps)
  unfolding try_transports
  try_transports-Tried c n [] h = (refl, (refl, refl, refl))
  try_transports-Tried c n (p ∷ ps) (h, hs) =
      carrier-cases (Tried c) p.protocol _ _ _
        (λ e.
          attempted c n ps (out.udp_transport (length ps) p) (h.1 (length ps))
            (try_transports-Tried c n ps hs))
        (λ e.
          let r = transport c n p.rtp_channel p.rtcp_channel in
          let q = transport-Passed c n p.rtp_channel p.rtcp_channel in
          match-cases (Tried c) (r.1) _ _
            (λ f. Tried-twice c (r.0) _ q (try_transports-Tried (r.0) n ps hs)) (λ ch f. q))
        (λ e. absurd (h.0 e))

  -- The session is as SETUP may leave one.
  abbrev pub Settled : Session T → Option (Session T) → Type 0
  Settled s none = ⊥
  Settled s (some t) =
      Move setup (state_code s.cur_state) (state_code t.cur_state)
      × (t.play_requests ≡ s.play_requests)

  abbrev pub Ready : Client T → Session T → Outcome (Client T) → Type 0
  Ready c s (fail f) = ⊥
  Ready c s (ok d) = Settled s d.session × Same c d

  Alike-Settled : (s t : Session T) → Alike s t → Settled s (some t)
  Alike-Settled s t a = (inl (ap state_code (sym (a.0))), a.1)

  set_ready-Settled : (s t : Session T) → Alike s t → Settled s (some (set_ready env out t))
  unfolding set_ready
  set_ready-Settled s t a =
      if-cases (λ u. Settled s (some u)) (state_code t.cur_state == 0) _ _
        (λ e. (inr (let f = ap state_code (a.0) in ground (arith, e, f), refl), a.1))
        (λ e. Alike-Settled s t a)

  setup_track-Ready :
      (c d : Client T) (req : Request) (s t : Session T) (object : String) (k : Track)
      (ps : List ParsedTransport)
      → Holds c t d
      → Alike s t
      → All (Supported out) ps
      → Ready c s (setup_track env out d req t object k ps)
  unfolding setup_track send_setup_reply response_send rtsp_quick_response
  setup_track-Ready c d req s t object k ps h a q =
      tried (try_transports env out d (length t.rtp_sessions) fresh ps)
        (try_transports-Tried d (length t.rtp_sessions) ps q)
    where
      tried :
          (o : Outcome (Client T × Option String))
          → Tried d o
          → Ready c s (
              o >>= λ r. elim r.1 [
                | none ↦ ok (rtsp_quick_response env.date (r.0) req 461)
                | some text ↦
                    let s' = record t {
                      rtp_sessions = t.rtp_sessions ++ rtp_session_new env out object k ∷ [];
                    } in
                    let e =
                      send_setup_reply env out (record (r.0) { session = some s' }) req s' text in
                    ok (record e { session = some (set_ready env out s') })
              ])
      tried (fail f) b = b
      tried (ok r) b =
          let same : Same c (r.0) = (b.1.0 ∙ h.1.0, b.1.1 ∙ h.1.1, b.1.2 ∙ h.1.2) in
          match-cases (Ready c s) (r.1) _ _
            (λ e. (subst (Settled s) (sym (b.0 ∙ h.0)) (Alike-Settled s t a), same))
            (λ text e. (set_ready-Settled s _ a, same))

  pub setup_session-Ready :
      (c : Client T) (req : Request) (s : Session T) (ps : List ParsedTransport)
      → IsProper req
      → All (Supported out) ps
      → Ready c s (setup_session env out c req s ps)
  unfolding setup_session
  setup_session-Ready c req s ps p q =
      selected (select_requested_track env out c req s) (select-Selected c req s p)
    where
      selected :
          (o : Outcome (Client T × Session T × Option Track))
          → Selected c s o
          → Ready c s (
              o >>= λ r. elim r.2 [
                | none ↦ ok (r.0)
                | some t ↦ elim req.object [
                  | none ↦ fail null_pointer
                  | some object ↦ setup_track env out (r.0) req (r.1) object t ps
                ]
              ])
      selected (fail f) b = b
      selected (ok r) b =
          match-cases (Ready c s) (r.2) _ _
            (λ e. (subst (Settled s) (sym (b.0.0)) (Alike-Settled s (r.1) (b.1)), b.0.1))
            (λ t e.
              match-cases (Ready c s) req.object _ _
                (λ f. absurd (let g = sym f ∙ p.has_object in cc))
                (λ object f. setup_track-Ready c (r.0) req s (r.1) object t ps (b.0) (b.1) q))

  ranged : (a b : ℕ) → Move setup a b → 1 < b → 1 < a
  ranged a b (inl e) h = omega (arith, e, h)
  ranged a b (inr e) h = let f = e.1 in omega (arith, f, h)

  Ready-carry :
      (c d : Client T) (s : Session T) (o : Outcome (Client T))
      → Same c d
      → Ready d s o
      → Ready c s o
  Ready-carry c d s (fail f) p r = r
  Ready-carry c d s (ok e) p r = (r.0, (r.1.0 ∙ p.0, r.1.1 ∙ p.1, r.1.2 ∙ p.2))

  Ready-Kept :
      (c u : Client T) (o : Outcome (Client T))
      → Passed c u
      → HasRange u.session
      → Ready u (session_or_new env out u.session) o
      → Kept setup c o
  unfolding session_new
  Ready-Kept c u (fail f) p h r = r
  Ready-Kept c u (ok d) p h r = of u.session d.session (p.0) h (r.0)
    where
      same : Same c d
      same = (r.1.0 ∙ p.1.0, r.1.1 ∙ p.1.1, r.1.2 ∙ p.1.2)

      of :
          (a b : Option (Session T))
          → a ≡ c.session
          → HasRange a
          → Settled (session_or_new env out a) b
          → Move setup (code_of c.session) (code_of b) × HasRange b × Same c d
      of a none e h s = absurd s
      of none (some t) e h s = (
        subst (λ x. Move setup (code_of x) (state_code t.cur_state)) e (s.0),
        (λ g. let k = ranged 0 (state_code t.cur_state) (s.0) g in omega (arith, k)),
        same,
      )
      of (some x) (some t) e h s = (
        subst (λ x. Move setup (code_of x) (state_code t.cur_state)) e (s.0),
        (λ g.
            subst (λ rs. 0 < length rs) (sym (s.1))
              (h (ranged (state_code x.cur_state) (state_code t.cur_state) (s.0) g))),
        same,
      )

  -- SETUP
  pub do_setup-Kept :
      (c : Client T) (req : Request)
      → IsProper req
      → All (Supported out) (offered env out req)
      → HasRange c.session
      → Kept setup c (do_setup env out c req)
  unfolding do_setup setup_offered rtsp_quick_response response_send
  do_setup-Kept c req p q h =
      let u = (check_path env c req).0 in
      let r = url-Passed env c req in
      url-cases env (Kept setup c) c req _
        (λ e. absurd (let f = sym e ∙ path-pathless req.uri p.path p.has_uri in cc))
        (if-cases (Kept setup c) (not ((check_path env c req).1)) _ _
          (λ e. (inl (same_code env c u r), session_kept env c u r h, r.1))
          (λ e. setup_offered-Kept c u req (offered env out req) p q r (session_kept env c u r h)))
    where
      setup_offered-Kept :
          (c u : Client T) (req : Request) (ps : List ParsedTransport)
          → IsProper req
          → All (Supported out) ps
          → Passed c u
          → HasRange u.session
          → Kept setup c (setup_offered env out u req ps)
      setup_offered-Kept c u req [] p q r h = (inl (same_code env c u r), h, r.1)
      setup_offered-Kept c u req (k ∷ ks) p q r h =
          let s = session_or_new env out u.session in
          Ready-Kept c u _ r h (
            Ready-carry u (record u { session = some s }) s _ (refl, refl, refl)
              (setup_session-Ready (record u { session = some s }) req s (k ∷ ks) p q))

  open_unescapable :
      (c : Client T) (req : Request) (s : Session T) (path base name : String)
      → path_of req.uri ≡ some path
      → out.unescape path ≡ none
      → open_track env out c req s base name ≡ fail null_pointer
  unfolding open_track
  open_unescapable c req s path base name h j = rw (open_track, h, j)

  select_unescapable :
      (c : Client T) (req : Request) (s : Session T) (object path base name : String)
      → s.resource_uri ≡ none
      → req.object ≡ some object
      → split_last b'/' object ≡ some (base, name)
      → path_of req.uri ≡ some path
      → out.unescape path ≡ none
      → select_requested_track env out c req s ≡ fail null_pointer
  unfolding select_requested_track
  select_unescapable c req s object path base name e f g h j =
      rw (select_requested_track, f, e, g) (open_unescapable c req s path base name h j)

  -- On a client without a session, SETUP of an object with a slash, which offers a transport and
  -- whose path is allowed but cannot be unescaped, uses a null pointer.
  pub do_setup_unescapable :
      (c : Client T) (req : Request) (object path base name : String)
      → c.session ≡ none
      → req.object ≡ some object
      → split_last b'/' object ≡ some (base, name)
      → req.uri ≡ some (some path)
      → check_forbidden_path path ≡ true
      → out.unescape path ≡ none
      → offered env out req ≢ []
      → do_setup env out c req ≡ fail null_pointer
  unfolding do_setup check_path check_url setup_offered setup_session session_new
  do_setup_unescapable c req object path base name e f g h i j k =
      rw (do_setup, allowed) (given (offered env out req) k)
    where
      allowed : check_url env c req ≡ ok (c, true)
      allowed = rw (check_url, check_path, h, i)

      given :
          (ps : List ParsedTransport) → ps ≢ [] → setup_offered env out c req ps ≡ fail null_pointer
      given [] l = absurd (l refl)
      given (p ∷ ps) l =
          let s = session_or_new env out c.session in
          let a : s.resource_uri ≡ none = ap (λ o. (session_or_new env out o).resource_uri) e in
          rw (
            setup_session,
            select_unescapable (record c { session = some s }) req s object path base name a f g
                (ap path_of h) j,
          )
