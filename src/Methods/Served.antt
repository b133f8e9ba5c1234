-- ===== src/Methods/Served.antt =====
-- What DESCRIBE keeps (rtsp_method_describe.c), and all the methods of RTSP together.
use Prim.Native.String.{String, ◌++◌ as ◌+s+◌}
use is_rtsp_server.Base.{
  ◌≡◌, ◌≢◌, refl, sym, ◌∙◌, Bool, true, false, not, Option, none, some, List, [], ◌∷◌, if-cases,
  match-cases, All, Outcome, ok, fail, assert, ◌>>◌, ◌>>=◌,
}
use is_rtsp_server.Protocol.{Method, describe, options, pause, play, setup, teardown, Request}
use is_rtsp_server.Client.{Track, Client, response_send, rtsp_quick_response}
use is_rtsp_server.Methods.{Env, path_of, url-cases, check_path, method_table}
use is_rtsp_server.Methods.Kept.{
  HasRange, Kept, Passed, url-Passed, same_code, session_kept, Passed-twice, do_options-Kept,
  do_pause-Kept, do_teardown-Kept,
}
use is_rtsp_server.Methods.Table.{do_play-Kept}
use is_rtsp_server.Methods.Setup.{Outside, OpensSafely, resource-cases, offered, do_setup}
use is_rtsp_server.Methods.Describe.{
  tracks_descr, track_descr, session_descr, describe_answer, do_describe,
}
use is_rtsp_server.Methods.Ready.{IsProper, Supported, path-pathless, do_setup-Kept}

-- What a track needs for its lines in the description.
abbrev pub IsDescribed : Track → Type 0
IsDescribed t = t.is_defined ≡ true

module _ {T : Type 0} (env : Env T) (out : Outside T) where
  abbrev Texted : Outcome String → Type 0
  Texted (fail f) = ⊥
  Texted (ok s) = Unit

  two_texts :
      (o p : Outcome String) → Texted o → Texted p → Texted (o >>= λ a. p >>= λ b. ok (a +s+ b))
  two_texts (fail f) p a b = a
  two_texts (ok s) (fail f) a b = b
  two_texts (ok s) (ok t) a b = tt

  asserted : (b : Bool) (o : Outcome String) → b ≡ true → Texted o → Texted (assert b >> o)
  asserted true o e h = h
  asserted false o e h = absurd cc

  track_descr-Texted : (t : Track) → IsDescribed t → Texted (track_descr env out t)
  unfolding track_descr
  track_descr-Texted t h = asserted t.is_defined _ h tt

  tracks_descr-Texted : (ts : List Track) → All IsDescribed ts → Texted (tracks_descr env out ts)
  unfolding tracks_descr
  tracks_descr-Texted [] h = tt
  tracks_descr-Texted (t ∷ ts) h =
      two_texts (track_descr env out t) (tracks_descr env out ts) (track_descr-Texted t (h.0))
        (tracks_descr-Texted ts (h.1))

  -- Whatever is opened has tracks that can be described.
  abbrev pub AreDescribed : Type 0
  AreDescribed = (path : Option String) → All IsDescribed (out.resource path).tracks

  abbrev Answered : Outcome (Option String) → Type 0
  Answered (fail f) = ⊥
  Answered (ok s) = Unit

  Texted-Answered :
      (o : Outcome String) (head : String) → Texted o → Answered (o >>= λ t. ok (some (head +s+ t)))
  Texted-Answered (fail f) head h = h
  Texted-Answered (ok s) head h = tt

  session_descr-Answered :
      (req : Request)
      → AreDescribed
      → OpensSafely out
      → path_of req.uri ≢ none
      → Answered (session_descr env out req)
  unfolding session_descr
  session_descr-Answered req d s h =
      match-cases Answered out.family _ _ (λ e. tt)
        (λ family e.
          match-cases Answered (path_of req.uri) _ _ (λ f. absurd (h f))
            (λ path f.
              resource-cases Answered out (out.unescape path) _
                (λ g. absurd (let x = s (out.unescape path) in let y = sym g ∙ x in cc)) tt
                (Texted-Answered _ _ (
                  tracks_descr-Texted (out.resource (out.unescape path)).tracks
                    (d (out.unescape path))))))

  -- A client that passes the check of its request's URL has a URL.
  url_known :
      (c : Client T) (req : Request)
      → not ((check_path env c req).1) ≡ false
      → path_of req.uri ≢ none
  unfolding check_path
  url_known c req =
      match-cases (λ (r : Client T × Bool). not (r.1) ≡ false → path_of req.uri ≢ none)
        (path_of req.uri) _ _ (λ e f. absurd cc) (λ path e f g. let h = sym e ∙ g in absurd cc)

  describe_answer-Passed :
      (c : Client T) (req : Request) (o : Option String)
      → Passed c (describe_answer env out c req o)
  unfolding describe_answer rtsp_quick_response response_send
  describe_answer-Passed c req none = (refl, (refl, refl, refl))
  describe_answer-Passed c req (some text) = (refl, (refl, refl, refl))

  do_describe-Kept :
      (c : Client T) (req : Request)
      → IsProper env out req
      → AreDescribed
      → HasRange c.session
      → Kept describe c (do_describe env out c req)
  unfolding do_describe
  do_describe-Kept c req i d h =
      let u = (check_path env c req).0 in
      let r = url-Passed env c req in
      url-cases env (Kept describe c) c req _
        (λ e. absurd (let f = sym e ∙ path-pathless req.uri i.path i.has_uri in cc))
        (if-cases (Kept describe c) (not ((check_path env c req).1)) _ _
          (λ e. (same_code env c u r, session_kept env c u r h, r.1))
          (λ e.
            answered u r (session_descr env out req)
              (session_descr-Answered req d i.opens (url_known c req e))))
    where
      answered :
          (u : Client T)
          → Passed c u
          → (o : Outcome (Option String)) → Answered o
          → Kept describe c (o >>= λ t. ok (describe_answer env out u req t))
      answered u p (fail f) a = a
      answered u p (ok t) a =
          let q =
            Passed-twice c u (describe_answer env out u req t) p (describe_answer-Passed u req t) in
          let e = describe_answer env out u req t in
          (same_code env c e q, session_kept env c e q h, q.1)

  -- If a session beyond the state ready has a range to play, the request has an object and a URI
  -- that can be unescaped, no offered transport is SCTP or a UDP one whose connection fails, every
  -- resource has tracks that can be described, no live resource that is new fails to start, and no
  -- call of `r_pause` hangs: each of the six methods neither fails nor uses a null pointer, takes the
  -- session only to a state that it may lead to, leaves a range to play, and keeps the input, the
  -- state of the parser and the number of the last request.
  pub method_table-Served :
      (m : Method) (c : Client T) (req : Request)
      → IsProper env out req
      → All (Supported out) (offered env out req)
      → AreDescribed
      → HasRange c.session
      → Kept m c (method_table env (do_describe env out) (do_setup env out) m c req)
  unfolding method_table
  method_table-Served describe c req p q d h = do_describe-Kept c req p d h
  method_table-Served setup c req p q d h = do_setup-Kept env out c req p q h
  method_table-Served options c req p q d h = do_options-Kept env c req h
  method_table-Served pause c req p q d h =
      do_pause-Kept env c req (path-pathless req.uri p.path p.has_uri) p.pause_returns h
  method_table-Served play c req p q d h =
      do_play-Kept env c req (path-pathless req.uri p.path p.has_uri) p.pause_returns h
  method_table-Served teardown c req p q d h =
      do_teardown-Kept env c req (path-pathless req.uri p.path p.has_uri) p.pause_returns h
