-- ===== src/Methods.antt =====
-- The methods of RTSP on a session: the checks of rtsp_utils.c, rtsp_method_options.c,
-- rtsp_method_teardown.c, rtsp_method_pause.c and rtsp_method_play.c, with the functions of rtp.c
-- that pause and resume the RTP sessions.
pub mod Kept
pub mod Played
pub mod Table
pub mod Setup
pub mod Describe
pub mod Ready
pub mod Served
pub mod Keeps
pub mod KeepsTable
pub mod Answers
pub mod Timer
pub mod Stranded
pub mod Timed
pub mod Selecting
pub mod Responses
pub mod Tests
pub mod ServedTests
use Prim.Native.String.{String, find, len, ◌++◌ as ◌+s+◌}
use is_rtsp_server.Base.{
  ℕ, ◌+◌, ◌-◌, ◌*◌, ◌%◌, ◌^◌, Bool, true, false, not, ◌&&◌, ◌||◌, Option, none, some, List, [], ◌∷◌,
  ◌++◌, map, leb, ◌==◌, if◌then◌else◌, Outcome, ok, fail, null_pointer, deadlock, ◌>>=◌, if-cases,
  ◌≡◌, arith, refl,
}
use is_rtsp_server.Protocol.{
  Method, describe, options, pause, play, setup, teardown, Request, Response, header_allow,
  header_public, header_range, header_rtp_info, header_user_agent, headers_lookup, headers_set,
  response_new,
}
use is_rtsp_server.Client.{
  ServerState, server_init, server_ready, server_playing, server_recording, Range, RtpSession,
  Session, Client, response_send, rtsp_quick_response,
}

-- Arithmetic on times, which are `double`, and what the methods ask of the outside: the time of the
-- event loop, the clock, the printing of numbers, the parser of ranges, and whether seeking in the
-- resource fails, and whether a call of `r_pause` is caught in the deadlock that Resource/Pausing has,
-- which the schedule of the threads decides. `unset` is -0.1, and `early` takes 0.05 off.
pub record Env (T : Type 0) : Type 0 where
  pub origin : T
  pub unset : T
  pub add : T → T → T
  pub sub : T → T → T
  pub less : T → T → Bool
  pub same : T → T → Bool
  pub early : T → T
  pub now : T
  pub time : ℕ
  pub print : T → String
  pub show : ℕ → String
  pub parse_range : String → Range T → Option (Range T)
  pub seek_fails : T → Bool
  pub pause_hangs : Bool
  pub date : String

abbrev pub state_code : ServerState → ℕ
state_code server_init = 0
state_code server_ready = 1
state_code server_playing = 2
state_code server_recording = 3

-- The methods that are valid in a state, as an `Allow` header has them.
abbrev pub valid_methods : ServerState → String
valid_methods server_init = "OPTIONS, DESCRIBE, SETUP, TEARDOWN"
valid_methods server_ready = "OPTIONS, DESCRIBE, SETUP, TEARDOWN, PLAY"
valid_methods server_playing = "OPTIONS, DESCRIBE, SETUP, TEARDOWN, PLAY, PAUSE"
valid_methods server_recording = ""

-- `strstr(s, t) != NULL`
abbrev pub contains : String → String → Bool
contains s t = leb (find s t) (len s)

-- `check_forbidden_path`
pub check_forbidden_path : String → Bool
check_forbidden_path path = not (contains path "../" || contains path "./")

-- The path of a URI, if there is one.
abbrev pub path_of : Option (Option String) → Option String
path_of none = none
path_of (some path) = path

-- A URI whose path is `NULL`, as that of `rtsp://host`.
abbrev pub is_pathless : Option (Option String) → Bool
is_pathless none = false
is_pathless (some none) = true
is_pathless (some (some path)) = false

module _ {T : Type 0} (env : Env T) where
  -- The state of the session, or that before there is one.
  abbrev pub current_state : Client T → ServerState
  current_state c = elim c.session [ none ↦ server_init | some s ↦ s.cur_state ]

  -- `rtsp_check_invalid_state`
  pub check_invalid_state : Client T → Request → ServerState → Client T × Bool
  unfolding response_send response_new headers_set
  check_invalid_state c req invalid =
      let r = response_new env.date req 455 in
      if state_code (current_state c) == state_code invalid
      then (
        response_send c
            (record r { headers = headers_set header_allow (valid_methods invalid) r.headers }),
        false,
      )
      else (c, true)

  -- `rfc822_request_check_url` on a URI that is missing or has a path
  pub check_path : Client T → Request → Client T × Bool
  unfolding rtsp_quick_response check_forbidden_path
  check_path c req = elim (path_of req.uri) [
    | none ↦ (rtsp_quick_response env.date c req 400, false)
    | some path ↦
        if check_forbidden_path path
        then (c, true)
        else (rtsp_quick_response env.date c req 403, false)
  ]

  -- `rfc822_request_check_url`: `strstr` is called on the path, which may be `NULL`.
  unfoldable pub check_url : Client T → Request → Outcome (Client T × Bool)
  unfolding check_path
  check_url c req = if is_pathless req.uri then fail null_pointer else ok (check_path c req)

  pub url-cases :
      {B : Type 0} (P : Outcome B → Type 0) (c : Client T) (req : Request)
      (k : Client T × Bool → Outcome B)
      → (is_pathless req.uri ≡ true → P (fail null_pointer))
      → P (k (check_path c req))
      → P (check_url c req >>= k)
  unfolding check_url
  url-cases P c req k f g =
      if-cases (λ (o : Outcome (Client T × Bool)). P (o >>= k)) (is_pathless req.uri) _ _ f (λ e. g)

  -- `RTSP_options`
  pub do_options : Client T → Request → Outcome (Client T)
  unfolding response_send response_new headers_set
  do_options c req =
      let r = response_new env.date req 200 in
      ok (
        response_send c (record r {
          headers =
              headers_set header_public "OPTIONS,DESCRIBE,SETUP,PLAY,PAUSE,TEARDOWN" r.headers;
        }))

  -- The calls of `r_pause` for the RTP sessions, which return for a live resource.
  unfoldable pub pause_all : List (RtpSession T) → Outcome (Unit {0})
  pause_all [] = ok tt
  pause_all (r ∷ rs) =
      let rest = pause_all rs in if not r.live && env.pause_hangs then fail deadlock else rest

  -- `rtsp_session_free`, as far as it may not return: it pauses the resource of each RTP session. That
  -- it closes the sockets is in Connection/Sessions, and that its consumers leave in BufferQueue/Free.
  unfoldable pub session_free : Option (Session T) → Outcome (Unit {0})
  unfolding pause_all
  session_free none = ok tt
  session_free (some s) = pause_all s.rtp_sessions

  -- If no call of `r_pause` hangs, all return.
  pub pause_all_lem : (rs : List (RtpSession T)) → env.pause_hangs ≡ false → pause_all rs ≡ ok tt
  unfolding pause_all
  pause_all_lem [] h = refl
  pause_all_lem (r ∷ rs) h =
      if-cases (λ o. o ≡ ok tt) (not r.live && env.pause_hangs) _ _
        (λ e. absurd (ground (arith, e, h))) (λ e. pause_all_lem rs h)

  pub session_free_lem : (o : Option (Session T)) → env.pause_hangs ≡ false → session_free o ≡ ok tt
  unfolding session_free
  session_free_lem none h = refl
  session_free_lem (some s) h = pause_all_lem s.rtp_sessions h

  -- `RTSP_teardown`
  pub do_teardown : Client T → Request → Outcome (Client T)
  unfolding check_url session_free rtsp_quick_response
  do_teardown c req = check_url c req >>= λ u.
      if not (u.1)
      then ok (u.0)
      else session_free u.0.session >>= λ _.
          ok (rtsp_quick_response env.date (record (u.0) { session = none }) req 200)

  -- `rtp_session_pause`, after its call of `r_pause`
  abbrev pub rtp_pause : RtpSession T → RtpSession T
  rtp_pause r = record r { writer = none }

  -- `rtsp_do_pause`, on the ranges of the session.
  pub pause_session : Session T → List (Range T) → Outcome (Session T)
  unfolding pause_all
  pause_session s [] = fail null_pointer
  pause_session s (r ∷ rs) = pause_all s.rtp_sessions >>= λ _. ok (record s {
    play_requests =
        record r {
          begin_time = env.add r.begin_time (env.sub env.now r.playback_time);
          playback_time = env.unset;
        }
        ∷ rs;
    rtp_sessions = map rtp_pause s.rtp_sessions;
    cur_state = server_ready;
  })

  -- `rtsp_do_pause`
  pub pause_client : Client T → Outcome (Client T)
  unfolding pause_session
  pause_client c = elim c.session [
    | none ↦ fail null_pointer
    | some s ↦
        (pause_session s s.play_requests >>= λ t. ok (record c { session = some t; timer = false }))
  ]

  -- `RTSP_pause`
  pub do_pause : Client T → Request → Outcome (Client T)
  unfolding check_invalid_state check_url pause_client rtsp_quick_response
  do_pause c req =
      let a = check_invalid_state c req server_init in
      let b = check_invalid_state (a.0) req server_ready in
      if not (a.1)
      then ok (a.0)
      else if not (b.1)
      then ok (b.0)
      else check_url (b.0) req >>= λ u.
          if not (u.1)
          then ok (u.0)
          else (pause_client (u.0) >>= λ d. ok (rtsp_quick_response env.date d req 200))

  -- The range of `parse_range_header` where the client gives none.
  abbrev pub default_range : Range T
  default_range = record {
    begin_time = env.origin;
    end_time = env.unset;
    playback_time = env.unset;
  }

  -- The end of `parse_range_header`: complete a range, and add it to the list of ranges.
  pub append_range : Session T → Range T → Session T
  append_range s r =
      let e =
        if env.less r.end_time env.origin || env.less s.duration r.end_time
        then s.duration
        else r.end_time in
      let p = if env.less r.playback_time env.origin then env.now else r.playback_time in
      let rs = if state_code s.cur_state == 2 then s.play_requests else [] in
      record s {
        play_requests =
            rs ++ record { begin_time = r.begin_time; end_time = e; playback_time = p } ∷ [];
      }

  -- `parse_range_header` with a `Range` header.
  pub given_range : Session T → Option (Range T) → Session T × ℕ
  unfolding append_range
  given_range s none = (s, 501)
  given_range s (some r) =
      if not s.seekable
        && not (env.same r.begin_time env.origin)
        && not (env.same r.end_time env.unset)
      then (s, 456)
      else (append_range s r, 200)

  -- `parse_range_header` without one: the first range of the list is resumed.
  pub same_range : Session T → List (Range T) → Session T × ℕ
  unfolding append_range
  same_range s [] = (append_range s default_range, 200)
  same_range s (r ∷ rs) =
      (record s { play_requests = record r { playback_time = env.now } ∷ rs }, 200)

  -- `parse_range_header`: the session, and the code of the response.
  pub parse_range_header : Session T → Request → Session T × ℕ
  unfolding headers_lookup given_range same_range
  parse_range_header s req = elim (headers_lookup header_range req.headers) [
    | none ↦ same_range s s.play_requests
    | some h ↦ given_range s (env.parse_range h default_range)
  ]

  -- `rtp_session_resume`
  pub rtp_resume : Range T → RtpSession T → RtpSession T
  rtp_resume range r = record r {
    start_rtptime =
        (r.start_rtptime + (env.time + 2 ^ 32 - r.last_packet_send_time % 2 ^ 32) * r.clock_rate)
        % 2 ^ 32;
    last_packet_send_time = env.time % 2 ^ 32;
    writer = some (env.early range.playback_time);
  }

  abbrev pub is_multicast : List (RtpSession T) → Bool
  is_multicast [] = false
  is_multicast (r ∷ rs) = r.multicast

  -- `do_play` on the ranges of the session, whose first it plays.
  pub play_session : Session T → List (Range T) → Outcome (Session T × ℕ)
  unfolding rtp_resume
  play_session s [] = fail null_pointer
  play_session s (r ∷ rs) =
      let t = record s { cur_state = server_playing } in
      if s.seekable && env.seek_fails r.begin_time
      then ok (s, 457)
      else if is_multicast s.rtp_sessions
      then ok (t, 200)
      else ok (record t { started = true; rtp_sessions = map (rtp_resume r) s.rtp_sessions }, 200)

  -- `rtp_session_send_play_reply`, less the comma that ends it.
  abbrev pub rtp_info_item : RtpSession T → String
  rtp_info_item r =
      let base = "url=" +s+ (r.uri +s+ ";seq=1") in
      if r.live then base else base +s+ (";rtptime=" +s+ env.show r.start_rtptime)

  pub rtp_info : List (RtpSession T) → String
  rtp_info [] = ""
  rtp_info (r ∷ rs) =
      let rest = rtp_info rs in
      elim rs [ [] ↦ rtp_info_item r | _ ∷ _ ↦ rtp_info_item r +s+ ("," +s+ rest) ]

  -- The `Range` header of `send_play_reply`.
  pub range_text : Range T → String
  range_text r =
      let b = if env.less r.begin_time env.origin then "" else env.print r.begin_time in
      let e = if env.less env.origin r.end_time then env.print r.end_time else "" in
      "npt=" +s+ (b +s+ ("-" +s+ e))

  -- `send_play_reply` on the ranges of the session, whose first is played.
  pub send_play_reply : Client T → Request → Session T → List (Range T) → Outcome (Client T)
  unfolding response_send response_new headers_set range_text rtp_info
  send_play_reply c req s [] = fail null_pointer
  send_play_reply c req s (r ∷ rs) =
      let x = response_new env.date req 200 in
      ok (
        response_send c (record x {
          headers =
              headers_set header_rtp_info (rtp_info s.rtp_sessions)
                (headers_set header_range (range_text r) x.headers);
        }))

  -- The client is the VLC that seeks with PLAY alone.
  pub is_broken_vlc : Request → Bool
  unfolding headers_lookup
  is_broken_vlc req = elim (headers_lookup header_user_agent req.headers) [
    | none ↦ false
    | some agent ↦ find agent "VLC media player" == 0
  ]

  -- `RTSP_play` once the range is known: the session `t` and the code `code`.
  pub play_answer : Client T → Request → Session T → ℕ → Outcome (Client T)
  unfolding send_play_reply rtsp_quick_response
  play_answer c req t code =
      if code == 200
      then (send_play_reply (record c { session = some t }) req t t.play_requests >>= λ d.
          ok (record d { timer = true }))
      else ok (rtsp_quick_response env.date (record c { session = some t }) req code)

  -- `RTSP_play` from `parse_range_header` on.
  pub play_range : Client T → Request → Session T → Outcome (Client T)
  unfolding parse_range_header play_session play_answer rtsp_quick_response
  play_range c req s =
      let r = parse_range_header s req in
      if not (r.1 == 200)
      then ok (rtsp_quick_response env.date (record c { session = some (r.0) }) req (r.1))
      else if state_code r.0.cur_state == 2
      then play_answer c req (r.0) 200
      else (play_session (r.0) r.0.play_requests >>= λ p. play_answer c req (p.0) (p.1))

  -- `RTSP_play` on the client's session; its id is never null.
  pub play_in : Client T → Request → Option (Session T) → Outcome (Client T)
  unfolding is_broken_vlc pause_session play_range
  play_in c req none = fail null_pointer
  play_in c req (some s) =
      if state_code s.cur_state == 2 && is_broken_vlc req
      then (pause_session s s.play_requests >>= λ t. play_range (record c { timer = false }) req t)
      else play_range c req s

  -- `RTSP_play`
  pub do_play : Client T → Request → Outcome (Client T)
  unfolding check_invalid_state check_url play_in
  do_play c req =
      let a = check_invalid_state c req server_init in
      if not (a.1)
      then ok (a.0)
      else check_url (a.0) req >>= λ u.
          if not (u.1) then ok (u.0) else play_in (u.0) req u.0.session

  -- The table of the methods, given the two of Setup and Describe.
  unfoldable pub method_table :
      (Client T → Request → Outcome (Client T))
      → (Client T → Request → Outcome (Client T))
      → Method
      → Client T
      → Request
      → Outcome (Client T)
  unfolding do_options do_pause do_play do_teardown
  method_table do_describe do_setup describe = do_describe
  method_table do_describe do_setup setup = do_setup
  method_table do_describe do_setup options = do_options
  method_table do_describe do_setup pause = do_pause
  method_table do_describe do_setup play = do_play
  method_table do_describe do_setup teardown = do_teardown
