-- ===== src/Methods/Setup.antt =====
-- SETUP (rtsp_method_setup.c) with `rtp_session_new` of rtp.c, and what SETUP and DESCRIBE use of the
-- outside.
use Prim.Native.String.{String, ◌++◌ as ◌+s+◌}
use Prim.Native.Char.{code}
use text.Mathlib.Text.{◌==◌ as ◌=s=◌}
use is_rtsp_server.Base.{
  ℕ, ◌≡◌, sym, subst, if-cases, Bool, true, ◌||◌, false, not, Option, none, some, List, [], ◌∷◌,
  ◌++◌, length, ◌==◌, if◌then◌else◌, Outcome, ok, fail, null_pointer, dangling, ◌>>=◌,
}
use is_rtsp_server.Text.{codes, str_is_unreserved, split_last, after_prefix}
use is_rtsp_server.Protocol.{
  Request, header_transport, header_session, headers_lookup, headers_set, response_new,
}
use is_rtsp_server.Client.{
  server_init, server_ready, Track, RtpSession, Session, Client, response_send, rtsp_quick_response,
}
use is_rtsp_server.Interleaved.{transport}
use is_rtsp_server.Machine.{or_empty}
use is_rtsp_server.Resource.Shelf.{Shelf, look_up}
use is_rtsp_server.Resource.Opening.{File, Opened, is_broken, Ends, r_open, r_open-Ends}
use is_rtsp_server.Methods.{Env, state_code, path_of, check_url}

-- `RTP_Protocol`; without SCTP, the table of transports has no function for it.
pub data Carrier : Type 0 where
  udp tcp sctp : Carrier

-- `struct ParsedTransport`; a channel that the client left open is `none`.
pub record ParsedTransport : Type 0 where
  pub protocol : Carrier
  pub rtp_channel : Option ℕ
  pub rtcp_channel : Option ℕ

-- What `r_open` opens, as far as the methods use it. `mtime` is 0 if it is not known, and
-- `has_end` is whether the duration is above 0 and finite.
pub record Resource (T : Type 0) : Type 0 where
  pub tracks : List Track
  pub seekable : Bool
  pub duration : T
  pub has_end : Bool
  pub mtime : ℕ

-- How far `rtp_udp_transport` comes: the sockets or the connection of the first or of the second one
-- fail, or it gives the text for the client.
pub data Attempt : Type 0 where
  sockets_fail connect1_fails connect2_fails : Attempt
  connected : String → Attempt

-- Which of the two addresses of an RTP session, `rtp_sa` and `rtcp_sa`, point to freed memory.
pub record Addresses : Type 0 where
  pub rtp_freed : Bool
  pub rtcp_freed : Bool

abbrev pub fresh : Addresses
fresh = record { rtp_freed = false; rtcp_freed = false }

-- The addresses in `rtp_udp_transport`: it sets the first one before the first connection and the
-- second one before the second, and what is set is freed at `error`, but stays set.
unfoldable pub attempt : Attempt → Addresses → Outcome (Addresses × Option String)
attempt sockets_fail m = if m.rtp_freed || m.rtcp_freed then fail dangling else ok (m, none)
attempt connect1_fails m =
    if m.rtcp_freed then fail dangling else ok (record m { rtp_freed = true }, none)
attempt connect2_fails m = ok (record { rtp_freed = true; rtcp_freed = true }, none)
attempt (connected text) m = ok (m, some text)

-- What SETUP and DESCRIBE ask of the outside: random numbers, the sockets of a UDP transport (the
-- text for the client, if they can be opened), the table of live resources at the time and what the
-- system and the demuxers answer for a path or for the document root, the resource that is opened,
-- `g_uri_unescape_string`, the parser of the `Transport` header, and how numbers are printed.
-- `family` is the address family of the peer, if it is known.
pub record Outside (T : Type 0) : Type 0 where
  pub new_id : String
  pub ssrc : ℕ
  pub rtptime : ℕ
  pub udp_transport : ℕ → ParsedTransport → Attempt
  pub shelf : Shelf
  pub file : Option String → File
  pub resource : Option String → Resource T
  pub unescape : String → Option String
  pub parse_transport : String → List ParsedTransport
  pub hex : ℕ → String
  pub ntp : ℕ → String
  pub family : Option String
  pub host : String
  pub local_host : String
  pub signature : String

-- `r_open`: what `Resource.Opening.r_open` makes of the table and of what the system answers.
unfoldable pub open_resource :
    {T : Type 0} → Outside T → Option String → Outcome (Option (Resource T))
open_resource out path = r_open (out.file path) (or_empty path) out.shelf >>= λ o.
    ok (if o.resource then some (out.resource path) else none)

-- No live resource that is not in the table fails to start.
abbrev pub OpensSafely : {T : Type 0} → Outside T → Type 0
OpensSafely out =
    (path : Option String) → is_broken (out.file path) (look_up (or_empty path) out.shelf) ≡ false

pub resource-cases :
    {T B : Type 0} (P : Outcome B → Type 0) (out : Outside T) (path : Option String)
    (k : Option (Resource T) → Outcome B)
    → (is_broken (out.file path) (look_up (or_empty path) out.shelf) ≡ true → P (fail dangling))
    → P (k none)
    → P (k (some (out.resource path)))
    → P (open_resource out path >>= k)
unfolding open_resource
resource-cases P out path k f g h =
    of (r_open (out.file path) (or_empty path) out.shelf)
      (r_open-Ends (out.file path) (or_empty path) out.shelf)
  where
    of :
        (x : Outcome Opened)
        → Ends (out.file path) (or_empty path) out.shelf (look_up (or_empty path) out.shelf) x
        → P ((x >>= λ o. ok (if o.resource then some (out.resource path) else none)) >>= k)
    of (fail e) (a, b) = subst (λ y. P (fail y)) (sym b) (f a)
    of (ok o) r = if-cases (λ z. P (k z)) o.resource _ _ (λ e. h) (λ e. g)

-- `r_find_track`
unfoldable pub find_track : String → List Track → Option Track
find_track name [] = none
find_track name (t ∷ ts) = if t.name =s= name then some t else find_track name ts

module _ {T : Type 0} (env : Env T) (out : Outside T) where
  -- `rtsp_session_new`
  unfoldable pub session_new : Session T
  session_new = record {
    session_id = out.new_id;
    cur_state = server_init;
    started = false;
    rtp_sessions = [];
    resource_uri = none;
    tracks = [];
    seekable = false;
    duration = env.origin;
    play_requests = [];
  }

  -- The client with a session, which it answers with a code.
  abbrev pub answer : Client T → Request → Session T → ℕ → Client T
  answer c req s code = rtsp_quick_response env.date (record c { session = some s }) req code

  -- The end of `select_requested_track`: the track of a name.
  unfoldable pub select_track :
      Client T → Request → Session T → String → Client T × Session T × Option Track
  unfolding str_is_unreserved find_track rtsp_quick_response
  select_track c req s name =
      if not (str_is_unreserved (some (codes name)))
      then (answer c req s 460, s, none)
      else elim (find_track name s.tracks) [
        | none ↦ (answer c req s 404, s, none)
        | some t ↦ (record c { session = some s }, s, some t)
      ]

  -- The path of the resource: what stands before the last slash, if there is one.
  unfoldable pub resource_path : String → String
  unfolding split_last
  resource_path path = elim (split_last b'/' path) [ none ↦ path | some r ↦ r.0 ]

  -- `select_requested_track` on a session with no resource: the object is the URI of the resource,
  -- a slash, and the track.
  unfoldable pub open_track :
      Client T
      → Request
      → Session T
      → String
      → String
      → Outcome (Client T × Session T × Option Track)
  unfolding resource_path open_resource select_track rtsp_quick_response
  open_track c req s base name = elim (path_of req.uri) [
    | none ↦ fail null_pointer
    | some path ↦ elim (out.unescape path) [
      | none ↦ fail null_pointer
      | some p ↦ open_resource out (some (resource_path p)) >>= λ o. elim o [
        | none ↦ ok (answer c req s 404, s, none)
        | some r ↦ ok (
            select_track c req
              (record s {
                resource_uri = some base;
                tracks = r.tracks;
                seekable = r.seekable;
                duration = r.duration;
              })
              name)
      ]
    ]
  ]

  -- `select_requested_track` on a session with a resource of a URI: what follows it in the object
  -- is a slash and the track.
  unfoldable pub known_track :
      Client T → Request → Session T → Option String → Client T × Session T × Option Track
  unfolding select_track rtsp_quick_response
  known_track c req s none = (answer c req s 460, s, none)
  known_track c req s (some String.[]) = (answer c req s 460, s, none)
  known_track c req s (some (String.◌∷◌ k String.[])) = (answer c req s 460, s, none)
  known_track c req s (some (String.◌∷◌ k (String.◌∷◌ l name))) =
      if code k == b'/'
      then select_track c req s (String.◌∷◌ l name)
      else (answer c req s 460, s, none)

  -- `select_requested_track`: the client, its session, and the track or none, and then the client
  -- is answered.
  unfoldable pub select_requested_track :
      Client T → Request → Session T → Outcome (Client T × Session T × Option Track)
  unfolding open_track known_track split_last after_prefix rtsp_quick_response
  select_requested_track c req s = elim req.object [
    | none ↦ fail null_pointer
    | some object ↦ elim s.resource_uri [
      | none ↦ elim (split_last b'/' object) [
        | none ↦ ok (answer c req s 460, s, none)
        | some r ↦ open_track c req s (r.0) (r.1)
      ]
      | some uri ↦ ok (known_track c req s (after_prefix uri object))
    ]
  ]

  -- The text for the client of an interleaved transport.
  unfoldable pub tcp_text : ℕ × ℕ → String
  tcp_text ch =
      "RTP/AVP/TCP;interleaved="
      +s+ (env.show (ch.0) +s+ ("-" +s+ (env.show (ch.1) +s+ (";ssrc=" +s+ out.hex out.ssrc))))

  -- The loop of `rtp_session_new` over the transports, for an RTP session of a number: the text for
  -- the client of the first one that can be set up. The attempts are told apart by what is left to try.
  unfoldable pub try_transports :
      Client T → ℕ → Addresses → List ParsedTransport → Outcome (Client T × Option String)
  unfolding transport attempt tcp_text
  try_transports c n m [] = ok (c, none)
  try_transports c n m (p ∷ ps) = elim p.protocol [
    | sctp ↦ fail null_pointer
    | udp ↦ attempt (out.udp_transport (length ps) p) m >>= λ a. elim a.1 [
      | some text ↦ ok (c, some text)
      | none ↦ try_transports c n (a.0) ps
    ]
    | tcp ↦
        let r = transport c n p.rtp_channel p.rtcp_channel in
        let rest = try_transports (r.0) n m ps in
        elim r.1 [ some ch ↦ ok (r.0, some (tcp_text ch)) | none ↦ rest ]
  ]

  -- The RTP session that `rtp_session_new` makes.
  unfoldable pub rtp_session_new : String → Track → RtpSession T
  rtp_session_new uri t = record {
    uri = uri;
    multicast = false;
    live = t.live;
    clock_rate = t.clock_rate;
    start_rtptime = out.rtptime;
    last_packet_send_time = 0;
    writer = none;
  }

  -- The state of a session after a SETUP.
  unfoldable pub set_ready : Session T → Session T
  set_ready s = if state_code s.cur_state == 0 then record s { cur_state = server_ready } else s

  -- `send_setup_reply`
  unfoldable pub send_setup_reply : Client T → Request → Session T → String → Client T
  unfolding response_send response_new headers_set
  send_setup_reply c req s text =
      let r = response_new env.date req 200 in
      response_send c (record r {
        headers =
            headers_set header_session s.session_id (headers_set header_transport text r.headers);
      })

  -- `RTSP_setup` once the track is selected.
  unfoldable pub setup_track :
      Client T → Request → Session T → String → Track → List ParsedTransport → Outcome (Client T)
  unfolding try_transports rtp_session_new set_ready send_setup_reply
  setup_track c req s object t ps = try_transports c (length s.rtp_sessions) fresh ps >>= λ r.
      elim r.1 [
        | none ↦ ok (rtsp_quick_response env.date (r.0) req 461)
        | some text ↦
            let s' = record s { rtp_sessions = s.rtp_sessions ++ rtp_session_new object t ∷ [] } in
            let d = send_setup_reply (record (r.0) { session = some s' }) req s' text in
            ok (record d { session = some (set_ready s') })
      ]

  -- `RTSP_setup` on the session that the client has by then.
  unfoldable pub setup_session :
      Client T → Request → Session T → List ParsedTransport → Outcome (Client T)
  unfolding select_requested_track setup_track
  setup_session c req s ps = select_requested_track c req s >>= λ r. elim r.2 [
    | none ↦ ok (r.0)
    | some t ↦ elim req.object [
      | none ↦ fail null_pointer
      | some object ↦ setup_track (r.0) req (r.1) object t ps
    ]
  ]

  -- The transports that the client offers; none is a header that is missing or cannot be parsed.
  unfoldable pub offered : Request → List ParsedTransport
  unfolding headers_lookup
  offered req = elim (headers_lookup header_transport req.headers) [
    | none ↦ []
    | some h ↦ out.parse_transport h
  ]

  abbrev pub session_or_new : Option (Session T) → Session T
  session_or_new none = session_new
  session_or_new (some s) = s

  -- `RTSP_setup` with the transports that are offered.
  unfoldable pub setup_offered : Client T → Request → List ParsedTransport → Outcome (Client T)
  unfolding setup_session rtsp_quick_response session_new
  setup_offered c req [] = ok (rtsp_quick_response env.date c req 461)
  setup_offered c req (p ∷ ps) =
      let s = session_or_new c.session in
      setup_session (record c { session = some s }) req s (p ∷ ps)

  -- `RTSP_setup`
  unfoldable pub do_setup : Client T → Request → Outcome (Client T)
  unfolding check_url offered setup_offered
  do_setup c req = check_url env c req >>= λ u.
      if not (u.1) then ok (u.0) else setup_offered (u.0) req (offered req)
