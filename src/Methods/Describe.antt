-- ===== src/Methods/Describe.antt =====
-- DESCRIBE (rtsp_method_describe.c): the SDP text of a resource.
use Prim.Native.String.{String, ◌++◌ as ◌+s+◌}
use is_rtsp_server.Base.{
  not, Option, none, some, List, [], ◌∷◌, ◌==◌, if◌then◌else◌, Outcome, ok, null_pointer, fail,
  assert, ◌>>=◌, ◌>>◌,
}
use is_rtsp_server.Protocol.{
  Request, header_content_type, header_content_base, headers_set, response_new,
}
use is_rtsp_server.Client.{Track, Client, response_send, rtsp_quick_response}
use is_rtsp_server.Methods.{Env, path_of, check_url}
use is_rtsp_server.Methods.Setup.{Resource, Outside, open_resource}

abbrev pub line_end : String
line_end = "\r\n"

module _ {T : Type 0} (env : Env T) (out : Outside T) where
  -- `sdp_track_descr`
  unfoldable pub track_descr : Track → Outcome String
  track_descr t = do
    assert t.is_defined
    ok (t.media +s+ (" 0 RTP/AVP " +s+ (env.show t.payload_type +s+ (line_end +s+ t.description))))

  unfoldable pub tracks_descr : List Track → Outcome String
  unfolding track_descr
  tracks_descr [] = ok ""
  tracks_descr (t ∷ ts) =
      let rest = tracks_descr ts in track_descr t >>= λ a. rest >>= λ b. ok (a +s+ b)

  -- The lines of `sdp_session_descr` before those of the tracks.
  unfoldable pub session_lines : String → Resource T → String
  session_lines family r =
      let now = out.ntp env.time in
      let changed = if r.mtime == 0 then now else out.ntp r.mtime in
      let origin =
        "o=- "
        +s+ (now
            +s+ (" "
                +s+ (changed +s+ (" IN " +s+ (family +s+ (" " +s+ (out.host +s+ line_end))))))) in
      let connection = "c=IN " +s+ (family +s+ (" " +s+ (out.local_host +s+ line_end))) in
      let tool = "a=tool:" +s+ (out.signature +s+ line_end) in
      let range =
        if r.has_end then "a=range:npt=0-" +s+ (env.print r.duration +s+ line_end) else "" in
      "v=0\r\n"
      +s+ (origin
          +s+ ("s=RTSP Session\r\n"
              +s+ (connection
                  +s+ ("t=0 0\r\n"
                      +s+ ("a=type:broadcast\r\n" +s+ (tool +s+ ("a=control:*\r\n" +s+ range)))))))

  -- `sdp_session_descr`: no text if the peer's family is not known, or the resource cannot be
  -- opened. A path that cannot be unescaped opens the document root.
  unfoldable pub session_descr : Request → Outcome (Option String)
  unfolding open_resource session_lines tracks_descr
  session_descr req = elim out.family [
    | none ↦ ok none
    | some family ↦ elim (path_of req.uri) [
      | none ↦ fail null_pointer
      | some path ↦ open_resource out (out.unescape path) >>= λ o. elim o [
        | none ↦ ok none
        | some r ↦ (tracks_descr r.tracks >>= λ t. ok (some (session_lines family r +s+ t)))
      ]
    ]
  ]

  -- The response of `RTSP_describe`.
  unfoldable pub describe_answer : Client T → Request → Option String → Client T
  unfolding response_send response_new headers_set rtsp_quick_response
  describe_answer c req none = rtsp_quick_response env.date c req 404
  describe_answer c req (some text) =
      let r = response_new env.date req 200 in
      let object : String = elim req.object [ none ↦ "(null)" | some o ↦ o ] in
      response_send c (record r {
        body = some text;
        headers =
            headers_set header_content_base (object +s+ "/")
              (headers_set header_content_type "application/sdp" r.headers);
      })

  -- `RTSP_describe`
  unfoldable pub do_describe : Client T → Request → Outcome (Client T)
  unfolding check_url session_descr describe_answer
  do_describe c req = check_url env c req >>= λ u.
      if not (u.1) then ok (u.0) else (session_descr req >>= λ d. ok (describe_answer (u.0) req d))
