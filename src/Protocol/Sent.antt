-- ===== src/Protocol/Sent.antt =====
-- The text of a response: the names of rfc822proto.c, in the form without tables that position
-- independent code is built with, and `rfc822_response_send` of rfc822_response.c. Texts that are
-- sent are lists of codes.
use Prim.Native.String.{String}
use is_rtsp_server.Base.{
  ℕ, ◌+◌, Option, none, some, List, [], ◌∷◌, ◌++◌, length, ◌==◌, if◌then◌else◌, Outcome, ok, fail,
  assertion, ◌>>=◌,
}
use is_rtsp_server.Text.{codes}
use is_rtsp_server.Protocol.{
  Proto, rtsp10, rtsp_unsupported_version, http10, http11, http_unsupported_version, Header,
  header_allow, header_authorization, header_bandwidth, header_cache_control, header_connection,
  header_content_base, header_content_length, header_content_type, header_cseq, header_date,
  header_expires, header_location, header_pragma, header_proxy_require, header_public, header_range,
  header_referer, header_require, header_rtp_info, header_server, header_session, header_speed,
  header_timestamp, header_transport, header_unsupported_options, header_user_agent,
  header_x_sessioncookie, Headers, Response,
}

-- `rfc822_header_to_string`
unfoldable pub header_to_string : Header → Outcome String
header_to_string header_allow = ok "Allow"
header_to_string header_authorization = ok "Authorization"
header_to_string header_bandwidth = ok "Bandwidth"
header_to_string header_cseq = ok "CSeq"
header_to_string header_content_base = ok "Content-Base"
header_to_string header_content_length = ok "Content-Length"
header_to_string header_content_type = ok "Content-Type"
header_to_string header_date = ok "Date"
header_to_string header_location = ok "Location"
header_to_string header_proxy_require = ok "Proxy-Require"
header_to_string header_public = ok "Public"
header_to_string header_rtp_info = ok "RTP-Info"
header_to_string header_range = ok "Range"
header_to_string header_referer = ok "Referer"
header_to_string header_require = ok "Require"
header_to_string header_server = ok "Server"
header_to_string header_session = ok "Session"
header_to_string header_speed = ok "Speed"
header_to_string header_timestamp = ok "Timestamp"
header_to_string header_transport = ok "Transport"
header_to_string header_unsupported_options = ok "Unsupported"
header_to_string header_user_agent = ok "User-Agent"
header_to_string header_cache_control = ok "Cache-Control"
header_to_string header_connection = ok "Connection"
header_to_string header_expires = ok "Expires"
header_to_string header_pragma = ok "Pragma"
header_to_string header_x_sessioncookie = ok "x-sessioncookie"
header_to_string _ = fail assertion

-- `rtsp_response_reason`
unfoldable pub rtsp_response_reason : ℕ → Outcome String
rtsp_response_reason code =
    if code == 451
    then ok "Parameter Not Understood"
    else if code == 453
    then ok "Not Enough Bandwidth"
    else if code == 454
    then ok "Session Not Found"
    else if code == 455
    then ok "Method Not Valid In This State"
    else if code == 456
    then ok "Header Field Not Valid for Resource"
    else if code == 457
    then ok "Invalid Range"
    else if code == 459
    then ok "Aggregate Operation Not Allowed"
    else if code == 460
    then ok "Only Aggregate Operation Allowed"
    else if code == 461
    then ok "Unsupported Transport"
    else if code == 551
    then ok "Option Not Supported"
    else fail assertion

-- `http_response_reason`
abbrev pub http_response_reason : ℕ → Outcome String
http_response_reason code = fail assertion

-- The second half of `rfc822_response_reason`: the codes of one protocol.
unfoldable pub reason_in : Proto → ℕ → Outcome String
unfolding rtsp_response_reason
reason_in rtsp10 code = rtsp_response_reason code
reason_in rtsp_unsupported_version code = rtsp_response_reason code
reason_in http10 code = http_response_reason code
reason_in http11 code = http_response_reason code
reason_in http_unsupported_version code = http_response_reason code
reason_in _ code = fail assertion

-- `rfc822_response_reason`
unfoldable pub response_reason : Proto → ℕ → Outcome String
unfolding reason_in
response_reason proto code =
    if code == 100
    then ok "Continue"
    else if code == 200
    then ok "Ok"
    else if code == 201
    then ok "Created"
    else if code == 202
    then ok "Accepted"
    else if code == 302
    then ok "Found"
    else if code == 400
    then ok "Bad Request"
    else if code == 403
    then ok "Forbidden"
    else if code == 404
    then ok "Not Found"
    else if code == 406
    then ok "Not Acceptable"
    else if code == 415
    then ok "Unsupported Media Type"
    else if code == 500
    then ok "Internal Server Error"
    else if code == 501
    then ok "Not Implemented"
    else if code == 503
    then ok "Service Unavailable"
    else if code == 505
    then ok "Protocol Version Not Supported"
    else reason_in proto code

-- `rfc822_proto_to_string`
unfoldable pub proto_to_string : Proto → Outcome String
proto_to_string rtsp10 = ok "RTSP/1.0"
proto_to_string rtsp_unsupported_version = ok "RTSP/1.0"
proto_to_string http10 = ok "HTTP/1.0"
proto_to_string http11 = ok "HTTP/1.1"
proto_to_string http_unsupported_version = ok "HTTP/1.1"
proto_to_string _ = fail assertion

abbrev pub line_end : List ℕ
line_end = 13 ∷ 10 ∷ []

-- `rfc822_response_append_headers`, without the end of the line
abbrev pub header_line : String → List ℕ → List ℕ
header_line name value = codes name ++ (codes ": " ++ value)

-- The lines of `g_hash_table_foreach` over the headers, in the order of the table.
unfoldable pub header_lines : Headers → Outcome (List (List ℕ))
unfolding header_to_string
header_lines [] = ok []
header_lines (h ∷ hs) =
    let rest = header_lines hs in
    header_to_string (h.0) >>= λ n. rest >>= λ ls. ok (header_line n (codes (h.1)) ∷ ls)

-- The body with a line end.
unfoldable pub entity : Option String → List ℕ
entity none = []
entity (some body) = codes body ++ line_end

-- The lines, each with its end.
abbrev pub join_lines : List (List ℕ) → List ℕ
join_lines [] = []
join_lines (l ∷ ls) = l ++ (line_end ++ join_lines ls)

module _ (show : ℕ → String) where
  -- The line on the length of the body, and the line end that follows it.
  unfoldable pub length_lines : Option String → List (List ℕ)
  length_lines none = []
  length_lines (some body) =
      header_line "Content-Length" (codes (show (length (codes body) + 2))) ∷ []

  -- `rfc822_response_send`: what it passes to `rtsp_write_string`.
  unfoldable pub response_text : Response → Outcome (List ℕ)
  unfolding header_lines length_lines entity response_reason proto_to_string
  response_text r = proto_to_string r.proto >>= λ p. response_reason r.proto r.status >>= λ reason.
      header_lines r.headers >>= λ ls. ok (
        join_lines (
          (codes p ++ (32 ∷ (codes (show r.status) ++ (32 ∷ codes reason))))
          ∷ (ls ++ length_lines r.body))
        ++ (line_end ++ entity r.body))
