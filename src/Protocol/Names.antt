-- ===== src/Protocol/Names.antt =====
-- The names and reasons of rfc822proto.c, as texts of a line.
use Prim.Native.String.{String}
use is_rtsp_server.Base.{ℕ, arith, Bool, true, false, ◌==◌, if◌then◌else◌, Outcome, ok, fail}
use is_rtsp_server.Text.{codes}
use is_rtsp_server.Protocol.{
  Proto, proto_invalid, proto_unsupported, rtsp10, rtsp_unsupported_version, http10, http11,
  http_unsupported_version, Header, header_invalid, header_unsupported, header_allow,
  header_authorization, header_bandwidth, header_cache_control, header_connection,
  header_content_base, header_content_length, header_content_type, header_cseq, header_date,
  header_expires, header_location, header_pragma, header_proxy_require, header_public, header_range,
  header_referer, header_require, header_rtp_info, header_server, header_session, header_speed,
  header_timestamp, header_transport, header_unsupported_options, header_user_agent,
  header_x_sessioncookie,
}
use is_rtsp_server.Protocol.Sent.{
  header_to_string, rtsp_response_reason, reason_in, response_reason, proto_to_string,
}
use is_rtsp_server.Protocol.Framed.{Plain}

abbrev pub GoodText : Outcome String → Type 0
GoodText (fail f) = Unit
GoodText (ok t) = Plain (codes t)

choose :
    (b : Bool) (t : String) (o : Outcome String)
    → Plain (codes t)
    → GoodText o
    → GoodText (if b then ok t else o)
choose true t o h k = h
choose false t o h k = k

pub header_to_string-GoodText : (h : Header) → GoodText (header_to_string h)
unfolding header_to_string
header_to_string-GoodText header_invalid = tt
header_to_string-GoodText header_unsupported = tt
header_to_string-GoodText header_allow = omega arith
header_to_string-GoodText header_authorization = omega arith
header_to_string-GoodText header_bandwidth = omega arith
header_to_string-GoodText header_cseq = omega arith
header_to_string-GoodText header_content_base = omega arith
header_to_string-GoodText header_content_length = omega arith
header_to_string-GoodText header_content_type = omega arith
header_to_string-GoodText header_date = omega arith
header_to_string-GoodText header_location = omega arith
header_to_string-GoodText header_proxy_require = omega arith
header_to_string-GoodText header_public = omega arith
header_to_string-GoodText header_rtp_info = omega arith
header_to_string-GoodText header_range = omega arith
header_to_string-GoodText header_referer = omega arith
header_to_string-GoodText header_require = omega arith
header_to_string-GoodText header_server = omega arith
header_to_string-GoodText header_session = omega arith
header_to_string-GoodText header_speed = omega arith
header_to_string-GoodText header_timestamp = omega arith
header_to_string-GoodText header_transport = omega arith
header_to_string-GoodText header_unsupported_options = omega arith
header_to_string-GoodText header_user_agent = omega arith
header_to_string-GoodText header_cache_control = omega arith
header_to_string-GoodText header_connection = omega arith
header_to_string-GoodText header_expires = omega arith
header_to_string-GoodText header_pragma = omega arith
header_to_string-GoodText header_x_sessioncookie = omega arith

rtsp_response_reason-GoodText : (code : ℕ) → GoodText (rtsp_response_reason code)
unfolding rtsp_response_reason
rtsp_response_reason-GoodText code =
    choose (code == 451) "Parameter Not Understood" _ (omega arith) (
      choose (code == 453) "Not Enough Bandwidth" _ (omega arith) (
        choose (code == 454) "Session Not Found" _ (omega arith) (
          choose (code == 455) "Method Not Valid In This State" _ (omega arith) (
            choose (code == 456) "Header Field Not Valid for Resource" _ (omega arith) (
              choose (code == 457) "Invalid Range" _ (omega arith) (
                choose (code == 459) "Aggregate Operation Not Allowed" _ (omega arith) (
                  choose (code == 460) "Only Aggregate Operation Allowed" _ (omega arith) (
                    choose (code == 461) "Unsupported Transport" _ (omega arith)
                      (choose (code == 551) "Option Not Supported" _ (omega arith) (tt))))))))))

reason_in-GoodText : (p : Proto) (code : ℕ) → GoodText (reason_in p code)
unfolding reason_in
reason_in-GoodText proto_invalid code = tt
reason_in-GoodText proto_unsupported code = tt
reason_in-GoodText rtsp10 code = rtsp_response_reason-GoodText code
reason_in-GoodText rtsp_unsupported_version code = rtsp_response_reason-GoodText code
reason_in-GoodText http10 code = tt
reason_in-GoodText http11 code = tt
reason_in-GoodText http_unsupported_version code = tt

pub response_reason-GoodText : (p : Proto) (code : ℕ) → GoodText (response_reason p code)
unfolding response_reason
response_reason-GoodText p code = choose (code == 100) "Continue" _ (omega arith) (
    choose (code == 200) "Ok" _ (omega arith) (
      choose (code == 201) "Created" _ (omega arith) (
        choose (code == 202) "Accepted" _ (omega arith) (
          choose (code == 302) "Found" _ (omega arith) (
            choose (code == 400) "Bad Request" _ (omega arith) (
              choose (code == 403) "Forbidden" _ (omega arith) (
                choose (code == 404) "Not Found" _ (omega arith) (
                  choose (code == 406) "Not Acceptable" _ (omega arith) (
                    choose (code == 415) "Unsupported Media Type" _ (omega arith) (
                      choose (code == 500) "Internal Server Error" _ (omega arith) (
                        choose (code == 501) "Not Implemented" _ (omega arith) (
                          choose (code == 503) "Service Unavailable" _ (omega arith) (
                            choose (code == 505) "Protocol Version Not Supported" _ (omega arith)
                              (reason_in-GoodText p code))))))))))))))

pub proto_to_string-GoodText : (p : Proto) → GoodText (proto_to_string p)
unfolding proto_to_string
proto_to_string-GoodText proto_invalid = tt
proto_to_string-GoodText proto_unsupported = tt
proto_to_string-GoodText rtsp10 = omega arith
proto_to_string-GoodText rtsp_unsupported_version = omega arith
proto_to_string-GoodText http10 = omega arith
proto_to_string-GoodText http11 = omega arith
proto_to_string-GoodText http_unsupported_version = omega arith
