-- ===== src/Protocol.antt =====
-- The messages of the RFC 822 protocols: rfc822proto.h, rfc822proto-constants.h, and how a response
-- is made in rfc822_response.c. Texts are native strings; a header table is an association list.
pub mod Sent
pub mod Framed
pub mod Names
pub mod Split
pub mod Echo
mod Tests
use Prim.Native.String.{String, compare}
use Prim.Native.Nat.{Ordering}
use is_rtsp_server.Base.{
  ℕ, Bool, true, false, Option, none, some, List, [], ◌∷◌, ◌==◌, if◌then◌else◌,
}

-- `RFC822_Protocol`
pub data Proto : Type 0 where
  proto_invalid proto_unsupported rtsp10 rtsp_unsupported_version : Proto
  http10 http11 http_unsupported_version : Proto

-- `RFC822_Header`
pub data Header : Type 0 where
  header_invalid header_unsupported header_allow header_authorization header_bandwidth : Header
  header_cseq header_content_base header_content_length header_content_type header_date : Header
  header_location header_proxy_require header_public header_rtp_info header_range : Header
  header_referer header_require header_server header_session header_speed : Header
  header_timestamp header_transport header_unsupported_options header_user_agent : Header
  header_cache_control header_connection header_expires header_pragma : Header
  header_x_sessioncookie : Header

-- The value of the C enumerator, which is the key in a header table.
abbrev pub header_code : Header → ℕ
header_code header_invalid = 0
header_code header_unsupported = 1
header_code header_allow = 2
header_code header_authorization = 3
header_code header_bandwidth = 4
header_code header_cseq = 5
header_code header_content_base = 6
header_code header_content_length = 7
header_code header_content_type = 8
header_code header_date = 9
header_code header_location = 10
header_code header_proxy_require = 11
header_code header_public = 12
header_code header_rtp_info = 13
header_code header_range = 14
header_code header_referer = 15
header_code header_require = 16
header_code header_server = 17
header_code header_session = 18
header_code header_speed = 19
header_code header_timestamp = 20
header_code header_transport = 21
header_code header_unsupported_options = 22
header_code header_user_agent = 23
header_code header_cache_control = 24
header_code header_connection = 25
header_code header_expires = 26
header_code header_pragma = 27
header_code header_x_sessioncookie = 28

-- `RTSP_Method`, as the table of the state machine is indexed by it.
pub data Method : Type 0 where
  describe options pause play setup teardown : Method

-- The method that an `int method_id` stands for; 0 is `Invalid` and 1 `Unsupported`.
unfoldable pub method_of : ℕ → Option Method
method_of n =
    if n == 2
    then some describe
    else if n == 3
    then some options
    else if n == 4
    then some pause
    else if n == 5
    then some play
    else if n == 6
    then some setup
    else if n == 7
    then some teardown
    else none

abbrev pub Headers : Type 0
Headers = List (Header × String)

-- `rfc822_headers_lookup`
unfoldable pub headers_lookup : Header → Headers → Option String
headers_lookup h [] = none
headers_lookup h (e ∷ es) =
    if header_code e.0 == header_code h then some (e.1) else headers_lookup h es

-- `rfc822_headers_set`: a value that the header had is replaced.
unfoldable pub headers_set : Header → String → Headers → Headers
headers_set h v [] = (h, v) ∷ []
headers_set h v (e ∷ es) =
    if header_code e.0 == header_code h then (h, v) ∷ es else e ∷ headers_set h v es

-- `strcmp(s, t) == 0`
abbrev pub same_text : String → String → Bool
same_text s t = elim (compare s t) [ Ordering.eq ↦ true | _ ↦ false ]

-- `RFC822_Request`; `uri` is the parsed URI, by its path, which may be missing.
pub record Request : Type 0 where
  pub proto : Proto
  pub method_id : ℕ
  pub object : Option String
  pub uri : Option (Option String)
  pub headers : Headers

-- `RFC822_Response`; `body` is empty but for DESCRIBE.
pub record Response : Type 0 where
  pub proto : Proto
  pub status : ℕ
  pub headers : Headers
  pub body : Option String

-- Copies a header of the request to the response, if the request has it.
unfoldable pub copy_header : Header → Request → Headers → Headers
unfolding headers_lookup headers_set
copy_header h req hs = elim (headers_lookup h req.headers) [
  | none ↦ hs
  | some v ↦ headers_set h v hs
]

-- `rfc822_response_new`, at a time that `http_timestamp` prints as `date`.
unfoldable pub response_new : String → Request → ℕ → Response
unfolding copy_header headers_set
response_new date req code = record {
  proto = req.proto;
  status = code;
  headers = copy_header header_timestamp req (
      copy_header header_session req (
        copy_header header_cseq req
          (headers_set header_date date (headers_set header_server "v1.0.2" []))));
  body = none;
}

-- The response of `rfc822_quick_response`.
unfoldable pub quick_response : String → Request → Proto → ℕ → Response
unfolding response_new headers_set
quick_response date req p code =
    let r = response_new date req code in
    record r { proto = p; headers = headers_set header_connection "close" r.headers }
