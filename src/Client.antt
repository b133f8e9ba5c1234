-- ===== src/Client.antt =====
-- The client object of rtsp.h, its session, and the responses that it is sent. The type `T` of
-- times stands for `double`.
use Prim.Native.String.{String}
use is_rtsp_server.Base.{ℕ, Bool, Option, List, [], ◌∷◌, ◌++◌}
use is_rtsp_server.Protocol.{Request, Response, rtsp10, quick_response}

-- `RFC822_Parser_State`
pub data State : Type 0 where
  begin interleaved rtsp_headers rtsp_content http_headers http_content http_idle : State

-- `RTSP_Server_State`
pub data ServerState : Type 0 where
  server_init server_ready server_playing server_recording : ServerState

-- `RTSP_Range`
pub record Range (T : Type 0) : Type 0 where
  pub begin_time : T
  pub end_time : T
  pub playback_time : T

-- `RTP_session`, as far as PLAY and PAUSE change it. `writer` is when its timer is next due, none
-- if the timer is stopped.
pub record RtpSession (T : Type 0) : Type 0 where
  pub uri : String
  pub multicast : Bool
  pub live : Bool
  pub clock_rate : ℕ
  pub start_rtptime : ℕ
  pub last_packet_send_time : ℕ
  pub writer : Option T

-- `Track`, as far as the methods use it. `is_defined` is a media type other than `MP_undef`, and
-- `description` its lines of an SDP text.
pub record Track : Type 0 where
  pub name : String
  pub live : Bool
  pub clock_rate : ℕ
  pub payload_type : ℕ
  pub is_defined : Bool
  pub media : String
  pub description : String

-- `RTSP_session`, with what it uses of its resource. The resource is open if and only if
-- `resource_uri` is there: the source sets and clears the two pointers together.
pub record Session (T : Type 0) : Type 0 where
  pub session_id : String
  pub cur_state : ServerState
  pub started : Bool
  pub rtp_sessions : List (RtpSession T)
  pub resource_uri : Option String
  pub tracks : List Track
  pub seekable : Bool
  pub duration : T
  pub play_requests : List (Range T)

-- `RTSP_Client`, with the responses that it was sent, the latest last. `channels` has, for an RTCP
-- channel, the number of the RTP session that it belongs to; `received` has the packets that
-- `rtsp_interleaved_receive` was called with, which it only looks up and logs; `timer` is whether the time-out timer runs.
pub record Client (T : Type 0) : Type 0 where
  pub first_free_channel : ℕ
  pub status : State
  pub input : List ℕ
  pub pending_request : Option Request
  pub channels : List (ℕ × ℕ)
  pub session : Option (Session T)
  pub last_cseq : ℕ
  pub timer : Bool
  pub sent : List Response
  pub received : List (ℕ × List ℕ)

module _ {T : Type 0} where
  -- `rfc822_response_send`
  unfoldable pub response_send : Client T → Response → Client T
  response_send c r = record c { sent = c.sent ++ r ∷ [] }

  -- `rtsp_quick_response`: the protocol of the response is RTSP whatever that of the request.
  unfoldable pub rtsp_quick_response : String → Client T → Request → ℕ → Client T
  unfolding response_send quick_response
  rtsp_quick_response date c req code = response_send c (quick_response date req rtsp10 code)
