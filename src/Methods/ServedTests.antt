-- ===== src/Methods/ServedTests.antt =====
-- Instances of the theorems on SETUP and DESCRIBE: a resource with one track, served over the RTSP
-- connection.
use Prim.Native.String.{String}
use text.Mathlib.Text.{◌==◌ as ◌=s=◌}
use is_rtsp_server.Text.{split_last}
use is_rtsp_server.Base.{
  ℕ, ◌≡◌, ◌≢◌, refl, length, true, false, none, some, List, [], ◌∷◌, Outcome, ok, fail,
  null_pointer, All, if◌then◌else◌,
}
use is_rtsp_server.Protocol.{setup, teardown, Request, rtsp10, Response, header_transport}
use is_rtsp_server.Client.{Client, Track}
use is_rtsp_server.Resource.Shelf.{look_up}
use is_rtsp_server.Resource.Opening.{live, r_open, open_shared, open_found, open_direct}
use is_rtsp_server.Methods.{method_table, check_forbidden_path}
use is_rtsp_server.Methods.Kept.{code_of, Kept}
use is_rtsp_server.Methods.Setup.{
  Outside, Resource, sockets_fail, OpensSafely, tcp, do_setup, offered,
}
use is_rtsp_server.Methods.Describe.{do_describe}
use is_rtsp_server.Methods.Ready.{IsProper, Supported, do_setup_unescapable}
use is_rtsp_server.Methods.Served.{AreDescribed, method_table-Served}
use is_rtsp_server.Methods.Timed.{FiresWell, method_table-FiresWell}
use is_rtsp_server.Methods.Tests.{env, client}

abbrev track : Track
track = record {
  name = "a";
  live = false;
  clock_rate = 90000;
  payload_type = 26;
  is_defined = true;
  media = "m=video";
  description = "";
}

abbrev film : Resource ℕ
film = record { tracks = track ∷ []; seekable = true; duration = 90; has_end = true; mtime = 0 }

abbrev pub out : Outside ℕ
out = record {
  new_id = "1";
  ssrc = 7;
  rtptime = 5;
  udp_transport = λ n p. sockets_fail;
  shelf = [];
  file = λ path. record {
    readable = true;
    demuxer = some live;
    found = true;
    fifo = false;
    starts = true;
  };
  resource = λ path. film;
  unescape = λ path. if path =s= "/%2F" then none else some path;
  parse_transport = λ s. record { protocol = tcp; rtp_channel = none; rtcp_channel = none } ∷ [];
  hex = λ n. "7";
  ntp = λ n. "0";
  family = some "IP4";
  host = "h";
  local_host = "h";
  signature = "s";
}

abbrev pub asked : String → Request
asked path = record {
  proto = rtsp10;
  method_id = 6;
  object = some "rtsp://h/film/a";
  uri = some (some path);
  headers = (header_transport, "t") ∷ [];
}

sent_codes : List Response → List ℕ
sent_codes [] = []
sent_codes (r ∷ rs) = r.status ∷ sent_codes rs

pub described : AreDescribed env out
described path = (refl, tt)

pub opens_safely : OpensSafely out
unfolding look_up
opens_safely path = refl

pub proper : IsProper env out (asked "/film/a")
proper = record {
  object = "rtsp://h/film/a";
  has_object = refl;
  path = "/film/a";
  has_uri = refl;
  plain = "/film/a";
  unescaped = refl;
  opens = opens_safely;
  pause_returns = refl;
}

pub supported : All (Supported out) (offered env out (asked "/film/a"))
unfolding offered
supported = (((λ e. absurd cc), (λ n. tt)), tt)

method_table-Served_example : Kept setup (client none) (
    method_table env (do_describe env out) (do_setup env out) setup (client none) (asked "/film/a"))
method_table-Served_example =
    method_table-Served env out setup (client none) (asked "/film/a") proper supported described tt

no_teardown : setup ≢ teardown
no_teardown e = absurd cc

method_table-FiresWell_example : FiresWell env out 30 (
    method_table env (do_describe env out) (do_setup env out) setup (client none) (asked "/film/a"))
method_table-FiresWell_example =
    method_table-FiresWell env out setup 30 (client none) (asked "/film/a") no_teardown proper
      supported described tt (λ e. absurd cc)

last_slash : split_last b'/' "rtsp://h/film/a" ≡ some ("rtsp://h/film", "a")
unfolding split_last
last_slash = refl

allowed_path : check_forbidden_path "/%2F" ≡ true
unfolding check_forbidden_path
allowed_path = refl

transport_offered : offered env out (asked "/%2F") ≢ []
unfolding offered
transport_offered e = absurd cc

do_setup_unescapable_example : do_setup env out (client none) (asked "/%2F") ≡ fail null_pointer
do_setup_unescapable_example =
    do_setup_unescapable env out (client none) (asked "/%2F") "rtsp://h/film/a" "/%2F"
      "rtsp://h/film" "a" refl refl last_slash refl allowed_path refl transport_offered

-- SETUP makes a session ready, of one RTP session on channels 1 and 2, and answers with success.
outcome_of : Outcome (Client ℕ) → ℕ × ℕ × List ℕ
outcome_of (ok c) = (code_of c.session, length c.channels, sent_codes c.sent)
outcome_of m = (0, 0, [])

setup_runs : outcome_of (do_setup env out (client none) (asked "/film/a")) ≡ (1, 1, 200 ∷ [])
unfolding do_setup outcome_of sent_codes r_open open_shared open_found look_up open_direct
setup_runs = refl
