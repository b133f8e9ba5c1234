-- ===== src/Methods/Tests.antt =====
-- Instances of the theorems on the methods of RTSP: times are numbers of tenths of a second, from
-- one second before the start.
use is_rtsp_server.Base.{
  ℕ, ◌+◌, ◌-◌, ◌≡◌, refl, true, false, Option, none, some, [], ◌∷◌, ltb, ◌==◌, Outcome, ok,
}
use is_rtsp_server.Protocol.{play, Request, rtsp10, headers_lookup}
use is_rtsp_server.Client.{Client, Session, begin, server_ready, server_playing}
use is_rtsp_server.Methods.{Env, method_table, check_forbidden_path}
use is_rtsp_server.Methods.Stranded.{Stranded, do_teardown-do_play}

abbrev pub env : Env ℕ
env = record {
  origin = 10;
  unset = 9;
  add = λ a b. a + b - 10;
  sub = λ a b. a + 10 - b;
  less = ltb;
  same = λ a b. a == b;
  early = λ a. a - 1;
  now = 500;
  time = 50;
  print = λ a. "t";
  show = λ n. "n";
  parse_range = λ s r. some r;
  seek_fails = λ a. false;
  pause_hangs = false;
  date = "now";
}

abbrev session : Session ℕ
session = record {
  session_id = "1";
  cur_state = server_ready;
  started = false;
  rtp_sessions = [];
  resource_uri = some "rtsp://h/film";
  tracks = [];
  seekable = true;
  duration = 90;
  play_requests = [];
}

abbrev pub client : Option (Session ℕ) → Client ℕ
client s = record {
  first_free_channel = 0;
  status = begin;
  input = [];
  pending_request = none;
  channels = [];
  session = s;
  last_cseq = 0;
  timer = false;
  sent = [];
  received = [];
}

abbrev request : Request
request = record {
  proto = rtsp10;
  method_id = 5;
  object = none;
  uri = some (some "/film");
  headers = [];
}

abbrev unchanged : Client ℕ → Request → Outcome (Client ℕ)
unchanged c req = ok c

-- PLAY plays the whole resource.
played_session : Outcome (Client ℕ) → Option (Session ℕ)
played_session (ok c) = c.session
played_session m = none

play_runs :
    played_session (method_table env unchanged unchanged play (client (some session)) request)
    ≡ some (record session {
      cur_state = server_playing;
      started = true;
      play_requests = record { begin_time = 10; end_time = 90; playback_time = 500 } ∷ [];
    })
unfolding method_table played_session
play_runs = refl

forbidden_paths : (check_forbidden_path "/a/../b" ≡ false) × (check_forbidden_path "/a/b" ≡ true)
unfolding check_forbidden_path
forbidden_paths = (refl, refl)

allowed_film : check_forbidden_path "/film" ≡ true
unfolding check_forbidden_path
allowed_film = refl

do_teardown-do_play_example : Stranded env 30 (client (some session)) request request
unfolding headers_lookup
do_teardown-do_play_example =
    do_teardown-do_play env 30 (client (some session)) session request request "/film" "/film" refl
      refl refl allowed_film refl refl allowed_film (λ t. refl) refl
