-- ===== src/Tunnel/Tests.antt =====
-- Instances of the theorems on tunnels: client 1 sends a GET and client 2 a POST.
use is_rtsp_server.Base.{
  ℕ, ◌+◌, true, map, ◌≡◌, refl, false, none, some, [], ◌∷◌, Outcome, ok, fail,
}
use is_rtsp_server.Protocol.{Method, Request, http10, headers_lookup, header_x_sessioncookie}
use is_rtsp_server.Client.{State, http_headers, Client}
use is_rtsp_server.Tunnel.{
  find_pair, insert_pair, World, create_pair, post, leave, put_client, untie,
}
use is_rtsp_server.Machine.{Library, no_line, block}
use is_rtsp_server.Tunnel.Handled.{Tunnelling, world_handler, tcp_read_cb}
use is_rtsp_server.Tunnel.Sealed.{Refused}
use is_rtsp_server.Tunnel.Reached.{
  no_clients, connected, arrived, Reach, start, later, Reach-Refused, Reach-Stays,
}

abbrev peer : State → Client ℕ
peer s = record {
  first_free_channel = 0;
  status = s;
  input = [];
  pending_request = none;
  channels = [];
  session = none;
  last_cseq = 0;
  timer = false;
  sent = [];
  received = [];
}

abbrev request : Request
request = record {
  proto = http10;
  method_id = 3;
  object = none;
  uri = none;
  headers = (header_x_sessioncookie, "k") ∷ [];
}

-- A decoder that adds one to each byte.
abbrev pub tunnelling : Tunnelling
tunnelling = record {
  read_http_headers = λ hs xs. block hs 0 true;
  decode_step = λ xs s v. (map (λ x. x + 1) xs, s, v);
}

abbrev library : Library
library = record {
  parse_request_line = λ xs. no_line;
  read_headers = λ hs xs. block hs 0 false;
  strtoull = λ s. (7, 0);
  uri_parse = λ s. none;
  date = "now";
}

abbrev methods : Method → Client ℕ → Request → Outcome (Client ℕ)
methods m c req = ok c

-- A client that sends a GET with a cookie.
abbrev getting : Client ℕ
getting = record (peer http_headers) { pending_request = some (record request { method_id = 2 }) }

abbrev start_world : World ℕ
start_world = put_client "now" 1 getting (untie "now" 1 no_clients)

abbrev result : Outcome (World ℕ) → World ℕ
result (ok w) = w
result (fail f) = no_clients

-- It has opened a pair and is idle; its connection is told to end once the answer is sent.
abbrev after : World ℕ
after = result (
    tcp_read_cb library tunnelling (world_handler library tunnelling methods 3) start_world 1
      (some (0 ∷ [])))

got :
    tcp_read_cb library tunnelling
      (world_handler library tunnelling methods 3)
      start_world
      1
      (some (0 ∷ []))
    ≡ ok after
unfolding tcp_read_cb world_handler create_pair headers_lookup find_pair insert_pair
got = refl

reached : Reach library tunnelling methods after
reached = later (later start (connected 1 getting)) (arrived 3 1 (some (0 ∷ [])) got)

has_pair : after.pair_of 1 ≡ some 1
unfolding tcp_read_cb world_handler create_pair headers_lookup find_pair insert_pair
has_pair = refl

Reach-Stays_example : leave after 1 ≡ ok after
Reach-Stays_example = Reach-Stays library tunnelling methods after 1 1 reached has_pair

Reach-Refused_example :
    Refused "now" after 2
      (peer http_headers)
      request
      (post "now" (world_handler library tunnelling methods 3) after 2 (peer http_headers) request)
Reach-Refused_example =
    Reach-Refused library tunnelling methods after 2 (peer http_headers) request reached 3
