-- ===== src/Machine/Tests.antt =====
-- Instances of the theorems on rtsp_state_machine.c: small parsers stand for the generated ones.
use Prim.Native.String.{len}
use is_rtsp_server.Base.{
  ℕ, ◌≤◌, ◌<◌, ◌≡◌, refl, arith, Bool, true, false, none, some, List, [], ◌∷◌, ◌++◌, length, ◌==◌,
  if◌then◌else◌, Outcome, ok, fail, null_pointer, assertion,
}
use is_rtsp_server.Protocol.{
  Method, Request, Headers, rtsp10, header_cseq, header_content_length, headers_lookup,
}
use is_rtsp_server.Client.{Client, begin, rtsp_headers}
use is_rtsp_server.Machine.{
  Library, Line, no_line, line, Block, block, cseq_of, handle_request, handler, process_complete,
}
use is_rtsp_server.Machine.Turns.{Fair}
use is_rtsp_server.Machine.Packets.{Packet, stream, supplied, handler-stream}
use is_rtsp_server.Machine.Requests.{handle_request_once}
use is_rtsp_server.Machine.Aborts.{unknown_method_aborts, content_length_aborts}

-- The method is the first byte of a line of two.
abbrev pub request : ℕ → Headers → Request
request m hs = record { proto = rtsp10; method_id = m; object = none; uri = none; headers = hs }

abbrev pub parse_line : List ℕ → Line
parse_line (x ∷ y ∷ xs) = line 2 (request x [])
parse_line _ = no_line

-- A header is a byte: the first two are a `CSeq` and a `Content-Length`.
abbrev pub parse_headers : Headers → List ℕ → Block
parse_headers hs (x ∷ xs) =
    block (if x == 1 then (header_cseq, "7") ∷ hs else (header_content_length, "3") ∷ hs) 1 true
parse_headers hs [] = block hs 0 false

abbrev pub library : Library
library = record {
  parse_request_line = parse_line;
  read_headers = parse_headers;
  strtoull = λ s. (7, len s);
  uri_parse = λ s. some (some "/");
  date = "now";
}

abbrev pub methods : Method → Client ℕ → Request → Outcome (Client ℕ)
methods m c req = ok c

abbrev pub http : Client ℕ → Outcome (Client ℕ × Bool)
http c = ok (c, false)

pub line_bounds :
    (xs : List ℕ) (n : ℕ) (req : Request) → parse_line xs ≡ line n req → (0 < n) × (n ≤ length xs)
line_bounds [] n req e = absurd cc
line_bounds (x ∷ []) n req e = absurd cc
line_bounds (x ∷ y ∷ xs) n req e = let k : 2 ≡ n = cc in (omega (arith, k), omega (arith, k))

pub fair : Fair library methods http
fair = record {
  line_size = line_bounds;
  called = λ m c req. (omega arith, omega arith);
  turned = λ c. (omega arith, λ h. cc);
}

abbrev pub client : List ℕ → Client ℕ
client xs = record {
  first_free_channel = 0;
  status = begin;
  input = xs;
  pending_request = none;
  channels = [];
  session = none;
  last_cseq = 0;
  timer = false;
  sent = [];
  received = [];
}

-- The loop handles the request of this input and stops.
handler_runs :
    handler library methods http 10 (client (3 ∷ 0 ∷ 1 ∷ []))
    ≡ ok (record (client []) { last_cseq = 7 })
unfolding handler
handler_runs = refl

abbrev packets : List Packet
packets = (1, 5 ∷ 6 ∷ []) ∷ (255, []) ∷ []

handler-stream_example :
    handler library methods http 3 (client (stream packets))
    ≡ ok (supplied (client (stream packets)) packets [])
handler-stream_example =
    handler-stream library methods http packets 3 (client (stream packets))
      ((omega arith, omega arith), ((omega arith, omega arith), tt)) (omega arith) refl refl

abbrev numbered : Request
numbered = request 3 ((header_cseq, "7") ∷ [])

numbered_cseq : cseq_of library numbered ≡ some 7
unfolding cseq_of
numbered_cseq = refl

numbered_runs :
    handle_request library methods (client []) numbered ≡ ok (record (client []) { last_cseq = 7 })
unfolding handle_request
numbered_runs = refl

handle_request_once_example :
    handle_request library methods (record (client []) { last_cseq = 7 }) numbered
    ≡ ok (record (client []) { last_cseq = 7 })
handle_request_once_example =
    handle_request_once library methods http (client []) (record (client []) { last_cseq = 7 })
      numbered numbered 7 fair numbered_cseq numbered_cseq numbered_runs

whole_runs :
    process_complete library methods http (client (3 ∷ 0 ∷ 1 ∷ []))
    ≡ ok (record (client []) { last_cseq = 7 }, true)
unfolding process_complete
whole_runs = refl

unknown_method_aborts_example :
    (d : Client ℕ) × (handler library methods http 1 (client (1 ∷ 0 ∷ [])) ≡ ok d)
    × ((more : List ℕ)
        → handler library methods http 1 (record d { input = d.input ++ more }) ≡ fail null_pointer)
unknown_method_aborts_example =
    unknown_method_aborts library methods http (client (1 ∷ 0 ∷ [])) 2 (request 1 []) 0 refl refl
      (omega arith) (λ h. omega (arith, h)) refl refl (omega arith)

abbrev reading : Client ℕ
reading = record (client (2 ∷ [])) { status = rtsp_headers; pending_request = some (request 3 []) }

content_length_found :
    headers_lookup header_content_length ((header_content_length, "3") ∷ []) ≡ some "3"
unfolding headers_lookup
content_length_found = refl

content_length_aborts_example : handler library methods http 2 reading ≡ fail assertion
content_length_aborts_example =
    content_length_aborts library methods http reading (request 3 [])
      ((header_content_length, "3") ∷ []) 1 0 "3" refl refl refl content_length_found
