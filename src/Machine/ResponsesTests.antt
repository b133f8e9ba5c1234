-- ===== src/Machine/ResponsesTests.antt =====
-- An instance of the theorem on the responses to a sequence of requests: a SETUP, the same again, and
-- one without a `CSeq`.
use is_rtsp_server.Base.{
  ℕ, ◌≡◌, refl, ap, Option, none, some, List, [], ◌∷◌, Outcome, ok, fail, All,
}
use is_rtsp_server.Protocol.{
  setup, Request, Response, rtsp10, header_transport, header_cseq, method_of, headers_lookup,
}
use is_rtsp_server.Machine.Tests.{library}
use is_rtsp_server.Machine.Responses.{
  Arrival, IsServed, AnswersAll, handle_requests, handle_requests-AnswersAll,
}
use is_rtsp_server.Machine.{handle_request}
use is_rtsp_server.Methods.{path_of, method_table}
use is_rtsp_server.Client.{Client}
use is_rtsp_server.Resource.Shelf.{look_up}
use is_rtsp_server.Resource.Opening.{r_open, open_shared, open_found, open_direct}
use is_rtsp_server.Methods.Setup.{offered, do_setup}
use is_rtsp_server.Methods.Ready.{Supported}
use is_rtsp_server.Methods.Tests.{env, client}
use is_rtsp_server.Methods.ServedTests.{out, asked, described, opens_safely}

abbrev numbered : Request
numbered = record {
  proto = rtsp10;
  method_id = 6;
  object = some "rtsp://h/film/a";
  uri = some (some "/film/a");
  headers = (header_cseq, "7") ∷ (header_transport, "t") ∷ [];
}

-- The second one comes later than the first.
abbrev at : ℕ → Request → Arrival ℕ
at now req = record { env = record env { time = now }; out = out; request = req }

abbrev requests : List (Arrival ℕ)
requests = at 50 numbered ∷ at 51 numbered ∷ at 51 (asked "/film/a") ∷ []

is_served :
    (now : ℕ) (req : Request)
    → req.object ≡ some "rtsp://h/film/a"
    → req.uri ≡ some (some "/film/a")
    → method_of req.method_id ≡ some setup
    → IsServed library (at now req)
is_served now req o u m = (
  record {
    method = setup;
    has_method = m;
    proper = record {
      object = "rtsp://h/film/a";
      has_object = o;
      path = "/film/a";
      has_uri = ap path_of u;
      plain = "/film/a";
      unescaped = refl;
      opens = opens_safely;
      pause_returns = refl;
    };
    supported = offered_supported now req;
  },
  described,
)
  where
    all_supported :
        (o : Option _) → All (Supported out) (elim o [ none ↦ [] | some h ↦ out.parse_transport h ])
    all_supported none = tt
    all_supported (some h) = (((λ e. absurd cc), (λ n. tt)), tt)

    offered_supported :
        (now : ℕ) (req : Request)
        → All (Supported out) (offered (record env { time = now }) out req)
    offered_supported now req =
        unfold offered in all_supported (headers_lookup header_transport req.headers)

set_up : method_of 6 ≡ some setup
unfolding method_of
set_up = refl

handle_requests-AnswersAll_example :
    AnswersAll library requests (client none) (handle_requests library (client none) requests)
handle_requests-AnswersAll_example =
    handle_requests-AnswersAll library (client none) requests
      (
        is_served 50 numbered refl refl set_up,
        (
          is_served 51 numbered refl refl set_up,
          (is_served 51 (asked "/film/a") refl refl set_up, tt),
        ),
      )
      tt

-- The SETUP succeeds, its repetition has no response, and what has no `CSeq` is a bad request.
sent_codes : List Response → List ℕ
sent_codes [] = []
sent_codes (r ∷ rs) = r.status ∷ sent_codes rs

codes_of : Outcome (Client ℕ) → List ℕ
codes_of (ok c) = sent_codes c.sent
codes_of (fail f) = []

handle_requests_runs : codes_of (handle_requests library (client none) requests) ≡ 200 ∷ 400 ∷ []
unfolding handle_requests handle_request method_table do_setup codes_of sent_codes r_open
    open_shared open_found look_up open_direct
handle_requests_runs = refl
