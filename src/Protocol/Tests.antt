-- ===== src/Protocol/Tests.antt =====
-- Instances of the theorems on the text of a response: numbers are printed as one digit or two.
use Prim.Native.String.{String}
use is_rtsp_server.Base.{
  ℕ, ◌≡◌, refl, arith, some, List, [], ◌∷◌, ◌++◌, ok, fail, assertion, ◌==◌, if◌then◌else◌,
  if-cases,
}
use is_rtsp_server.Text.{codes}
use is_rtsp_server.Protocol.{Response, rtsp10, http10, header_cseq}
use is_rtsp_server.Protocol.Sent.{entity, response_text, response_reason}
use is_rtsp_server.Protocol.Framed.{split_blank, Plain}
use is_rtsp_server.Protocol.Split.{announced, response_text-Framed}

abbrev show : ℕ → String
show n = if n == 200 then "200" else if n == 5 then "5" else "0"

show-Plain : (n : ℕ) → Plain (codes (show n))
show-Plain n =
    if-cases (λ s. Plain (codes s)) (n == 200) _ _ (λ e. omega arith)
      (λ e. if-cases (λ s. Plain (codes s)) (n == 5) _ _ (λ f. omega arith) (λ f. omega arith))

abbrev response : Response
response = record {
  proto = rtsp10;
  status = 200;
  headers = (header_cseq, "5") ∷ [];
  body = some "abc";
}

abbrev sent : List ℕ
sent = codes "RTSP/1.0 200 Ok\r\nCSeq: 5\r\nContent-Length: 5\r\n\r\nabc\r\n"

response_sent : response_text show response ≡ ok sent
unfolding response_text
response_sent = refl

response_text-Framed_example :
    (start : List ℕ) × (split_blank sent
      ≡ some (start ++ announced show (some "abc") (entity (some "abc")), entity (some "abc")))
response_text-Framed_example =
    response_text-Framed show show-Plain response sent (omega arith, tt) response_sent

-- The codes of RTSP have no text in HTTP.
http_reason : response_reason http10 454 ≡ fail assertion
unfolding response_reason
http_reason = refl
