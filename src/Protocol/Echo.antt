-- ===== src/Protocol/Echo.antt =====
-- The `CSeq` header of a response (rfc822_response.c), which tells the client which request it is for.
use Prim.Native.String.{String}
use is_rtsp_server.Base.{
  ℕ, ◌≡◌, ◌≢◌, refl, sym, ap, ◌∙◌, arith, true, false, none, some, [], ◌∷◌, ◌==◌, if◌then◌else◌,
  if-cases, match-cases, ==_refl, ==_of_ne,
}
use is_rtsp_server.Protocol.{
  Header, header_code, header_cseq, header_date, header_server, header_session, header_timestamp,
  header_connection, Headers, Request, Response, Proto, headers_lookup, headers_set, copy_header,
  response_new, quick_response,
}

other_number : (x y z : ℕ) → (x == y) ≡ true → y ≢ z → (x == z) ≡ false
other_number x y z e n = ground (arith, e, n)

lookup-set_self :
    (h : Header) (v : String) (hs : Headers) → headers_lookup h (headers_set h v hs) ≡ some v
unfolding headers_lookup headers_set
lookup-set_self h v [] = rw (==_refl (header_code h))
lookup-set_self h v (e ∷ es) =
    if-cases (λ (x : Headers). headers_lookup h x ≡ some v) (header_code e.0 == header_code h) _ _
      (λ t. rw (==_refl (header_code h))) (λ t. rw t (lookup-set_self h v es))

lookup-set :
    (h k : Header) (v : String) (hs : Headers)
    → header_code k ≢ header_code h
    → headers_lookup h (headers_set k v hs) ≡ headers_lookup h hs
unfolding headers_lookup headers_set
lookup-set h k v [] n = rw (==_of_ne (header_code k) (header_code h) n)
lookup-set h k v (e ∷ es) n =
    if-cases (λ (x : Headers). headers_lookup h x ≡ headers_lookup h (e ∷ es))
      (header_code e.0 == header_code k) _ _
      (λ t. rw (
        ==_of_ne (header_code k) (header_code h) n,
        other_number (header_code e.0) (header_code k) (header_code h) t n,
      ))
      (λ t.
        ap (λ o. if header_code e.0 == header_code h then some (e.1) else o)
          (lookup-set h k v es n))

lookup-copy :
    (h k : Header) (req : Request) (hs : Headers)
    → header_code k ≢ header_code h
    → headers_lookup h (copy_header k req hs) ≡ headers_lookup h hs
unfolding copy_header
lookup-copy h k req hs n =
    match-cases (λ (x : Headers). headers_lookup h x ≡ headers_lookup h hs)
      (headers_lookup k req.headers) _ _ (λ e. refl) (λ v e. lookup-set h k v hs n)

lookup-copy_self :
    (h : Header) (req : Request) (hs : Headers)
    → headers_lookup h hs ≡ none
    → headers_lookup h (copy_header h req hs) ≡ headers_lookup h req.headers
unfolding copy_header
lookup-copy_self h req hs n =
    match-cases (λ (x : Headers). headers_lookup h x ≡ headers_lookup h req.headers)
      (headers_lookup h req.headers) _ _ (λ e. n ∙ sym e) (λ v e. lookup-set_self h v hs ∙ sym e)

-- The response has the `CSeq` header that the request has, or neither has one.
abbrev pub IsFor : Request → Response → Type 0
IsFor req r = headers_lookup header_cseq r.headers ≡ headers_lookup header_cseq req.headers

pub response_new-IsFor :
    (date : String) (req : Request) (n : ℕ) → IsFor req (response_new date req n)
unfolding response_new
response_new-IsFor date req n =
    lookup-copy header_cseq header_timestamp req _ (omega arith)
    ∙ lookup-copy header_cseq header_session req _ (omega arith)
    ∙ lookup-copy_self header_cseq req _ (
        lookup-set header_cseq header_date date (headers_set header_server "v1.0.2" [])
          (omega arith)
        ∙ lookup-set header_cseq header_server "v1.0.2" [] (omega arith)
        ∙ empty)
  where
    empty : headers_lookup header_cseq [] ≡ none
    empty = unfold headers_lookup in refl

-- A header other than `CSeq` may be added.
pub with_header :
    (req : Request) (k : Header) (v : String) (hs : Headers)
    → header_code k ≢ header_code header_cseq
    → headers_lookup header_cseq hs ≡ headers_lookup header_cseq req.headers
    → headers_lookup header_cseq (headers_set k v hs) ≡ headers_lookup header_cseq req.headers
with_header req k v hs n e = lookup-set header_cseq k v hs n ∙ e

-- The response has a header more, which is not `CSeq`.
pub added-IsFor :
    (date : String) (req : Request) (n : ℕ) (k : Header) (v : String)
    → header_code k ≢ header_code header_cseq
    → headers_lookup header_cseq (headers_set k v (response_new date req n).headers)
      ≡ headers_lookup header_cseq req.headers
added-IsFor date req n k v m =
    with_header req k v (response_new date req n).headers m (response_new-IsFor date req n)

pub quick_response-IsFor :
    (date : String) (req : Request) (p : Proto) (n : ℕ) → IsFor req (quick_response date req p n)
unfolding quick_response
quick_response-IsFor date req p n = added-IsFor date req n header_connection "close" (omega arith)
