-- ===== src/Protocol/Split.antt =====
-- The text of a response (rfc822_response.c) as a receiver splits it.
use Prim.Native.String.{String}
use is_rtsp_server.Base.{
  append_assoc, append_nil, All-append, ℕ, ◌+◌, ◌≡◌, ◌≢◌, refl, sym, ap, subst, ◌∙◌, arith, Option,
  none, some, List, [], ◌∷◌, ◌++◌, length, length-append, All, Outcome, ok, fail, ◌>>=◌,
}
use is_rtsp_server.Text.{codes}
use is_rtsp_server.Protocol.{Headers, Response}
use is_rtsp_server.Protocol.Sent.{
  header_to_string, response_reason, proto_to_string, line_end, header_line, header_lines,
  length_lines, entity, join_lines, response_text,
}
use is_rtsp_server.Protocol.Framed.{split_blank, Plain, IsLine, joined, lines_split}
use is_rtsp_server.Protocol.Names.{
  GoodText, header_to_string-GoodText, response_reason-GoodText, proto_to_string-GoodText,
}

-- A line with a separator of its own.
separated-IsLine :
    (xs : List ℕ) (c : ℕ) (ys : List ℕ) → c ≢ 13 → Plain xs → Plain ys → IsLine (xs ++ (c ∷ ys))
separated-IsLine [] c ys n h k = (n, k)
separated-IsLine (x ∷ xs) c ys n h k = (h.0, All-append (λ c. c ≢ 13) xs (c ∷ ys) h.1 (n, k))

header_line-IsLine :
    (name : String) (value : List ℕ)
    → Plain (codes name)
    → Plain value
    → IsLine (header_line name value)
header_line-IsLine name value h k =
    separated-IsLine (codes name) 58 (32 ∷ value) (omega arith) h (omega arith, k)

abbrev GoodLines : Outcome (List (List ℕ)) → Type 0
GoodLines (fail f) = Unit
GoodLines (ok ls) = All IsLine ls

-- The header values have no carriage return.
abbrev pub PlainValues : Headers → Type 0
PlainValues hs = All (λ h. Plain (codes (h.1))) hs

header_lines-GoodLines : (hs : Headers) → PlainValues hs → GoodLines (header_lines hs)
unfolding header_lines
header_lines-GoodLines [] p = tt
header_lines-GoodLines (h ∷ hs) p =
    of (header_to_string (h.0)) (header_lines hs) (header_to_string-GoodText (h.0))
      (header_lines-GoodLines hs (p.1))
  where
    of :
        (o : Outcome String) (m : Outcome (List (List ℕ)))
        → GoodText o
        → GoodLines m
        → GoodLines (o >>= λ n. m >>= λ ls. ok (header_line n (codes (h.1)) ∷ ls))
    of (fail f) m a b = tt
    of (ok n) (fail f) a b = tt
    of (ok n) (ok ls) a b = (header_line-IsLine n (codes (h.1)) a (p.0), b)

-- What a head says last of the body: its length, or nothing if there is no body.
abbrev pub announced : (ℕ → String) → Option String → List ℕ → List ℕ
announced show none body = []
announced show (some b) body = line_end ++ header_line "Content-Length" (codes (show (length body)))

joined-append :
    (l : List ℕ) (ls : List (List ℕ)) (k : List ℕ)
    → joined l (ls ++ (k ∷ [])) ≡ joined l ls ++ (line_end ++ k)
joined-append l [] k = refl
joined-append l (m ∷ ms) k =
    ap (λ xs. l ++ (line_end ++ xs)) (joined-append m ms k)
    ∙ sym (append_assoc l (line_end ++ joined m ms) (line_end ++ k))

module _ (show : ℕ → String) (digits : (n : ℕ) → Plain (codes (show n))) where
  length_lines-IsLine : (b : Option String) → All IsLine (length_lines show b)
  unfolding length_lines
  length_lines-IsLine none = tt
  length_lines-IsLine (some b) =
      (header_line-IsLine "Content-Length" _ (omega arith) (digits (length (codes b) + 2)), tt)

  -- A receiver finds a head that ends with the length of the body, if there is one, and the body.
  abbrev Framed : Option String → Outcome (List ℕ) → Type 0
  Framed b (fail f) = Unit
  Framed b (ok text) =
      (start : List ℕ) × (split_blank text ≡ some (start ++ announced show b (entity b), entity b))

  joined-announced :
      (l : List ℕ) (ls : List (List ℕ)) (b : Option String)
      → joined l (ls ++ length_lines show b) ≡ joined l ls ++ announced show b (entity b)
  unfolding length_lines entity
  joined-announced l ls none = ap (joined l) (append_nil ls) ∙ sym (append_nil (joined l ls))
  joined-announced l ls (some b) =
      joined-append l ls _
      ∙ ap (λ n. joined l ls ++ (line_end ++ header_line "Content-Length" (codes (show n))))
          (sym (length-append (codes b) line_end))

  text-Framed : (r : Response) → PlainValues r.headers → Framed r.body (response_text show r)
  unfolding response_text
  text-Framed r h =
      of (proto_to_string r.proto) (response_reason r.proto r.status) (header_lines r.headers)
        (proto_to_string-GoodText r.proto) (response_reason-GoodText r.proto r.status)
        (header_lines-GoodLines r.headers h)
    where
      of :
          (p q : Outcome String) (m : Outcome (List (List ℕ)))
          → GoodText p
          → GoodText q
          → GoodLines m
          → Framed r.body (
              p >>= λ proto. q >>= λ reason. m >>= λ ls. ok (
                join_lines (
                  (codes proto ++ (32 ∷ (codes (show r.status) ++ (32 ∷ codes reason))))
                  ∷ (ls ++ length_lines show r.body))
                ++ (line_end ++ entity r.body)))
      of (fail f) q m a b c = tt
      of (ok p) (fail f) m a b c = tt
      of (ok p) (ok q) (fail f) a b c = tt
      of (ok p) (ok q) (ok ls) a b c =
          let status = codes p ++ (32 ∷ (codes (show r.status) ++ (32 ∷ codes q))) in
          (
            joined status ls,
            lines_split status (ls ++ length_lines show r.body) (entity r.body)
                  (separated-IsLine (codes p) 32 _ (omega arith) a (
                    All-append (λ c. c ≢ 13) (codes (show r.status)) (32 ∷ codes q)
                      (digits r.status) (omega arith, b)))
                  (All-append IsLine ls (length_lines show r.body) c (length_lines-IsLine r.body))
                ∙ ap (λ xs. some (xs, entity r.body)) (joined-announced status ls r.body),
          )

  -- If numbers are printed without a carriage return and the values of the headers have none: a
  -- receiver that splits a response at the first empty line finds the body, with a line end, exactly
  -- as long as the last line of the head says, or no body and no such line.
  pub response_text-Framed :
      (r : Response) (text : List ℕ)
      → PlainValues r.headers
      → response_text show r ≡ ok text
      → (start : List ℕ) × (split_blank text
          ≡ some (start ++ announced show r.body (entity r.body), entity r.body))
  response_text-Framed r text h e = subst (Framed r.body) e (text-Framed r h)
