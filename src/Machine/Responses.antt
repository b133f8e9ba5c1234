-- ===== src/Machine/Responses.antt =====
-- The responses to a sequence of requests: `rtsp_handle_request` (rtsp_state_machine.c) over the
-- methods of rtsp_method_*.c.
use is_rtsp_server.Base.{
  ℕ, ◌≡◌, refl, sym, ap, subst, ◌∙◌, arith, Bool, true, false, not, Option, none, some, List, [],
  ◌∷◌, ◌++◌, append_nil, append_assoc, leb, if◌then◌else◌, if-cases, match-cases, Outcome, ok, fail,
  ◌>>=◌, All,
}
use is_rtsp_server.Protocol.{
  Method, method_of, Request, Response, header_session, header_require, header_proxy_require,
  header_unsupported_options, headers_lookup,
}
use is_rtsp_server.Protocol.Echo.{IsFor, added-IsFor}
use is_rtsp_server.Client.{Client, response_send, rtsp_quick_response}
use is_rtsp_server.Machine.{
  Library, cseq_of, session_known, check_session, unsupported, check_required_options, dispatch,
  handle_fresh, handle_request,
}
use is_rtsp_server.Methods.{Env, method_table}
use is_rtsp_server.Methods.Kept.{HasRange, Kept}
use is_rtsp_server.Methods.Setup.{Outside, offered, do_setup}
use is_rtsp_server.Methods.Describe.{do_describe}
use is_rtsp_server.Methods.Ready.{IsProper, Supported}
use is_rtsp_server.Methods.Served.{AreDescribed, method_table-Served}
use is_rtsp_server.Methods.Answers.{quick-Answers}
use is_rtsp_server.Methods.Responses.{AnswersOnce, method_table-AnswersOnce}

-- A request repeats one of a number if its `CSeq` is a number not above the last one.
abbrev pub is_repeated : ℕ → Option ℕ → Bool
is_repeated n none = false
is_repeated n (some m) = leb m n

-- The number of the last request after it.
abbrev pub next_cseq : ℕ → Option ℕ → ℕ
next_cseq n none = n
next_cseq n (some m) = if leb m n then n else m

module _ {T : Type 0} where
  -- The call returned, has sent one response more, for the request, and has kept the number of the
  -- last request and a range for what is played.
  abbrev Whole : Request → Client T → Outcome (Client T) → Type 0
  Whole req c (fail f) = ⊥
  Whole req c (ok d) =
      (d.last_cseq ≡ c.last_cseq)
      × HasRange d.session
      × ((r : Response) × (d.sent ≡ c.sent ++ r ∷ []) × IsFor req r)

  abbrev Tested : Request → Client T → Client T × Bool → Type 0
  Tested req c (d, true) = d ≡ c
  Tested req c (d, false) = Whole req c (ok d)

  tested :
      (req : Request) (c : Client T) (r : Client T × Bool) (k : Client T → Outcome (Client T))
      → Tested req c r
      → Whole req c (k c)
      → Whole req c (if not r.1 then ok (r.0) else k (r.0))
  tested req c (d, true) k e w = subst (λ x. Whole req c (k x)) (sym e) w
  tested req c (d, false) k e w = e

  Whole-table :
      (m : Method) (req : Request) (c : Client T) (o : Outcome (Client T))
      → Kept m c o
      → AnswersOnce req c o
      → Whole req c o
  Whole-table m req c (fail f) k a = k
  Whole-table m req c (ok d) k a = (k.2.1, k.1, a)

  module _ (lib : Library) (env : Env T) (out : Outside T) where
    abbrev pub methods : Method → Client T → Request → Outcome (Client T)
    methods = method_table env (do_describe env out) (do_setup env out)

    check_session-Tested :
        (c : Client T) (req : Request) → HasRange c.session → Tested req c (check_session lib c req)
    unfolding check_session rtsp_quick_response response_send
    check_session-Tested c req h =
        match-cases (Tested req c) (headers_lookup header_session req.headers) _ _ (λ e. refl)
          (λ id e.
            if-cases (Tested req c) (session_known lib c id) _ _ (λ f. refl)
              (λ f. (refl, h, quick-Answers lib.date req c 454)))

    unsupported-Whole :
        (c : Client T) (req : Request) (a b : Option _)
        → HasRange c.session
        → Whole req c (ok (unsupported lib c req a b))
    unfolding unsupported response_send
    unsupported-Whole c req a b h = (
      refl,
      h,
      (_, refl, added-IsFor lib.date req 551 header_unsupported_options _ (omega arith)),
    )

    check_required-Tested :
        (c : Client T) (req : Request)
        → HasRange c.session
        → Tested req c (check_required_options lib c req)
    unfolding check_required_options
    check_required-Tested c req h =
        of (headers_lookup header_require req.headers)
          (headers_lookup header_proxy_require req.headers)
      where
        of :
            (a b : Option _)
            → Tested req c (elim a [
              | some r ↦ (unsupported lib c req (some r) b, false)
              | none ↦ elim b [
                | some r ↦ (unsupported lib c req none (some r), false)
                | none ↦ (c, true)
              ]
            ])
        of (some r) b = unsupported-Whole c req (some r) b h
        of none (some r) = unsupported-Whole c req none (some r) h
        of none none = refl

    -- What the theorems on the methods need of a request, and a method that there is.
    pub record IsRequest (req : Request) : Type 0 where
      pub method : Method
      pub has_method : method_of req.method_id ≡ some method
      pub proper : IsProper env out req
      pub supported : All (Supported out) (offered env out req)

    dispatch-Whole :
        (c : Client T) (req : Request)
        → IsRequest req
        → AreDescribed env out
        → HasRange c.session
        → Whole req c (dispatch lib methods c req)
    unfolding dispatch
    dispatch-Whole c req p d h =
        match-cases (Whole req c) (method_of req.method_id) _ _
          (λ e. absurd (let f = p.has_method in cc))
          (λ m e.
            Whole-table m req c (methods m c req)
              (method_table-Served env out m c req p.proper p.supported d h)
              (method_table-AnswersOnce env out m c req p.proper p.supported d h))

    handle_fresh-Whole :
        (c : Client T) (req : Request)
        → IsRequest req
        → AreDescribed env out
        → HasRange c.session
        → Whole req c (handle_fresh lib methods c req)
    unfolding handle_fresh
    handle_fresh-Whole c req p d h =
        tested req c (check_session lib c req)
          (λ x.
            let o = check_required_options lib x req in
            if not (o.1) then ok (o.0) else dispatch lib methods (o.0) req)
          (check_session-Tested c req h)
          (tested req c (check_required_options lib c req) (λ x. dispatch lib methods x req)
            (check_required-Tested c req h) (dispatch-Whole c req p d h))

    -- What becomes of the responses at a request that repeats one, or at another.
    abbrev Sent : Bool → Request → Client T → Client T → Type 0
    Sent true req c d = d.sent ≡ c.sent
    Sent false req c d = (r : Response) × (d.sent ≡ c.sent ++ r ∷ []) × IsFor req r

    abbrev Step : ℕ → Bool → Request → Client T → Outcome (Client T) → Type 0
    Step n b req c (fail f) = ⊥
    Step n b req c (ok d) = (d.last_cseq ≡ n) × HasRange d.session × Sent b req c d

    Whole-Step :
        (req : Request) (c : Client T) (n : ℕ) (o : Outcome (Client T))
        → Whole req (record c { last_cseq = n }) o
        → Step n false req c (o >>= λ d. ok (record d { pending_request = none }))
    Whole-Step req c n (fail f) w = w
    Whole-Step req c n (ok d) w = w

    handle_request-Step :
        (c : Client T) (req : Request)
        → IsRequest req
        → AreDescribed env out
        → HasRange c.session
        → Step
            (next_cseq c.last_cseq (cseq_of lib req))
            (is_repeated c.last_cseq (cseq_of lib req))
            req
            c
            (handle_request lib methods c req)
    unfolding handle_request rtsp_quick_response response_send
    handle_request-Step c req p d h = of (cseq_of lib req)
      where
        new :
            (m : ℕ) (b : Bool)
            → Step (if b then c.last_cseq else m) b req c (
                if b
                then ok (record c { pending_request = none })
                else (handle_fresh lib methods (record c { last_cseq = m }) req >>= λ d.
                    ok (record d { pending_request = none })))
        new m true = (refl, h, refl)
        new m false =
            Whole-Step req c m (handle_fresh lib methods (record c { last_cseq = m }) req)
              (handle_fresh-Whole (record c { last_cseq = m }) req p d h)

        of :
            (o : Option ℕ)
            → Step (next_cseq c.last_cseq o) (is_repeated c.last_cseq o) req c (elim o [
              | none ↦
                  ok (record (rtsp_quick_response lib.date c req 400) { pending_request = none })
              | some n ↦
                  if leb n c.last_cseq
                  then ok (record c { pending_request = none })
                  else (handle_fresh lib methods (record c { last_cseq = n }) req >>= λ d.
                      ok (record d { pending_request = none }))
            ])
        of none = (refl, h, quick-Answers lib.date req c 400)
        of (some m) = new m (leb m c.last_cseq)

-- A request, and what holds when it arrives: the time, the table of live resources, the answers of
-- the system and all else that the methods ask of the outside.
pub record Arrival (T : Type 0) : Type 0 where
  pub env : Env T
  pub out : Outside T
  pub request : Request

module _ {T : Type 0} (lib : Library) where
  -- What the theorems on the methods need of an arrival.
  abbrev pub IsServed : Arrival T → Type 0
  IsServed a = IsRequest lib a.env a.out a.request × AreDescribed a.env a.out

  -- The responses, in order, are those to the requests that repeat none, one for each.
  abbrev pub Responses : ℕ → List (Arrival T) → List Response → Type 0
  Responses n [] rs = rs ≡ []
  Responses n (a ∷ more) rs =
      if is_repeated n (cseq_of lib a.request)
      then Responses (next_cseq n (cseq_of lib a.request)) more rs
      else (r : Response) × (rest : List Response) × (rs ≡ r ∷ rest)
        × IsFor a.request r
        × Responses (next_cseq n (cseq_of lib a.request)) more rest

  -- The requests, handled one after the other.
  unfoldable pub handle_requests : Client T → List (Arrival T) → Outcome (Client T)
  handle_requests c [] = ok c
  handle_requests c (a ∷ more) =
      handle_request lib (methods lib a.env a.out) c a.request >>= λ d. handle_requests d more

  abbrev pub AnswersAll : List (Arrival T) → Client T → Outcome (Client T) → Type 0
  AnswersAll more c (fail f) = ⊥
  AnswersAll more c (ok d) =
      (rs : List Response) × (d.sent ≡ c.sent ++ rs) × Responses c.last_cseq more rs

  AnswersAll-cons :
      (a : Arrival T) (more : List (Arrival T)) (c d : Client T) (b : Bool) (o : Outcome (Client T))
      → d.last_cseq ≡ next_cseq c.last_cseq (cseq_of lib a.request)
      → is_repeated c.last_cseq (cseq_of lib a.request) ≡ b
      → Sent lib a.env a.out b a.request c d
      → AnswersAll more d o
      → AnswersAll (a ∷ more) c o
  AnswersAll-cons a more c d b (fail f) e g s h = h
  AnswersAll-cons a more c d true (ok x) e g s (rs, q, h) =
      (rs, q ∙ ap (λ y. y ++ rs) s, rw g (subst (λ n. Responses n more rs) e h))
  AnswersAll-cons a more c d false (ok x) e g (r, s, i) (rs, q, h) = (
    r ∷ rs,
    q ∙ ap (λ y. y ++ rs) s ∙ append_assoc c.sent (r ∷ []) rs,
    rw g ((r, rs, refl, i, subst (λ n. Responses n more rs) e h)),
  )

  then_all :
      (a : Arrival T) (more : List (Arrival T)) (c : Client T) (o : Outcome (Client T))
      → Step lib a.env a.out
          (next_cseq c.last_cseq (cseq_of lib a.request))
          (is_repeated c.last_cseq (cseq_of lib a.request))
          a.request
          c
          o
      → ((d : Client T) → HasRange d.session → AnswersAll more d (handle_requests d more))
      → AnswersAll (a ∷ more) c (o >>= λ d. handle_requests d more)
  then_all a more c (fail f) s k = s
  then_all a more c (ok d) s k =
      AnswersAll-cons a more c d (is_repeated c.last_cseq (cseq_of lib a.request))
        (handle_requests d more) (s.0) refl (s.2) (k d (s.1))

  -- Any sequence of requests of known methods, each with what the outside answers to it, on which the
  -- conditions of `method_table-Served` hold, is handled to its end; and the responses sent meanwhile
  -- are, in the order of the requests, exactly one with the same `CSeq` header for each request, but
  -- none for a request whose `CSeq` is a number not above the highest one by then.
  pub handle_requests-AnswersAll :
      (c : Client T) (more : List (Arrival T))
      → All IsServed more
      → HasRange c.session
      → AnswersAll more c (handle_requests c more)
  unfolding handle_requests
  handle_requests-AnswersAll c [] p h = ([], sym (append_nil c.sent), refl)
  handle_requests-AnswersAll c (a ∷ more) (p, ps) h =
      then_all a more c (handle_request lib (methods lib a.env a.out) c a.request)
        (handle_request-Step lib a.env a.out c a.request (p.0) (p.1) h)
        (λ e k. handle_requests-AnswersAll e more ps k)
