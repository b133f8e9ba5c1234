-- ===== src/Machine/Requests.antt =====
-- What becomes of one request (rtsp_state_machine.c): it is served once, and ends in no request.
use is_rtsp_server.Base.{
  ℕ, ◌≤◌, ◌≡◌, refl, sym, ap, subst, ◌∙◌, arith, Bool, true, false, ◌&&◌, none, some, leb, if-cases,
  match-cases, Outcome, ok, fail, ◌>>=◌, inl, inr, Bool-cases,
}
use is_rtsp_server.Protocol.{Method, Request, header_content_length, headers_lookup}
use is_rtsp_server.Client.{Client, State, begin, rtsp_headers, rtsp_content}
use is_rtsp_server.Machine.{
  Library, cseq_of, handle_fresh, handle_request, handle_new, handle_headers, handle_content,
  process_complete, whole_content, whole_headers, whole_request, conjunct, same_state,
}
use is_rtsp_server.Machine.Turns.{Fair, Called}
use is_rtsp_server.Machine.Loop.{handle_fresh-Called}

module _ {T : Type 0} (lib : Library) (methods : Method → Client T → Request → Outcome (Client T))
    (http : Client T → Outcome (Client T × Bool)) where
  -- A result with no request pending, and with a last request of a number not below `n`.
  abbrev Past : ℕ → Outcome (Client T) → Type 0
  Past n (fail f) = Unit
  Past n (ok d) = (n ≤ d.last_cseq) × (d.pending_request ≡ none)

  Past-fresh :
      (c : Client T) (n : ℕ) (m : Outcome (Client T))
      → c.last_cseq ≡ n
      → Called c m
      → Past n (m >>= λ d. ok (record d { pending_request = none }))
  Past-fresh c n (fail f) e t = tt
  Past-fresh c n (ok d) e t = (omega (arith, e, t.0), refl)

  handle_request-Past :
      (c : Client T) (req : Request) (n : ℕ)
      → Fair lib methods http
      → cseq_of lib req ≡ some n
      → Past n (handle_request lib methods c req)
  unfolding handle_request
  handle_request-Past c req n fair e =
      match-cases (Past n) (cseq_of lib req) _ _ (λ f. absurd (let g = sym e ∙ f in cc))
        (λ m f.
          let g : n ≡ m = (let g = sym e ∙ f in cc) in
          if-cases (Past n) (leb m c.last_cseq) _ _ (λ h. (ground (arith, g, h), refl))
            (λ h.
              Past-fresh (record c { last_cseq = m }) n _ (sym g)
                (handle_fresh-Called lib methods http fair (record c { last_cseq = m }) req)))

  ignored :
      (c : Client T) (req : Request) (n : ℕ)
      → cseq_of lib req ≡ some n
      → n ≤ c.last_cseq
      → handle_request lib methods c req ≡ ok (record c { pending_request = none })
  unfolding handle_request
  ignored c req n e k =
      let P : Outcome (Client T) → Type 0 = λ m. m ≡ ok (record c { pending_request = none }) in
      match-cases P (cseq_of lib req) _ _ (λ f. absurd (let g = sym e ∙ f in cc))
        (λ m f.
          let g : n ≡ m = (let g = sym e ∙ f in cc) in
          if-cases P (leb m c.last_cseq) _ _ (λ h. refl) (λ h. absurd (ground (arith, k, g, h))))

  -- If the methods do as `Fair` says, a request is served once: if a request whose `CSeq` is a
  -- number was handled and returned, then handling it again, or any request with the same `CSeq`,
  -- leaves the client as it is: no method has an effect, and no response is sent.
  pub handle_request_once :
      (c d : Client T) (req again : Request) (n : ℕ)
      → Fair lib methods http
      → cseq_of lib req ≡ some n
      → cseq_of lib again ≡ some n
      → handle_request lib methods c req ≡ ok d
      → handle_request lib methods d again ≡ ok d
  handle_request_once c d req again n fair e f r =
      let p : Past n (ok d) = subst (Past n) r (handle_request-Past c req n fair e) in
      ignored d again n f p.0 ∙ ap (λ x. ok (record d { pending_request = x })) (sym p.1)

  -- A result that is no success, or one in no request.
  abbrev Done : Outcome (Client T × Bool) → Type 0
  Done (fail f) = Unit
  Done (ok r) = r.1 ≡ true → (r.0.status ≡ begin) × (r.0.pending_request ≡ none)

  Done-bind :
      (m : Outcome (Client T × Bool)) (k : Client T × Bool → Outcome (Client T × Bool))
      → ((r : Client T × Bool) → m ≡ ok r → Done (k r))
      → Done (m >>= k)
  Done-bind (fail f) k h = tt
  Done-bind (ok r) k h = h r refl

  Done-begin :
      (m : Outcome (Client T)) (n : ℕ)
      → ((d : Client T) → m ≡ ok d → d.pending_request ≡ none)
      → Done (m >>= λ d. ok (record d { status = begin }, true))
  Done-begin (fail f) n h = tt
  Done-begin (ok d) n h = λ _. (refl, h d refl)

  -- However a request is handled, it is pending no more.
  abbrev Over : Outcome (Client T) → Type 0
  Over (fail f) = Unit
  Over (ok d) = d.pending_request ≡ none

  Over-cleared :
      (m : Outcome (Client T)) → Over (m >>= λ d. ok (record d { pending_request = none }))
  Over-cleared (fail f) = tt
  Over-cleared (ok d) = refl

  handle_request-Over : (c : Client T) (req : Request) → Over (handle_request lib methods c req)
  unfolding handle_request
  handle_request-Over c req =
      match-cases Over (cseq_of lib req) _ _ (λ e. refl)
        (λ n e.
          if-cases Over (leb n c.last_cseq) _ _ (λ f. refl)
            (λ f. Over-cleared (handle_fresh lib methods (record c { last_cseq = n }) req)))

  handle_content-Done : (c : Client T) → Done (handle_content lib methods http c)
  unfolding handle_content
  handle_content-Done c =
      match-cases Done c.pending_request _ _ (λ e. tt)
        (λ req e.
          match-cases Done (headers_lookup header_content_length req.headers) _ _
            (λ f.
              Done-begin (handle_request lib methods c req) 0
                (λ d g. subst Over g (handle_request-Over c req)))
            (λ n f. tt))

  conjunct-Done :
      (r : Client T × Bool) (s : State) (k : Client T → Outcome (Client T × Bool))
      → ((d : Client T) → r ≡ (d, true) → Done (k d))
      → Done (conjunct r s k)
  conjunct-Done (d, true) s k h =
      if-cases Done (true && same_state d.status s) (k d) (ok (d, false)) (λ e. h d refl)
        (λ e f. absurd cc)
  conjunct-Done (d, false) s k h = λ e. absurd cc

  whole_content-Done : (c : Client T) → Done (whole_content lib methods http c)
  unfolding whole_content
  whole_content-Done c =
      Done-bind (handle_content lib methods http c) (λ t. conjunct t begin (λ f. ok (f, true)))
        (λ t e.
          conjunct-Done t begin (λ f. ok (f, true))
            (λ x f. subst Done (e ∙ ap ok f) (handle_content-Done c)))

  whole_headers-Done : (c : Client T) → Done (whole_headers lib methods http c)
  unfolding whole_headers
  whole_headers-Done c =
      Done-bind (handle_headers lib c)
        (λ s. conjunct s rtsp_content (whole_content lib methods http))
        (λ s e.
          conjunct-Done s rtsp_content (whole_content lib methods http)
            (λ d f. whole_content-Done d))

  whole_request-Done : (c : Client T) → Done (whole_request lib methods http c)
  unfolding whole_request
  whole_request-Done c =
      Done-bind (handle_new lib c) (λ s. conjunct s rtsp_headers (whole_headers lib methods http))
        (λ s e.
          conjunct-Done s rtsp_headers (whole_headers lib methods http)
            (λ d f. whole_headers-Done d))

  process_complete-Done : (c : Client T) → Done (process_complete lib methods http c)
  unfolding process_complete
  process_complete-Done c =
      if-cases Done (same_state c.status begin) (whole_request lib methods http c) (ok (c, false))
        (λ e. whole_request-Done c) (λ e f. absurd cc)

  started :
      (c d : Client T)
      → process_complete lib methods http c ≡ ok (d, true)
      → same_state c.status begin ≡ true
  unfolding process_complete
  started c d e = elim (Bool-cases (same_state c.status begin)) [
    | inl f ↦ f
    | inr f ↦ absurd (let g = rw f at e in cc)
  ]

  -- `rtsp_process_complete` takes a message as one whole request: if it reports success the client
  -- was in no request before, and is in none after.
  pub process_complete_whole :
      (c d : Client T)
      → process_complete lib methods http c ≡ ok (d, true)
      → (same_state c.status begin ≡ true) × (d.status ≡ begin) × (d.pending_request ≡ none)
  process_complete_whole c d e =
      let p : Done (ok (d, true)) = subst Done e (process_complete-Done c) in
      let r = p refl in (started c d e, r.0, r.1)
