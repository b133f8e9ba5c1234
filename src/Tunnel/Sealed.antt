-- ===== src/Tunnel/Sealed.antt =====
-- The pairs of HTTP connections (http_tunnelling.c) in the program, which calls `http_tunnel_initialise`
-- nowhere: the table of pairs is `NULL` from the start to the end.
use Prim.Native.String.{String}
use is_rtsp_server.Base.{
  ℕ, ◌+◌, zero, suc, ◌≡◌, ◌⊎◌, inl, inr, refl, sym, ap, subst, arith, Bool, true, false, not,
  Option, none, some, List, ◌++◌, ◌==◌, length, ltb, drop, if◌then◌else◌, if-cases, match-cases,
  Outcome, ok, fail, ◌>>=◌,
}
use is_rtsp_server.Protocol.{Method, Request, header_x_sessioncookie, headers_lookup}
use is_rtsp_server.Client.{
  State, begin, interleaved, rtsp_headers, rtsp_content, http_headers, http_content, http_idle,
  Client,
}
use is_rtsp_server.Machine.{Library, Block, bad_block, block}
use is_rtsp_server.Tunnel.{
  Pair, new_pair, find_pair, insert_pair, World, put_client, put_pair, tie, untie, bad_request,
  create_pair, post,
}
use is_rtsp_server.Tunnel.Handled.{
  Tunnelling, unloop, set_idle, handle_method, handle_http_block, handle_http_headers,
  handle_http_content, handle_rtsp, state_turn, world_turn, world_handler, reader, read_into,
  tcp_read_cb,
}

module _ {T : Type 0} where
  -- There is no table; the pair of a client is in memory; and no pair has a client that sent a POST.
  abbrev pub Sealed : World T → Type 0
  Sealed w =
      (w.table ≡ none)
      × ((a q : ℕ) → w.pair_of a ≡ some q → (p : Pair) × (w.pairs q ≡ some p))
      × ((q : ℕ) (p : Pair) → w.pairs q ≡ some p → p.rtsp_client ≡ none)

  -- What a call leaves, if it returns.
  abbrev SealedIn : Outcome (World T × Bool) → Type 0
  SealedIn (fail f) = Unit
  SealedIn (ok r) = Sealed (r.0)

  abbrev pub SealedBy : Outcome (World T) → Type 0
  SealedBy (fail f) = Unit
  SealedBy (ok w) = Sealed w

  pub untie-Sealed : (date : String) (a : ℕ) (w : World T) → Sealed w → Sealed (untie date a w)
  untie-Sealed date a w (t, l, n) = (t, tied, n)
    where
      tied :
          (b q : ℕ)
          → (if b == a then none else w.pair_of b) ≡ some q
          → (p : Pair) × (w.pairs q ≡ some p)
      tied b q =
          if-cases (λ o. o ≡ some q → (p : Pair) × (w.pairs q ≡ some p)) (b == a) _ _
            (λ e f. absurd cc) (λ e f. l b q f)

  opened-Sealed :
      (date k : String) (a : ℕ) (w : World T)
      → Sealed w
      → Sealed (
          tie date a a
            (put_pair date a (new_pair a) (record w { table = insert_pair k a w.table })))
  unfolding insert_pair
  opened-Sealed date k a w (t, l, n) = (ap (insert_pair k a) t, tied, fresh)
    where
      here :
          (q : ℕ)
          → ((p : Pair) × (w.pairs q ≡ some p))
          → (p : Pair) × ((if q == a then some (new_pair a) else w.pairs q) ≡ some p)
      here q (p, e) =
          if-cases (λ o. (x : Pair) × (o ≡ some x)) (q == a) _ _ (λ f. (new_pair a, refl))
            (λ f. (p, e))

      mine : (p : Pair) × ((if a == a then some (new_pair a) else w.pairs a) ≡ some p)
      mine = (
        new_pair a,
        if-cases (λ o. o ≡ some (new_pair a)) (a == a) _ _ (λ e. refl)
            (λ e. absurd (ground (arith, e))),
      )

      tied :
          (b q : ℕ)
          → (if b == a then some a else w.pair_of b) ≡ some q
          → (p : Pair) × ((if q == a then some (new_pair a) else w.pairs q) ≡ some p)
      tied b q =
          if-cases
            (λ o.
              o ≡ some q
              → (p : Pair) × ((if q == a then some (new_pair a) else w.pairs q) ≡ some p))
            (b == a) _ _
            (λ e f.
              let g : a ≡ q = cc in
              subst (λ x. (p : Pair) × ((if x == a then some (new_pair a) else w.pairs x) ≡ some p))
                g mine)
            (λ e f. here q (l b q f))

      fresh :
          (q : ℕ) (p : Pair)
          → (if q == a then some (new_pair a) else w.pairs q) ≡ some p
          → p.rtsp_client ≡ none
      fresh q p =
          if-cases (λ o. o ≡ some p → p.rtsp_client ≡ none) (q == a) _ _
            (λ e f.
              subst (λ (o : Option Pair). elim o [ none ↦ Unit | some x ↦ x.rtsp_client ≡ none ]) f
                refl)
            (λ e f. n q p f)

  -- The POST is answered as a bad request, and nothing else happens but that the client has no pair.
  abbrev pub Refused : String → World T → ℕ → Client T → Request → Outcome (World T) → Type 0
  Refused date w a c req o =
      (v : World T) × (o ≡ ok (put_client date a (bad_request date c req) v))
      × ((v ≡ w) ⊎ (v ≡ untie date a w))

  pub post-Refused :
      (date : String) (run : World T → ℕ → Outcome (World T)) (w : World T) (a : ℕ) (c : Client T)
      (req : Request)
      → w.table ≡ none
      → Refused date w a c req (post date run w a c req)
  unfolding post find_pair
  post-Refused date run w a c req t =
      match-cases (Refused date w a c req) (headers_lookup header_x_sessioncookie req.headers) _ _
        (λ e. (w, refl, inl refl))
        (λ k e.
          match-cases (Refused date w a c req) (find_pair k w.table) _ _
            (λ f. (untie date a w, refl, inr refl))
            (λ q f. absurd (let g : find_pair k w.table ≡ none = ap (find_pair k) t in cc)))

  module _ (lib : Library) (tun : Tunnelling)
      (methods : Method → Client T → Request → Outcome (Client T)) where
    after_post :
        (w : World T) (a : ℕ) (c : Client T) (req : Request) (o : Outcome (World T))
        → Sealed w
        → Refused lib.date w a c req o
        → SealedIn (o >>= λ v. ok (v, false))
    after_post w a c req o s (v, e, inl f) = rw e (subst Sealed (sym f) s)
    after_post w a c req o s (v, e, inr f) =
        rw e (subst Sealed (sym f) (untie-Sealed lib.date a w s))

    idle-Sealed : (a : ℕ) (w : World T) → Sealed w → Sealed (set_idle a w)
    unfolding set_idle
    idle-Sealed a w s = match-cases Sealed (w.clients a) _ _ (λ e. s) (λ c e. s)

    create-Sealed :
        (w : World T) (a : ℕ) (c : Client T) (req : Request)
        → Sealed w
        → Sealed ((create_pair lib.date w a c req).0)
    unfolding create_pair
    create-Sealed w a c req s =
        let P : World T × Bool → Type 0 = λ r. Sealed (r.0) in
        match-cases P (headers_lookup header_x_sessioncookie req.headers) _ _ (λ e. s)
          (λ k e.
            match-cases P (find_pair k w.table) _ _ (λ f. opened-Sealed lib.date k a w s)
              (λ q f. s))

    method-Sealed :
        (run : World T → ℕ → Outcome (World T)) (w : World T) (a : ℕ) (c : Client T) (req : Request)
        → Sealed w
        → SealedIn (handle_method lib tun run w a c req)
    unfolding handle_method
    method-Sealed run w a c req s =
        let r = create_pair lib.date w a c req in
        if-cases SealedIn (req.method_id == 3) _ _
          (λ e.
            after_post w a c req (post lib.date run w a c req) s
              (post-Refused lib.date run w a c req (s.0)))
          (λ e.
            if-cases SealedIn (r.1) _ _ (λ f. idle-Sealed a (r.0) (create-Sealed w a c req s))
              (λ f. create-Sealed w a c req s))

    block-Sealed :
        (run : World T → ℕ → Outcome (World T)) (w : World T) (a : ℕ) (c : Client T) (req : Request)
        (x : Block)
        → Sealed w
        → SealedIn (handle_http_block lib tun run w a c req x)
    unfolding handle_http_block
    block-Sealed run w a c req (bad_block hs) s = s
    block-Sealed run w a c req (block hs n last) s =
        let r = record req { headers = hs } in
        let d = record c { pending_request = some r; input = drop n c.input } in
        if-cases SealedIn (not last) _ _ (λ e. s)
          (λ e. method-Sealed run (put_client lib.date a d w) a d r s)

    headers-Sealed :
        (run : World T → ℕ → Outcome (World T)) (w : World T) (a : ℕ) (c : Client T)
        → Sealed w
        → SealedIn (handle_http_headers lib tun run w a c)
    unfolding handle_http_headers
    headers-Sealed run w a c s =
        match-cases SealedIn c.pending_request _ _ (λ e. tt)
          (λ req e. block-Sealed run w a c req (tun.read_http_headers req.headers c.input) s)

    content-Sealed :
        (run : World T → ℕ → Outcome (World T)) (w : World T) (a : ℕ) (c : Client T)
        → Sealed w
        → SealedIn (handle_http_content lib tun run w a c)
    unfolding handle_http_content
    content-Sealed run w a c s =
        match-cases SealedIn (w.pair_of a) _ _ (λ e. tt)
          (λ q e.
            match-cases SealedIn (w.pairs q) _ _ (λ f. tt)
              (λ p f.
                match-cases SealedIn p.rtsp_client _ _ (λ g. tt)
                  (λ b g. absurd (let h = s.2 q p f in cc))))

    rtsp-Sealed :
        (w : World T) (a : ℕ) (c : Client T)
        → Sealed w
        → SealedIn (handle_rtsp lib tun methods w a c)
    unfolding handle_rtsp
    rtsp-Sealed w a c s = of _
      where
        of :
            (o : Outcome (Client T × Bool))
            → SealedIn (o >>= λ r. ok (put_client lib.date a (r.0) w, r.1))
        of (fail f) = tt
        of (ok r) = s

    state-Sealed :
        (run : World T → ℕ → Outcome (World T)) (w : World T) (a : ℕ) (c : Client T) (x : State)
        → Sealed w
        → SealedIn (state_turn lib tun methods run w a c x)
    unfolding state_turn
    state-Sealed run w a c http_headers s = headers-Sealed run w a c s
    state-Sealed run w a c http_content s = content-Sealed run w a c s
    state-Sealed run w a c http_idle s = s
    state-Sealed run w a c begin s = rtsp-Sealed w a c s
    state-Sealed run w a c interleaved s = rtsp-Sealed w a c s
    state-Sealed run w a c rtsp_headers s = rtsp-Sealed w a c s
    state-Sealed run w a c rtsp_content s = rtsp-Sealed w a c s

    turn-Sealed :
        (run : World T → ℕ → Outcome (World T)) (w : World T) (a : ℕ)
        → Sealed w
        → SealedIn (world_turn lib tun methods run w a)
    unfolding world_turn
    turn-Sealed run w a s =
        match-cases SealedIn (w.clients a) _ _ (λ e. tt) (λ c e. state-Sealed run w a c c.status s)

    looped :
        (o : Outcome (World T × Bool)) (k : World T → Outcome (World T))
        → SealedIn o
        → ((v : World T) → Sealed v → SealedBy (k v))
        → SealedBy (o >>= λ r. elim r.1 [ true ↦ k (r.0) | false ↦ ok (r.0) ])
    looped (fail f) k s h = tt
    looped (ok (v, true)) k s h = h v s
    looped (ok (v, false)) k s h = s

    handler-Sealed :
        (fuel : ℕ) (w : World T) (a : ℕ)
        → Sealed w
        → SealedBy (world_handler lib tun methods fuel w a)
    unfolding world_handler
    handler-Sealed zero w a s = tt
    handler-Sealed (suc fuel) w a s =
        looped (world_turn lib tun methods (world_handler lib tun methods fuel) w a)
          (λ v. world_handler lib tun methods fuel v a)
          (turn-Sealed (world_handler lib tun methods fuel) w a s)
          (λ v h. handler-Sealed fuel v a h)

    into-Sealed :
        (fuel : ℕ) (w : World T) (a b : ℕ) (bytes : List ℕ)
        → Sealed w
        → SealedBy (read_into lib tun (world_handler lib tun methods fuel) w a b bytes)
    unfolding read_into
    into-Sealed fuel w a b bytes s =
        match-cases SealedBy (w.clients b) _ _ (λ e. tt)
          (λ c e.
            if-cases SealedBy (ltb 5000 (length c.input + length bytes)) _ _ (λ f. s)
              (λ f.
                handler-Sealed fuel
                  (put_client lib.date b (record c { input = c.input ++ bytes }) w) b s))

    pub read-Sealed :
        (fuel : ℕ) (w : World T) (a : ℕ) (o : Option (List ℕ))
        → Sealed w
        → SealedBy (tcp_read_cb lib tun (world_handler lib tun methods fuel) w a o)
    unfolding tcp_read_cb
    read-Sealed fuel w a none s = of (reader lib tun w a)
      where
        of : (m : Outcome ℕ) → SealedBy (m >>= λ b. ok (unloop a w))
        of (fail f) = tt
        of (ok b) = s
    read-Sealed fuel w a (some bytes) s = of (reader lib tun w a)
      where
        of :
            (m : Outcome ℕ)
            → SealedBy
                (m >>= λ b. read_into lib tun (world_handler lib tun methods fuel) w a b bytes)
        of (fail f) = tt
        of (ok b) = into-Sealed fuel w a b bytes s
