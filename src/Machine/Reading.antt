-- ===== src/Machine/Reading.antt =====
-- The input of a client without a tunnel, as `rtsp_tcp_read_cb` (rtsp_lowlevel.c) fills it and
-- `RTSP_handler` (rtsp_state_machine.c) uses it up.
use is_rtsp_server.Base.{
  ℕ, true, if◌then◌else◌, ◌+◌, ◌≤◌, ◌≡◌, ◌≢◌, sym, subst, arith, Bool, false, Option, none, some,
  List, [], ◌∷◌, ◌++◌, length, length-append, ltb, ==_refl, if-cases, Outcome, ok, fail, dangling,
  out_of_fuel, ◌>>=◌,
}
use is_rtsp_server.Protocol.{Method, Request}
use is_rtsp_server.Client.{
  State, begin, interleaved, rtsp_headers, rtsp_content, http_headers, http_content, http_idle,
  Client,
}
use is_rtsp_server.Machine.{Library, handler}
use is_rtsp_server.Machine.Turns.{rank, Run, Fair}
use is_rtsp_server.Machine.Loop.{handler-Run}
use is_rtsp_server.Machine.Shorter.{Shorter, NoLonger, handler-NoLonger}
use is_rtsp_server.Tunnel.{World, put_client}
use is_rtsp_server.Tunnel.Handled.{Tunnelling, reader, read_into, tcp_read_cb}

abbrev pub is_http : State → Bool
is_http http_headers = true
is_http http_content = true
is_http http_idle = true
is_http _ = false

module _ {T : Type 0} (lib : Library) (tun : Tunnelling)
    (methods : Method → Client T → Request → Outcome (Client T))
    (http : Client T → Outcome (Client T × Bool)) where
  -- `RTSP_handler` on the client at an address, with fuel for an input of 5000 bytes.
  abbrev pub run : World T → ℕ → Outcome (World T)
  run w a = elim (w.clients a) [
    | none ↦ fail dangling
    | some c ↦ (handler lib methods http 15003 c >>= λ d. ok (put_client lib.date a d w))
  ]

  -- The connection of the client at the address has come to an HTTP state.
  abbrev pub at_http : World T → ℕ → Bool
  at_http w a = elim (w.clients a) [ none ↦ false | some c ↦ is_http c.status ]

  -- The bytes that `recv` gives, one call after the other, up to an HTTP state.
  unfoldable pub reads : World T → ℕ → List (List ℕ) → Outcome (World T)
  reads w a [] = ok w
  reads w a (bytes ∷ rest) =
      if at_http w a
      then ok w
      else (tcp_read_cb lib tun run w a (some bytes) >>= λ v. reads v a rest)

  -- The client at the address is of no pair, and has an input of 5000 bytes at most.
  abbrev pub IsBounded : ℕ → World T → Type 0
  IsBounded a w =
      (w.pair_of a ≡ none) × ((c : Client T) × (w.clients a ≡ some c) × (length c.input ≤ 5000))

  abbrev pub Bounded : ℕ → Outcome (World T) → Type 0
  Bounded a (fail f) = f ≢ out_of_fuel
  Bounded a (ok v) = IsBounded a v

  module _ (fair : Fair lib methods http) (http_shorter : (c : Client T) → Shorter c (http c)) where
    rank_le : (s : State) → rank s ≤ 2
    rank_le begin = omega arith
    rank_le interleaved = omega arith
    rank_le rtsp_headers = omega arith
    rank_le rtsp_content = omega arith
    rank_le http_headers = omega arith
    rank_le http_content = omega arith
    rank_le http_idle = omega arith

    stored :
        (w : World T) (a : ℕ) (c : Client T) (m : Outcome (Client T))
        → w.pair_of a ≡ none
        → Run c m
        → NoLonger lib methods http fair http_shorter 5000 m
        → Bounded a (m >>= λ d. ok (put_client lib.date a d w))
    stored w a c (fail f) n r s = r
    stored w a c (ok d) n r s = (n, (d, rw (==_refl a), s))

    handled :
        (w : World T) (a : ℕ) (c : Client T)
        → w.pair_of a ≡ none
        → length c.input ≤ 5000
        → Bounded a (run (put_client lib.date a c w) a)
    handled w a c n l =
        let v = put_client lib.date a c w in
        let here : v.clients a ≡ some c = rw (==_refl a) in
        subst
          (λ (o : Option (Client T)). Bounded a (elim o [
            | none ↦ fail dangling
            | some d ↦ (handler lib methods http 15003 d >>= λ e. ok (put_client lib.date a e v))
          ]))
          (sym here)
          (stored v a c (handler lib methods http 15003 c) n
            (handler-Run lib methods http fair 15003 c
              (let k = rank_le c.status in omega (arith, k, l)))
            (handler-NoLonger lib methods http fair http_shorter 15003 5000 c l))

    within : (x : ℕ) → ltb 5000 x ≡ false → x ≤ 5000
    within x e = ground (arith, e)

    read_into-Bounded :
        (w : World T) (a : ℕ) (bytes : List ℕ)
        → IsBounded a w
        → Bounded a (read_into lib tun run w a a bytes)
    unfolding read_into
    read_into-Bounded w a bytes (n, (c, e, l)) =
        rw (read_into, e)
          (if-cases (Bounded a) (ltb 5000 (length c.input + length bytes)) _ _ (λ f. (n, (c, e, l)))
            (λ f.
              handled w a (record c { input = c.input ++ bytes }) n
                (let k = within (length c.input + length bytes) f in
                  omega (arith, k, length-append c.input bytes))))

    tcp_read_cb-Bounded :
        (w : World T) (a : ℕ) (bytes : List ℕ)
        → IsBounded a w
        → Bounded a (tcp_read_cb lib tun run w a (some bytes))
    unfolding tcp_read_cb reader
    tcp_read_cb-Bounded w a bytes (n, b) =
        rw (tcp_read_cb, reader, n) (read_into-Bounded w a bytes (n, b))

    then_reads :
        (a : ℕ) (rest : List (List ℕ)) (m : Outcome (World T))
        → Bounded a m
        → ((v : World T) → IsBounded a v → Bounded a (reads v a rest))
        → Bounded a (m >>= λ v. reads v a rest)
    then_reads a rest (fail f) b k = b
    then_reads a rest (ok v) b k = k v b

    -- The input never gets longer than 5000 bytes, and 15003 turns are enough at each call.
    pub reads_in_bounds :
        (w : World T) (a : ℕ) (chunks : List (List ℕ))
        → IsBounded a w
        → Bounded a (reads w a chunks)
    unfolding reads
    reads_in_bounds w a [] b = b
    reads_in_bounds w a (bytes ∷ rest) b =
        if-cases (Bounded a) (at_http w a) _ _ (λ e. b)
          (λ e.
            then_reads a rest (tcp_read_cb lib tun run w a (some bytes))
              (tcp_read_cb-Bounded w a bytes b) (λ v h. reads_in_bounds v a rest h))
