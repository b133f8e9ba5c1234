-- ===== src/Tunnel/Handled.antt =====
-- The HTTP states of a connection (http_tunnelling.c), the loop of `RTSP_handler` over several clients,
-- and what `rtsp_tcp_read_cb` of rtsp_lowlevel.c does with the bytes that arrive.
use is_rtsp_server.Base.{
  ℕ, zero, suc, ◌+◌, Bool, true, false, not, Option, none, some, List, [], ◌∷◌, ◌++◌, length, drop,
  ltb, ◌==◌, if◌then◌else◌, Outcome, ok, fail, dangling, null_pointer, out_of_fuel, ◌>>=◌,
}
use is_rtsp_server.Protocol.{Method, Headers, Request, http10, quick_response}
use is_rtsp_server.Client.{State, http_headers, http_content, http_idle, Client, response_send}
use is_rtsp_server.Machine.{Library, Block, bad_block, block, turn_in}
use is_rtsp_server.Tunnel.{Pair, World, put_client, put_pair, create_pair, post}

-- What this part calls and is not modelled: `ragel_read_http_headers`, and `g_base64_decode_step`,
-- which makes bytes of the input and of the two numbers that it keeps.
pub record Tunnelling : Type 0 where
  pub read_http_headers : Headers → List ℕ → Block
  pub decode_step : List ℕ → ℕ → ℕ → List ℕ × ℕ × ℕ

module _ {T : Type 0} where
  -- `ev_unloop` on the loop of a client.
  abbrev pub unloop : ℕ → World T → World T
  unloop a w = record w { ended = a ∷ w.ended }

  -- `RFC822_State_HTTP_Idle` for the client at an address.
  unfoldable pub set_idle : ℕ → World T → World T
  set_idle a w = elim (w.clients a) [
    | none ↦ w
    | some c ↦ record w {
      clients = λ b. if b == a then some (record c { status = http_idle }) else w.clients b;
    }
  ]

module _ {T : Type 0} (lib : Library) (tun : Tunnelling) where
  -- `HTTP_handle_headers` once the last header is read, by the method: 3 is POST.
  unfoldable pub handle_method :
      (World T → ℕ → Outcome (World T))
      → World T
      → ℕ
      → Client T
      → Request
      → Outcome (World T × Bool)
  unfolding post create_pair set_idle
  handle_method run w a c req =
      if req.method_id == 3
      then (post lib.date run w a c req >>= λ v. ok (v, false))
      else let r = create_pair lib.date w a c req in
        if r.1 then ok (set_idle a (r.0), true) else ok (r.0, true)

  -- `HTTP_handle_headers` on the pending request, by what the parser made of the input.
  unfoldable pub handle_http_block :
      (World T → ℕ → Outcome (World T))
      → World T
      → ℕ
      → Client T
      → Request
      → Block
      → Outcome (World T × Bool)
  unfolding handle_method response_send quick_response
  handle_http_block run w a c req (bad_block hs) =
      let r = record req { headers = hs } in
      let c' = record c { pending_request = some r } in
      ok (put_client lib.date a (response_send c' (quick_response lib.date r http10 400)) w, false)
  handle_http_block run w a c req (block hs n last) =
      let r = record req { headers = hs } in
      let c' = record c { pending_request = some r; input = drop n c.input } in
      if not last
      then ok (put_client lib.date a c' w, false)
      else handle_method run (put_client lib.date a c' w) a c' r

  -- `HTTP_handle_headers`
  unfoldable pub handle_http_headers :
      (World T → ℕ → Outcome (World T)) → World T → ℕ → Client T → Outcome (World T × Bool)
  unfolding handle_http_block
  handle_http_headers run w a c = elim c.pending_request [
    | none ↦ fail null_pointer
    | some req ↦ handle_http_block run w a c req (tun.read_http_headers req.headers c.input)
  ]

  -- The clients after the decoded input went from the client `c` at `a` to the client `d` at `b`.
  unfoldable pub deliver : World T → ℕ → Client T → ℕ → Client T → ℕ → Pair → World T
  deliver w a c b d q p =
      let r = tun.decode_step c.input p.base64_state p.base64_save in
      put_client lib.date a (record c { input = [] })
        (put_client lib.date b (record d { input = d.input ++ r.0 })
          (put_pair lib.date q (record p { base64_state = r.1; base64_save = r.2 }) w))

  -- `HTTP_handle_content`
  unfoldable pub handle_http_content :
      (World T → ℕ → Outcome (World T)) → World T → ℕ → Client T → Outcome (World T × Bool)
  unfolding deliver
  handle_http_content run w a c = elim (w.pair_of a) [
    | none ↦ fail null_pointer
    | some q ↦ elim (w.pairs q) [
      | none ↦ fail dangling
      | some p ↦ elim p.rtsp_client [
        | none ↦ fail null_pointer
        | some b ↦ elim (w.clients b) [
          | none ↦ fail dangling
          | some d ↦ (run (deliver w a c b d q p) b >>= λ v. ok (v, false))
        ]
      ]
    ]
  ]

  module _ (methods : Method → Client T → Request → Outcome (Client T)) where
    -- The functions of the other states, on the client at an address alone.
    unfoldable pub handle_rtsp : World T → ℕ → Client T → Outcome (World T × Bool)
    unfolding turn_in
    handle_rtsp w a c = turn_in lib methods (λ d. ok (d, false)) c.status c >>= λ r.
        ok (put_client lib.date a (r.0) w, r.1)

    -- The function that the loop of `RTSP_handler` calls in a state. `HTTP_handle_idle` ends the loop
    -- once its event loop has sent what was queued.
    unfoldable pub state_turn :
        (World T → ℕ → Outcome (World T))
        → World T
        → ℕ
        → Client T
        → State
        → Outcome (World T × Bool)
    unfolding handle_http_headers handle_http_content handle_rtsp
    state_turn run w a c http_headers = handle_http_headers run w a c
    state_turn run w a c http_content = handle_http_content run w a c
    state_turn run w a c http_idle = ok (unloop a w, false)
    state_turn run w a c _ = handle_rtsp w a c

    unfoldable pub world_turn :
        (World T → ℕ → Outcome (World T)) → World T → ℕ → Outcome (World T × Bool)
    unfolding state_turn
    world_turn run w a = elim (w.clients a) [
      | none ↦ fail dangling
      | some c ↦ state_turn run w a c c.status
    ]

    -- `RTSP_handler` for the client at an address.
    unfoldable pub world_handler : ℕ → World T → ℕ → Outcome (World T)
    unfolding world_turn
    world_handler zero w a = fail out_of_fuel
    world_handler (suc fuel) w a = world_turn (world_handler fuel) w a >>= λ r. elim r.1 [
      | true ↦ world_handler fuel (r.0) a
      | false ↦ ok (r.0)
    ]

  -- The client that reads for the one at an address: the one of its pair that sent the GET.
  unfoldable pub reader : World T → ℕ → Outcome ℕ
  reader w a = elim (w.pair_of a) [
    | none ↦ ok a
    | some q ↦ elim (w.pairs q) [ none ↦ fail dangling | some p ↦ ok p.http_client ]
  ]

  -- `rtsp_tcp_read_cb` when `recv` gives bytes to the client at `a`, for the reader `b`.
  unfoldable pub read_into :
      (World T → ℕ → Outcome (World T)) → World T → ℕ → ℕ → List ℕ → Outcome (World T)
  read_into run w a b bytes = elim (w.clients b) [
    | none ↦ fail dangling
    | some c ↦
        if ltb 5000 (length c.input + length bytes)
        then ok (unloop a w)
        else run (put_client lib.date b (record c { input = c.input ++ bytes }) w) b
  ]

  -- `rtsp_tcp_read_cb`, with the bytes that `recv` gives, none if it gives 0 or -1.
  unfoldable pub tcp_read_cb :
      (World T → ℕ → Outcome (World T)) → World T → ℕ → Option (List ℕ) → Outcome (World T)
  unfolding reader read_into
  tcp_read_cb run w a none = reader w a >>= λ b. ok (unloop a w)
  tcp_read_cb run w a (some bytes) = reader w a >>= λ b. read_into run w a b bytes
