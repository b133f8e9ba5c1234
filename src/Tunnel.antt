-- ===== src/Tunnel.antt =====
-- http_tunnelling.c: RTSP over a pair of HTTP connections, which a cookie ties together, and how
-- `client_loop` of rtsp_client.c ends a client of a pair. Clients have addresses, so that the use of
-- one that was freed is seen. The table of pairs may be `NULL`.
pub mod Sealed
pub mod Reached
pub mod Handled
pub mod Tests
use Prim.Native.String.{String}
use text.Mathlib.Text.{◌==◌ as ◌=s=◌}
use is_rtsp_server.Base.{
  ℕ, Bool, true, false, not, ◌&&◌, Option, none, some, List, [], ◌∷◌, ◌==◌, if◌then◌else◌, Outcome,
  ok, fail, dangling, ◌>>=◌,
}
use is_rtsp_server.Protocol.{
  Request, Response, http10, header_x_sessioncookie, header_connection, header_date,
  header_cache_control, header_pragma, header_content_type, headers_lookup, headers_set,
  response_new, quick_response,
}
use is_rtsp_server.Client.{State, begin, http_content, http_idle, Client, response_send}

-- `HTTP_Tunnel_Pair`: the clients' addresses, and the state of the decoder.
pub record Pair : Type 0 where
  pub rtsp_client : Option ℕ
  pub http_client : ℕ
  pub base64_state : ℕ
  pub base64_save : ℕ

-- The pair that a client at an address opens.
abbrev pub new_pair : ℕ → Pair
new_pair a = record { rtsp_client = none; http_client = a; base64_state = 0; base64_save = 0 }

-- `http_tunnel_pairs`: the addresses of the pairs, by cookie. It is `NULL`, `none` here, until
-- `http_tunnel_initialise` is called.
abbrev pub Table : Type 0
Table = Option (List (String × ℕ))

unfoldable pub find_entry : String → List (String × ℕ) → Option ℕ
find_entry k [] = none
find_entry k (e ∷ es) = if e.0 =s= k then some (e.1) else find_entry k es

-- `g_hash_table_lookup`, which finds nothing in `NULL`
unfoldable pub find_pair : String → Table → Option ℕ
unfolding find_entry
find_pair k none = none
find_pair k (some es) = find_entry k es

-- `g_hash_table_insert`, which does nothing to `NULL`
unfoldable pub insert_pair : String → ℕ → Table → Table
insert_pair k q none = none
insert_pair k q (some es) = some ((k, q) ∷ es)

-- The clients and the pairs in memory, by address, where a pair has the address of the client that
-- opens it; the table; the pair of a client; and the clients whose loop was told to end.
pub record World (T : Type 0) : Type 0 where
  pub clients : ℕ → Option (Client T)
  pub pairs : ℕ → Option Pair
  pub table : Table
  pub pair_of : ℕ → Option ℕ
  pub ended : List ℕ

-- The response to the first connection of a pair.
pub tunnel_response : String → Request → Response
unfolding response_new headers_set
tunnel_response date req =
    let r = response_new date req 200 in
    record r {
      headers = headers_set header_content_type "application/x-rtsp-tunnelled" (
          headers_set header_pragma "no-cache" (
            headers_set header_cache_control "no-store" (
              headers_set header_date "Tue, 8 Jun 2004 15:04:35 GMT"
                (headers_set header_connection "close" r.headers))));
    }

abbrev pub is_idle : State → Bool
is_idle http_idle = true
is_idle _ = false

abbrev pub is_empty : List ℕ → Bool
is_empty [] = true
is_empty (x ∷ xs) = false

module _ {T : Type 0} (date : String) where
  abbrev pub put_client : ℕ → Client T → World T → World T
  put_client a c w = record w { clients = λ b. if b == a then some c else w.clients b }

  abbrev pub put_pair : ℕ → Pair → World T → World T
  put_pair q p w = record w { pairs = λ b. if b == q then some p else w.pairs b }

  abbrev pub tie : ℕ → ℕ → World T → World T
  tie a q w = record w { pair_of = λ b. if b == a then some q else w.pair_of b }

  -- `rfc822_quick_response` of a bad request
  abbrev pub bad_request : Client T → Request → Client T
  bad_request c req = response_send c (quick_response date req http10 400)

  abbrev pub untie : ℕ → World T → World T
  untie a w = record w { pair_of = λ b. if b == a then none else w.pair_of b }

  -- `http_tunnel_create_pair` for the client at an address.
  unfoldable pub create_pair : World T → ℕ → Client T → Request → World T × Bool
  unfolding find_pair insert_pair headers_lookup response_send quick_response tunnel_response
  create_pair w a c req = elim (headers_lookup header_x_sessioncookie req.headers) [
    | none ↦ (put_client a (bad_request c req) w, false)
    | some k ↦ elim (find_pair k w.table) [
      | some q ↦ (put_client a (bad_request c req) w, false)
      | none ↦ (
        put_client a (response_send c (tunnel_response date req))
            (tie a a (put_pair a (new_pair a) (record w { table = insert_pair k a w.table }))),
        true,
      )
    ]
  ]

  -- A POST joins the client at `a` to the client `h` of the pair: the inputs change places.
  unfoldable pub join_pair : World T → ℕ → Client T → ℕ → Client T → ℕ → Pair → World T
  join_pair w a c b h q p =
      put_client b (record h { input = c.input; status = http_content })
        (put_client a (record c { input = h.input; status = begin })
          (put_pair q (record p { rtsp_client = some a }) w))

  -- The POST part of `HTTP_handle_headers`. `run` is the call of `RTSP_handler` for the other client.
  unfoldable pub post :
      (World T → ℕ → Outcome (World T)) → World T → ℕ → Client T → Request → Outcome (World T)
  unfolding find_pair headers_lookup response_send quick_response join_pair
  post run w a c req = elim (headers_lookup header_x_sessioncookie req.headers) [
    | none ↦ ok (put_client a (bad_request c req) w)
    | some k ↦ elim (find_pair k w.table) [
      | none ↦ ok (put_client a (bad_request c req) (untie a w))
      | some q ↦ elim (w.pairs q) [
        | none ↦ fail dangling
        | some p ↦ elim (w.clients p.http_client) [
          | none ↦ fail dangling
          | some h ↦
              if not (is_idle h.status)
              then ok (put_client a (bad_request c req) (tie a q w))
              else if not (is_empty h.input)
              then ok (put_client a (bad_request c req) (tie a q w))
              else run (join_pair (tie a q w) a c p.http_client h q p) p.http_client
        ]
      ]
    ]
  ]

abbrev pub without : {T : Type 0} → ℕ → World T → World T
without a w = record w { clients = λ b. if b == a then none else w.clients b }

-- `rtsp_client_free`
unfoldable pub free_client : {T : Type 0} → ℕ → World T → Outcome (World T)
free_client a w = elim (w.clients a) [ none ↦ fail dangling | some c ↦ ok (without a w) ]

-- The end of `client_loop`: a client with no pair is freed, and so are both of a pair at the end of
-- the one that sent the POST.
unfoldable pub leave : {T : Type 0} → World T → ℕ → Outcome (World T)
unfolding free_client
leave w a = elim (w.pair_of a) [
  | none ↦ free_client a w
  | some q ↦ elim (w.pairs q) [
    | none ↦ fail dangling
    | some p ↦ elim p.rtsp_client [
      | none ↦ ok w
      | some b ↦ if b == a then (free_client p.http_client w >>= λ v. free_client a v) else ok w
    ]
  ]
]
