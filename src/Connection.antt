-- ===== src/Connection.antt =====
-- The sockets of a client (rtsp_lowlevel.c, rtsp_client.c): the queue of what is sent to it, what is
-- read from it, and the timer that ends it. What the kernel answers to a call is a parameter.
pub mod Order
pub mod Udp
pub mod Ports
pub mod Sessions
mod Tests
use is_rtsp_server.Base.{
  ℕ, ◌-◌, ◌^◌, ◌+◌, Bool, true, false, ◌||◌, Option, none, some, List, [], ◌∷◌, ◌++◌, length, take,
  ltb, leb, if◌then◌else◌, Outcome, ok, fail, null_pointer, ◌>>=◌,
}
use is_rtsp_server.Client.{RtpSession, Session, Client}

-- `g_queue_pop_tail`, of a queue from its head.
unfoldable pub pop_tail {ℓ} : {A : Type ℓ} → List A → Option (List A × A)
pop_tail [] = none
pop_tail (x ∷ xs) =
    let rest = pop_tail xs in elim rest [ none ↦ some ([], x) | some r ↦ some (x ∷ r.0, r.1) ]

-- The writing side of a client: `out_queue` from its head, whether `ev_io_write` is started, the
-- bytes that the socket took so far, and how many packets were taken from the queue and not freed.
pub record Output : Type 0 where
  pub out_queue : List (List ℕ)
  pub writing : Bool
  pub wire : List ℕ
  pub leaked : ℕ

-- What `send` returns, none for -1, and whether `errno` is `EAGAIN` then.
pub record Answer : Type 0 where
  pub written : Option ℕ
  pub again : Bool

-- The result of `send` as a `size_t`.
abbrev pub written_size : Answer → ℕ
written_size a = elim a.written [ none ↦ 2 ^ 64 - 1 | some n ↦ n ]

-- The bytes of a packet that `send` took.
abbrev pub taken : Answer → List ℕ → List ℕ
taken a p = elim a.written [ none ↦ [] | some n ↦ take n p ]

-- `rtsp_write_data_queue`
unfoldable pub write_data_queue : List ℕ → Output → Output
write_data_queue p o = record o { out_queue = p ∷ o.out_queue; writing = true }

-- `rtsp_tcp_write_cb`, where `send` is what the socket answers to a packet.
unfoldable pub tcp_write_cb : (List ℕ → Answer) → Output → Output
unfolding pop_tail
tcp_write_cb send o = elim (pop_tail o.out_queue) [
  | none ↦ record o { writing = false }
  | some r ↦
      let a = send (r.1) in
      let o' = record o { out_queue = r.0; wire = o.wire ++ taken a (r.1) } in
      if ltb (written_size a) (length (r.1))
      then if a.again then record o' { leaked = o.leaked + 1 } else o'
      else o'
]

-- What `client_ev_timeout` does for an RTP session, `check_if_any_rtp_session_timedout`: whether it
-- leaves the loop, `STREAM_TIMEOUT` of 12 seconds after the last packet. The soft time-out only logs.
abbrev pub is_late : {T : Type 0} → ℕ → RtpSession T → Bool
is_late now r = leb (r.last_packet_send_time + 12) now

unfoldable pub any_late : {T : Type 0} → ℕ → List (RtpSession T) → Bool
any_late now [] = false
any_late now (r ∷ rs) = is_late now r || any_late now rs

-- `client_ev_timeout` at a time: the client, whose timer is set again, and whether its loop is left.
unfoldable pub client_ev_timeout : {T : Type 0} → ℕ → Client T → Outcome (Client T × Bool)
unfolding any_late
client_ev_timeout now c = elim c.session [
  | none ↦ fail null_pointer
  | some s ↦ ok (record c { timer = true }, any_late now s.rtp_sessions)
]
