-- ===== src/Connection/Udp.antt =====
-- The sockets of a UDP transport: `rtp_udp_transport`, `rtp_udp_close_transport` and
-- `rtp_udp_send_pkt` of rtsp_lowlevel.c. A descriptor is a number, none where the code has a negative.
use is_rtsp_server.Base.{
  ℕ, ◌+◌, ◌-◌, ◌%◌, ◌^◌, Bool, true, false, not, Option, none, some, List, [], ◌∷◌, ◌==◌,
  if◌then◌else◌,
}

-- What the kernel answers to the calls of `rtp_udp_transport`, in their order: the descriptor of the
-- first socket, whether it is bound, the port that it got; the second socket, whether it is bound to
-- the port beside, whether it is bound to any port, the port that it got then; and whether the two
-- are connected.
pub record Kernel : Type 0 where
  pub socket1 : Option ℕ
  pub bind1 : Bool
  pub name1 : Option ℕ
  pub socket2 : Option ℕ
  pub bind2 : Bool
  pub bind3 : Bool
  pub name2 : Option ℕ
  pub connect1 : Bool
  pub connect2 : Bool

-- `transport.udp`: the descriptors, and whether the addresses are allocated.
pub record Udp : Type 0 where
  pub rtp_sd : Option ℕ
  pub rtcp_sd : Option ℕ
  pub rtp_sa : Bool
  pub rtcp_sa : Bool

-- As `g_slice_new0` leaves it.
abbrev pub udp_zero : Udp
udp_zero = record { rtp_sd = some 0; rtcp_sd = some 0; rtp_sa = false; rtcp_sa = false }

-- `close`, on the descriptors that are open.
unfoldable pub close : ℕ → List ℕ → List ℕ
close d [] = []
close d (e ∷ es) = let rest = close d es in if e == d then rest else e ∷ rest

-- `if ( sd >= 0 ) close(sd)`
abbrev pub close_valid : Option ℕ → List ℕ → List ℕ
close_valid none es = es
close_valid (some d) es = close d es

-- A transport that is open, with its ports, or none; and the descriptors that are open.
abbrev pub Opening : Type 0
Opening = Option (Udp × ℕ × ℕ) × List ℕ

-- The label `error`, with `firstsd`.
unfoldable pub give_up : Option ℕ → Udp → List ℕ → Opening
unfolding close
give_up first u es = (none, close_valid u.rtcp_sd (close_valid u.rtp_sd (close_valid first es)))

-- The port of the second socket: the one beside, or else any.
unfoldable pub second_port : Kernel → ℕ → Option ℕ
second_port k beside = if k.bind2 then some beside else if not k.bind3 then none else k.name2

-- `rtp_udp_transport` once both sockets have ports.
unfoldable pub connect_both : Kernel → Udp → ℕ → ℕ → List ℕ → Opening
unfolding give_up
connect_both k u rtp_port rtcp_port es =
    let u1 = record u { rtp_sa = true } in
    let u2 = record u1 { rtcp_sa = true } in
    if not k.connect1
    then give_up none u1 es
    else if not k.connect2
    then give_up none u2 es
    else (some (u2, rtp_port, rtcp_port), es)

-- `case 0`: the first port is for RTP.
unfoldable pub open_even : Kernel → Udp → ℕ → ℕ → List ℕ → Opening
unfolding give_up second_port connect_both
open_even k u d port es =
    let u1 = record u { rtp_sd = some d; rtcp_sd = k.socket2 } in
    elim k.socket2 [
      | none ↦ give_up none u1 es
      | some e ↦ elim (second_port k ((port + 1) % 2 ^ 16)) [
        | none ↦ give_up none u1 (e ∷ es)
        | some q ↦ connect_both k u1 port q (e ∷ es)
      ]
    ]

-- `case 1`: the first port is for RTCP.
unfoldable pub open_odd : Kernel → Udp → ℕ → ℕ → List ℕ → Opening
unfolding give_up second_port connect_both
open_odd k u d port es =
    let u1 = record u { rtcp_sd = some d; rtp_sd = k.socket2 } in
    elim k.socket2 [
      | none ↦ give_up none u1 es
      | some e ↦ elim (second_port k ((port + 2 ^ 16 - 1) % 2 ^ 16)) [
        | none ↦ give_up none u1 (e ∷ es)
        | some q ↦ connect_both k u1 q port (e ∷ es)
      ]
    ]

-- `rtp_udp_transport`, on the transport of the session and the descriptors that are open.
unfoldable pub udp_transport : Kernel → Udp → List ℕ → Opening
unfolding give_up open_even open_odd
udp_transport k u es = elim k.socket1 [
  | none ↦ give_up none u es
  | some d ↦ if not k.bind1 then give_up (some d) u (d ∷ es) else elim k.name1 [
    | none ↦ give_up (some d) u (d ∷ es)
    | some port ↦
        if port % 2 == 0 then open_even k u d port (d ∷ es) else open_odd k u d port (d ∷ es)
  ]
]

-- `rtp_udp_close_transport`
unfoldable pub close_transport : Udp → List ℕ → List ℕ
unfolding close
close_transport u es = close_valid u.rtcp_sd (close_valid u.rtp_sd es)
