-- ===== src/Connection/Ports.antt =====
-- What the UDP transports (rtsp_lowlevel.c) leave of the descriptors, and which ports they have.
use is_rtsp_server.Base.{
  ℕ, ◌+◌, ◌-◌, ◌%◌, ◌^◌, ◌<◌, ◌≡◌, ◌≢◌, refl, sym, ap, ◌∙◌, arith, Bool, true, false, not, Option,
  none, some, List, [], ◌∷◌, ◌==◌, if◌then◌else◌, if-cases, match-cases, All, ==_iff,
}
use is_rtsp_server.Connection.Udp.{
  Kernel, Udp, udp_zero, close, close_valid, Opening, give_up, second_port, connect_both, open_even,
  open_odd, udp_transport, close_transport,
}

-- A descriptor that is not open.
abbrev pub IsNew : List ℕ → Option ℕ → Type 0
IsNew es none = Unit
IsNew es (some d) = All (λ x. x ≢ d) es

close_absent : (d : ℕ) (es : List ℕ) → All (λ x. x ≢ d) es → close d es ≡ es
unfolding close
close_absent d [] h = refl
close_absent d (e ∷ es) (h, hs) =
    if-cases (λ l. l ≡ e ∷ es) (e == d) _ _ (λ t. absurd (ground (arith, t, h)))
      (λ t. ap (λ l. e ∷ l) (close_absent d es hs))

close-All : (d : ℕ) (es : List ℕ) → All (λ x. x ≢ d) (close d es)
unfolding close
close-All d [] = tt
close-All d (e ∷ es) =
    if-cases (All (λ x. x ≢ d)) (e == d) _ _ (λ t. close-All d es)
      (λ t. ((λ f. ground (arith, t, f)), close-All d es))

close_twice : (d : ℕ) (es : List ℕ) → close d (close d es) ≡ close d es
close_twice d es = close_absent d (close d es) (close-All d es)

close_head : (d : ℕ) (es : List ℕ) → All (λ x. x ≢ d) es → close d (d ∷ es) ≡ es
unfolding close
close_head d es h =
    if-cases (λ l. l ≡ es) (d == d) _ _ (λ t. close_absent d es h) (λ t. absurd (ground (arith, t)))

close_second : (d e : ℕ) (es : List ℕ) → e ≢ d → All (λ x. x ≢ d) es → close d (e ∷ d ∷ es) ≡ e ∷ es
unfolding close
close_second d e es n h =
    if-cases (λ l. l ≡ e ∷ es) (e == d) _ _ (λ t. absurd (ground (arith, t, n)))
      (λ t. ap (λ l. e ∷ l) (close_head d es h))

-- Both sockets are closed, in either order.
close_both :
    (d e : ℕ) (es : List ℕ)
    → d ≢ e
    → All (λ x. x ≢ d) es
    → All (λ x. x ≢ e) es
    → (close e (close d (e ∷ d ∷ es)) ≡ es) × (close d (close e (e ∷ d ∷ es)) ≡ es)
close_both d e es n h k = (
  ap (close e) (close_second d e es (λ x. n (sym x)) h) ∙ close_head e es k,
  ap (close d) (close_head e (d ∷ es) (n, k)) ∙ close_head d es h,
)

-- The first socket got no port.
abbrev pub no_first : Kernel → Bool
no_first k = elim k.socket1 [
  | none ↦ true
  | some d ↦ if not k.bind1 then true else elim k.name1 [ none ↦ true | some p ↦ false ]
]

-- A transport that is opened can be closed, and then the same descriptors are open as before; its
-- ports are an even one for RTP and the next for RTCP, unless that was taken. If none is opened,
-- `early` is whether the first socket got no port.
abbrev pub Ended : Bool → Kernel → List ℕ → Opening → Type 0
Ended early k es (none, fs) = fs ≡ (if early then close 0 es else es)
Ended early k es (some (u, p, q), fs) =
    (close_transport u fs ≡ es)
    × (k.bind2 ≡ true → (p % 2 ≡ 0) × (q ≡ p + 1))
    × (u.rtp_sd ≢ u.rtcp_sd)

abbrev pub Opened : Kernel → List ℕ → Opening → Type 0
Opened k es o = Ended (no_first k) k es o

-- The same once the first socket has its port.
abbrev Follows : Kernel → List ℕ → Opening → Type 0
Follows k es o = Ended false k es o

different : (d e : ℕ) → d ≢ e → ◌≢◌ {A = Option ℕ} (some d) (some e)
different d e n h = n (cc)

connect_both-Follows :
    (k : Kernel) (es fs : List ℕ) (u : Udp) (p q : ℕ)
    → close_valid u.rtcp_sd (close_valid u.rtp_sd fs) ≡ es
    → (k.bind2 ≡ true → (p % 2 ≡ 0) × (q ≡ p + 1))
    → u.rtp_sd ≢ u.rtcp_sd
    → Follows k es (connect_both k u p q fs)
unfolding connect_both close_transport
connect_both-Follows k es fs u p q c h n =
    if-cases (Follows k es) (not k.connect1) _ _ (λ e. c)
      (λ e. if-cases (Follows k es) (not k.connect2) _ _ (λ f. c) (λ f. (c, h, n)))

second_port-beside : (k : Kernel) (x q : ℕ) → second_port k x ≡ some q → k.bind2 ≡ true → q ≡ x
unfolding second_port
second_port-beside k x q e b =
    if-cases (λ (o : Option ℕ). o ≡ some q → q ≡ x) k.bind2 _ _ (λ t f. cc) (λ t f. absurd cc) e

even_ports :
    (port q : ℕ)
    → (port % 2 == 0) ≡ true
    → port < 2 ^ 16
    → q ≡ (port + 1) % 2 ^ 16
    → (port % 2 ≡ 0) × (q ≡ port + 1)
even_ports port q e h f = let g = (==_iff (port % 2) 0).0 e in (g, omega (arith, g, h, f))

odd_ports :
    (port q : ℕ)
    → (port % 2 == 0) ≡ false
    → port < 2 ^ 16
    → q ≡ (port + 2 ^ 16 - 1) % 2 ^ 16
    → (q % 2 ≡ 0) × (port ≡ q + 1)
odd_ports port q e h f =
    let g : port % 2 ≢ 0 = (λ z. ground (arith, e, z)) in
    (omega (arith, g, h, f), omega (arith, g, h, f))

open_even-Follows :
    (k : Kernel) (es : List ℕ) (d port : ℕ)
    → IsNew es (some d)
    → IsNew (d ∷ es) k.socket2
    → (port % 2 == 0) ≡ true
    → port < 2 ^ 16
    → Follows k es (open_even k udp_zero d port (d ∷ es))
unfolding open_even close_transport
open_even-Follows k es d port new new2 even h = of k.socket2 new2
  where
    of :
        (o : Option ℕ)
        → IsNew (d ∷ es) o
        → let u1 = record udp_zero { rtp_sd = some d; rtcp_sd = o } in
          Follows k es (elim o [
            | none ↦ give_up none u1 (d ∷ es)
            | some e ↦ elim (second_port k ((port + 1) % 2 ^ 16)) [
              | none ↦ give_up none u1 (e ∷ d ∷ es)
              | some q ↦ connect_both k u1 port q (e ∷ d ∷ es)
            ]
          ])
    of none n = close_head d es new
    of (some e) n =
        let c = (close_both d e es (n.0) new (n.1)).0 in
        match-cases (Follows k es) (second_port k ((port + 1) % 2 ^ 16)) _ _ (λ f. c)
          (λ q f.
            connect_both-Follows k es (e ∷ d ∷ es)
              (record udp_zero { rtp_sd = some d; rtcp_sd = some e }) port q c
              (λ b. even_ports port q even h (second_port-beside k ((port + 1) % 2 ^ 16) q f b))
              (different d e (n.0)))

open_odd-Follows :
    (k : Kernel) (es : List ℕ) (d port : ℕ)
    → IsNew es (some d)
    → IsNew (d ∷ es) k.socket2
    → (port % 2 == 0) ≡ false
    → port < 2 ^ 16
    → Follows k es (open_odd k udp_zero d port (d ∷ es))
unfolding open_odd close_transport
open_odd-Follows k es d port new new2 odd h = of k.socket2 new2
  where
    of :
        (o : Option ℕ)
        → IsNew (d ∷ es) o
        → let u1 = record udp_zero { rtcp_sd = some d; rtp_sd = o } in
          Follows k es (elim o [
            | none ↦ give_up none u1 (d ∷ es)
            | some e ↦ elim (second_port k ((port + 2 ^ 16 - 1) % 2 ^ 16)) [
              | none ↦ give_up none u1 (e ∷ d ∷ es)
              | some q ↦ connect_both k u1 q port (e ∷ d ∷ es)
            ]
          ])
    of none n = close_head d es new
    of (some e) n =
        let c = (close_both d e es (n.0) new (n.1)).1 in
        match-cases (Follows k es) (second_port k ((port + 2 ^ 16 - 1) % 2 ^ 16)) _ _ (λ f. c)
          (λ q f.
            connect_both-Follows k es (e ∷ d ∷ es)
              (record udp_zero { rtcp_sd = some d; rtp_sd = some e }) q port c
              (λ b.
                odd_ports port q odd h (second_port-beside k ((port + 2 ^ 16 - 1) % 2 ^ 16) q f b))
              (different e d (λ x. n.0 (sym x))))

-- What the kernel may answer: a descriptor that is not open, and a port of 16 bits.
pub record IsKernel (k : Kernel) (es : List ℕ) : Type 0 where
  pub new1 : IsNew es k.socket1
  pub new2 : (d : ℕ) → k.socket1 ≡ some d → IsNew (d ∷ es) k.socket2
  pub port1 : (p : ℕ) → k.name1 ≡ some p → p < 2 ^ 16

-- Whatever fails while the transport of a new RTP session is opened, if sockets get descriptors that
-- are not open, and ports of 16 bits. If it is opened, its two descriptors differ, to close it leaves
-- just the descriptors that were open before, and unless the port beside the first one was taken, the
-- RTP port is even and the RTCP port is the next. If not, the descriptors that were open before are
-- open after, but for descriptor 0 if the first socket got no port: that is closed.
pub udp_transport-Opened :
    (k : Kernel) (es : List ℕ) → IsKernel k es → Opened k es (udp_transport k udp_zero es)
unfolding udp_transport close_transport
udp_transport-Opened k es v = first k.socket1 v.new1 (λ d e. v.new2 d e)
  where
    rest :
        (d : ℕ)
        → IsNew es (some d)
        → IsNew (d ∷ es) k.socket2
        → (b : Bool) (n : Option ℕ) → ((p : ℕ) → n ≡ some p → p < 2 ^ 16)
        → Ended (if not b then true else elim n [ none ↦ true | some p ↦ false ]) k es (
            if not b then give_up (some d) udp_zero (d ∷ es) else elim n [
              | none ↦ give_up (some d) udp_zero (d ∷ es)
              | some port ↦
                  if port % 2 == 0
                  then open_even k udp_zero d port (d ∷ es)
                  else open_odd k udp_zero d port (d ∷ es)
            ])
    rest d new new2 false n h =
        ap (λ l. close 0 (close 0 l)) (close_head d es new) ∙ close_twice 0 es
    rest d new new2 true none h =
        ap (λ l. close 0 (close 0 l)) (close_head d es new) ∙ close_twice 0 es
    rest d new new2 true (some port) h =
        if-cases (Follows k es) (port % 2 == 0) _ _
          (λ e. open_even-Follows k es d port new new2 e (h port refl))
          (λ e. open_odd-Follows k es d port new new2 e (h port refl))

    first :
        (s : Option ℕ)
        → IsNew es s
        → ((d : ℕ) → s ≡ some d → IsNew (d ∷ es) k.socket2)
        → Ended
            (elim s [
              | none ↦ true
              | some d ↦ if not k.bind1 then true else elim k.name1 [ none ↦ true | some p ↦ false ]
            ])
            k
            es
            (elim s [
              | none ↦ give_up none udp_zero es
              | some d ↦ if not k.bind1 then give_up (some d) udp_zero (d ∷ es) else elim k.name1 [
                | none ↦ give_up (some d) udp_zero (d ∷ es)
                | some port ↦
                    if port % 2 == 0
                    then open_even k udp_zero d port (d ∷ es)
                    else open_odd k udp_zero d port (d ∷ es)
              ]
            ])
    first none new new2 = close_twice 0 es
    first (some d) new new2 = rest d new (new2 d refl) k.bind1 k.name1 v.port1
