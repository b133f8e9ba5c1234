-- ===== src/Connection/Sessions.antt =====
-- The descriptors of the RTP sessions of a client: the transports that SETUP opens
-- (`rtp_udp_transport` of rtsp_lowlevel.c), and `rtp_session_gslist_free` of rtp.c, which closes them.
use is_rtsp_server.Base.{
  ℕ, ◌≡◌, refl, sym, ap, subst, ◌∙◌, Bool, true, false, Option, none, some, List, [], ◌∷◌, ◌==◌,
  if◌then◌else◌,
}
use is_rtsp_server.Connection.Udp.{
  Kernel, Udp, udp_zero, close, close_valid, Opening, udp_transport, close_transport,
}
use is_rtsp_server.Connection.Ports.{no_first, IsKernel, Ended, udp_transport-Opened}

-- Transports that are opened one after the other, each for a new RTP session.
unfoldable pub open_all : List Kernel → List ℕ → List Udp × List ℕ
open_all [] es = ([], es)
open_all (k ∷ ks) es =
    let o = udp_transport k udp_zero es in
    let r = open_all ks (o.1) in elim o.0 [ none ↦ r | some t ↦ (t.0 ∷ r.0, r.1) ]

-- `rtp_session_gslist_free`, as far as `rtp_session_free` closes the transport.
unfoldable pub session_gslist_free : List Udp → List ℕ → List ℕ
session_gslist_free [] es = es
session_gslist_free (u ∷ us) es = session_gslist_free us (close_transport u es)

close_if :
    (d : ℕ) (b : Bool) (x : ℕ) (ys : List ℕ)
    → close d (if b then ys else x ∷ ys)
      ≡ (if b then close d ys else if x == d then close d ys else x ∷ close d ys)
unfolding close
close_if d true x ys = refl
close_if d false x ys = refl

swapped :
    (a b : Bool) (x : ℕ) (ys zs : List ℕ)
    → ys ≡ zs
    → ◌≡◌ {A = List ℕ}
        (if a then ys else if b then ys else x ∷ ys)
        (if b then zs else if a then zs else x ∷ zs)
swapped true true x ys zs e = e
swapped true false x ys zs e = e
swapped false true x ys zs e = e
swapped false false x ys zs e = ap (λ l. x ∷ l) e

close_comm : (d e : ℕ) (xs : List ℕ) → close d (close e xs) ≡ close e (close d xs)
unfolding close
close_comm d e [] = refl
close_comm d e (x ∷ xs) =
    close_if d (x == e) x (close e xs)
    ∙ swapped (x == e) (x == d) x (close d (close e xs)) (close e (close d xs)) (close_comm d e xs)
    ∙ sym (close_if e (x == d) x (close d xs))

valid_comm :
    (o : Option ℕ) (d : ℕ) (xs : List ℕ) → close_valid o (close d xs) ≡ close d (close_valid o xs)
valid_comm none d xs = refl
valid_comm (some e) d xs = close_comm e d xs

both_comm :
    (o q : Option ℕ) (xs : List ℕ)
    → close_valid o (close_valid q xs) ≡ close_valid q (close_valid o xs)
both_comm o none xs = refl
both_comm o (some d) xs = valid_comm o d xs

transport_comm :
    (u v : Udp) (xs : List ℕ)
    → close_transport u (close_transport v xs) ≡ close_transport v (close_transport u xs)
unfolding close_transport
transport_comm u v xs =
    let a = u.rtcp_sd in
    let b = u.rtp_sd in
    let c = v.rtcp_sd in
    let d = v.rtp_sd in
    ap (close_valid a) (both_comm b c (close_valid d xs))
    ∙ both_comm a c (close_valid b (close_valid d xs))
    ∙ ap (λ l. close_valid c (close_valid a l)) (both_comm b d xs)
    ∙ ap (close_valid c) (both_comm a d (close_valid b xs))

free_comm :
    (us : List Udp) (u : Udp) (xs : List ℕ)
    → session_gslist_free us (close_transport u xs) ≡ close_transport u (session_gslist_free us xs)
unfolding session_gslist_free
free_comm [] u xs = refl
free_comm (v ∷ us) u xs =
    ap (session_gslist_free us) (transport_comm v u xs) ∙ free_comm us u (close_transport v xs)

-- At each call the kernel answers as `IsKernel` says, and the first socket gets a port.
abbrev pub AreKernels : List Kernel → List ℕ → Type 0
AreKernels [] es = Unit
AreKernels (k ∷ ks) es =
    IsKernel k es × (no_first k ≡ false) × AreKernels ks ((udp_transport k udp_zero es).1)

freed :
    (k : Kernel) (ks : List Kernel) (es : List ℕ) (o : Opening)
    → Ended false k es o
    → session_gslist_free ((open_all ks (o.1)).0) ((open_all ks (o.1)).1) ≡ o.1
    → let r = open_all ks (o.1) in
      let s : List Udp × List ℕ = elim o.0 [ none ↦ r | some t ↦ (t.0 ∷ r.0, r.1) ] in
      session_gslist_free (s.0) (s.1) ≡ es
unfolding session_gslist_free
freed k ks es (none, fs) c h = h ∙ c
freed k ks es (some (u, p, q), fs) (c, d, e) h =
    let r = open_all ks fs in free_comm (r.0) u (r.1) ∙ ap (close_transport u) h ∙ c

-- Transports are opened for any number of RTP sessions, of which some may fail at any call of the
-- kernel after the first socket got its port; sockets get descriptors that are not open, and ports of
-- 16 bits. Once all the RTP sessions are freed, exactly the descriptors that were open before are open.
pub session_gslist_free-open_all :
    (ks : List Kernel) (es : List ℕ)
    → AreKernels ks es
    → session_gslist_free ((open_all ks es).0) ((open_all ks es).1) ≡ es
unfolding session_gslist_free open_all
session_gslist_free-open_all [] es v = refl
session_gslist_free-open_all (k ∷ ks) es (v, n, vs) =
    freed k ks es (udp_transport k udp_zero es)
      (subst (λ b. Ended b k es (udp_transport k udp_zero es)) n (udp_transport-Opened k es v))
      (session_gslist_free-open_all ks ((udp_transport k udp_zero es).1) vs)
