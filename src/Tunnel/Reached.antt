-- ===== src/Tunnel/Reached.antt =====
-- What becomes of HTTP connections (http_tunnelling.c, `client_loop` of rtsp_client.c) in the program,
-- which calls `http_tunnel_initialise` nowhere.
use is_rtsp_server.Base.{
  ℕ, ◌≡◌, refl, sym, subst, Option, none, some, List, [], match-cases, Outcome, ok,
}
use is_rtsp_server.Protocol.{Method, Request}
use is_rtsp_server.Client.{Client}
use is_rtsp_server.Machine.{Library}
use is_rtsp_server.Tunnel.{Pair, World, put_client, untie, post, free_client, leave}
use is_rtsp_server.Tunnel.Handled.{Tunnelling, world_handler, tcp_read_cb}
use is_rtsp_server.Tunnel.Sealed.{
  Sealed, SealedBy, untie-Sealed, Refused, post-Refused, read-Sealed,
}

module _ {T : Type 0} where
  abbrev pub no_clients : World T
  no_clients = record {
    clients = λ a. none;
    pairs = λ q. none;
    table = none;
    pair_of = λ a. none;
    ended = [];
  }

  -- A client connects, bytes arrive for one or its connection ends, or the loop of one has ended.
  pub data Step (lib : Library) (tun : Tunnelling)
      (methods : Method → Client T → Request → Outcome (Client T))
      : World T → World T → Type 0 where
    connected :
        {w : World T} (a : ℕ) (c : Client T)
        → Step lib tun methods w (put_client lib.date a c (untie lib.date a w))
    arrived :
        {w w' : World T} (fuel a : ℕ) (bytes : Option (List ℕ))
        → tcp_read_cb lib tun (world_handler lib tun methods fuel) w a bytes ≡ ok w'
        → Step lib tun methods w w'
    left : {w w' : World T} (a : ℕ) → leave w a ≡ ok w' → Step lib tun methods w w'

  pub data Reach (lib : Library) (tun : Tunnelling)
      (methods : Method → Client T → Request → Outcome (Client T)) : World T → Type 0 where
    start : Reach lib tun methods no_clients
    later :
        {w w' : World T}
        → Reach lib tun methods w
        → Step lib tun methods w w'
        → Reach lib tun methods w'

  free-Sealed : (w : World T) (a : ℕ) → Sealed w → SealedBy (free_client a w)
  unfolding free_client
  free-Sealed w a s = match-cases SealedBy (w.clients a) _ _ (λ e. tt) (λ c e. s)

  -- A client with a pair is not freed.
  stays : (w : World T) (a q : ℕ) → Sealed w → w.pair_of a ≡ some q → leave w a ≡ ok w
  unfolding leave
  stays w a q s e = of (s.1 a q e)
    where
      of : ((p : Pair) × (w.pairs q ≡ some p)) → leave w a ≡ ok w
      of (p, f) = let n = s.2 q p f in rw (leave, e, f, n) refl

  unpaired : (w : World T) (a : ℕ) → w.pair_of a ≡ none → leave w a ≡ free_client a w
  unfolding leave
  unpaired w a e = rw (leave, e) refl

  leave-Sealed : (w : World T) (a : ℕ) → Sealed w → SealedBy (leave w a)
  leave-Sealed w a s = of (w.pair_of a) refl
    where
      of : (o : Option ℕ) → w.pair_of a ≡ o → SealedBy (leave w a)
      of none e = subst SealedBy (sym (unpaired w a e)) (free-Sealed w a s)
      of (some q) e = subst SealedBy (sym (stays w a q s e)) s

  module _ (lib : Library) (tun : Tunnelling)
      (methods : Method → Client T → Request → Outcome (Client T)) where
    Reach-Sealed : (w : World T) → Reach lib tun methods w → Sealed w
    Reach-Sealed _ start = (refl, (λ a q e. absurd cc), λ q p e. absurd cc)
    Reach-Sealed _ (later {w} r (connected a c)) = untie-Sealed lib.date a w (Reach-Sealed w r)
    Reach-Sealed _ (later {w} r (arrived fuel a bytes e)) =
        subst SealedBy e (read-Sealed lib tun methods fuel w a bytes (Reach-Sealed w r))
    Reach-Sealed _ (later {w} r (left a e)) = subst SealedBy e (leave-Sealed w a (Reach-Sealed w r))

    -- Whatever clients connected, sent and left since the start, in whatever order, and whatever the
    -- parsers, the decoder and the methods do: every POST, with any cookie, is answered as a bad
    -- request, and nothing else happens but that its client has no pair. So no two clients are joined.
    pub Reach-Refused :
        (w : World T) (a : ℕ) (c : Client T) (req : Request)
        → Reach lib tun methods w
        → (fuel : ℕ)
        → Refused lib.date w a c req (post lib.date (world_handler lib tun methods fuel) w a c req)
    Reach-Refused w a c req r fuel =
        post-Refused lib.date (world_handler lib tun methods fuel) w a c req ((Reach-Sealed w r).0)

    -- Whatever clients connected, sent and left since the start, in whatever order, and whatever the
    -- parsers, the decoder and the methods do: the end of `client_loop` frees no client that has
    -- opened a pair by a GET, and changes nothing.
    pub Reach-Stays :
        (w : World T) (a q : ℕ) → Reach lib tun methods w → w.pair_of a ≡ some q → leave w a ≡ ok w
    Reach-Stays w a q r e = stays w a q (Reach-Sealed w r) e
