-- ===== src/Machine/Packets.antt =====
-- Interleaved packets through the loop of `RTSP_handler` (rtsp_state_machine.c).
use is_rtsp_server.Base.{
  append_assoc, append_nil, ℕ, zero, suc, ◌^◌, ◌<◌, ◌≡◌, refl, sym, ap, ◌∙◌, arith, Bool, true,
  false, List, [], ◌∷◌, ◌++◌, length, All, ltb, ◌==◌, if-cases, Outcome, ok, fail, Failure, ◌>>=◌,
}
use is_rtsp_server.Protocol.{Method, Request}
use is_rtsp_server.Client.{Client, State, begin, interleaved}
use is_rtsp_server.Interleaved.{send_pkt, byte}
use is_rtsp_server.Interleaved.Frames.{handle_interleaved-send_pkt, sent_length, sent_mark}
use is_rtsp_server.Machine.{Library, handle_new, turn, turn_in, handler}

-- A packet: its channel and its bytes.
abbrev pub Packet : Type 0
Packet = ℕ × List ℕ

-- It can be framed: the channel is a byte, and the length is one of 16 bits.
abbrev pub Framed : Packet → Type 0
Framed p = (p.0 < 2 ^ 8) × (length (p.1) < 2 ^ 16)

-- What the sender writes for packets one after the other.
pub stream : List Packet → List ℕ
stream [] = []
stream (p ∷ ps) = send_pkt (p.0) (p.1) ++ stream ps

module _ {T : Type 0} where
  -- The client once it received the packets.
  abbrev pub supplied : Client T → List Packet → List ℕ → Client T
  supplied c ps rest = record c { received = c.received ++ ps; input = rest; status = begin }

module _ {T : Type 0} (lib : Library) (methods : Method → Client T → Request → Outcome (Client T))
    (http : Client T → Outcome (Client T × Bool)) where
  one_packet :
      (c : Client T) (p : Packet) (rest : List ℕ)
      → Framed p
      → c.input ≡ send_pkt (p.0) (p.1) ++ rest
      → handle_new lib c ≡ ok (supplied c (p ∷ []) rest, true)
  unfolding handle_new
  one_packet c p rest v e =
      let m = ap length e ∙ sent_length (p.0) (p.1) rest in
      let b = ap (λ xs. byte xs 0) e ∙ sent_mark (p.0) (p.1) rest in
      if-cases (λ r. r ≡ ok (supplied c (p ∷ []) rest, true)) (ltb (length c.input) 1) _ _
        (λ f. absurd (ground (arith, m, f)))
        (λ f.
          if-cases (λ r. r ≡ ok (supplied c (p ∷ []) rest, true)) (byte c.input 0 == 36) _ _
            (λ g.
              handle_interleaved-send_pkt (record c { status = interleaved }) (p.0) (p.1) rest (v.0)
                (v.1) e)
            (λ g. absurd (ground (arith, b, g))))

  no_input : (c : Client T) → c.input ≡ [] → handle_new lib c ≡ ok (c, false)
  unfolding handle_new
  no_input c e =
      let m = ap length e in
      if-cases (λ r. r ≡ ok (c, false)) (ltb (length c.input) 1) _ _ (λ f. refl)
        (λ f. absurd (ground (arith, m, f)))

  pub turn_at :
      (c : Client T) (s : State)
      → c.status ≡ s
      → turn lib methods http c ≡ turn_in lib methods http s c
  unfolding turn
  turn_at c s e = ap (λ s. turn_in lib methods http s c) e

  began : (c : Client T) → c.status ≡ begin → turn lib methods http c ≡ handle_new lib c
  unfolding turn_in
  began c e = turn_at c begin e

  pub continued :
      (fuel : ℕ) (c d : Client T)
      → turn lib methods http c ≡ ok (d, true)
      → handler lib methods http (suc fuel) c ≡ handler lib methods http fuel d
  unfolding handler
  continued fuel c d e =
      ap
        (λ m. m >>= λ r. elim r.1 [ true ↦ handler lib methods http fuel (r.0) | false ↦ ok (r.0) ])
        e

  pub paused :
      (fuel : ℕ) (c d : Client T)
      → turn lib methods http c ≡ ok (d, false)
      → handler lib methods http (suc fuel) c ≡ ok d
  unfolding handler
  paused fuel c d e =
      ap
        (λ m. m >>= λ r. elim r.1 [ true ↦ handler lib methods http fuel (r.0) | false ↦ ok (r.0) ])
        e

  pub failed :
      (fuel : ℕ) (c : Client T) (f : Failure)
      → turn lib methods http c ≡ fail f
      → handler lib methods http (suc fuel) c ≡ fail f
  unfolding handler
  failed fuel c f e =
      ap
        (λ m. m >>= λ r. elim r.1 [ true ↦ handler lib methods http fuel (r.0) | false ↦ ok (r.0) ])
        e

  nothing : (c : Client T) → c.status ≡ begin → c.input ≡ [] → c ≡ supplied c [] []
  nothing c s e =
      ap (λ x. record c { input = x }) e
      ∙ ap (λ x. record c { input = []; status = x }) s
      ∙ ap (λ x. record c { input = []; status = begin; received = x })
          (sym (append_nil c.received))

  -- Packets that the sender framed one after the other, when they are all of the input of a client
  -- that is in no request, are received by the loop of `RTSP_handler` in their order, each on its
  -- channel and byte for byte; nothing of the input is left and nothing else of the client changes.
  -- More turns than there are packets are enough.
  pub handler-stream :
      (ps : List Packet) (fuel : ℕ) (c : Client T)
      → All Framed ps
      → length ps < fuel
      → c.status ≡ begin
      → c.input ≡ stream ps
      → handler lib methods http fuel c ≡ ok (supplied c ps [])
  unfolding stream
  handler-stream ps zero c v k s e = absurd (omega (arith, k))
  handler-stream [] (suc fuel) c v k s e =
      paused fuel c c (began c s ∙ no_input c e) ∙ ap ok (nothing c s e)
  handler-stream (p ∷ ps) (suc fuel) c v k s e =
      let d = supplied c (p ∷ []) (stream ps) in
      continued fuel c d (began c s ∙ one_packet c p (stream ps) v.0 e)
      ∙ handler-stream ps fuel d v.1 (omega (arith, k)) refl refl
      ∙ ap (λ xs. ok (record c { received = xs; input = []; status = begin }))
          (append_assoc c.received (p ∷ []) ps)
