-- ===== src/Rtp/Finishing.antt =====
-- `rtp_write_cb` (rtp.c) when nothing is left to send.
use mathlib.Core.Option
use is_rtsp_server.Base.{
  ℕ, ◌≡◌, ◌⊎◌, inl, inr, refl, sym, ap, subst, ◌∙◌, arith, Bool, true, false, Option, none, some,
  List, [], ◌∷◌, ◌++◌, if-cases, match-cases, Outcome, ok, fail, ◌>>=◌,
}
use is_rtsp_server.BufferQueue.{Element, Producer, Consumer, consumer_stopped}
use is_rtsp_server.BufferQueue.Others.{View, view}
use is_rtsp_server.BufferQueue.Refine.{get_view, get_refines}
use is_rtsp_server.Rtcp.{Clock, pkt_sr_bye, send_sr}
use is_rtsp_server.Rtp.{
  Buffer, Times, Stream, report, with_queue, nothing_to_read, send_buffer, write_cb,
}
use is_rtsp_server.Rtp.Writer.{World}

module _ {T : Type 0} (times : Times T) (clock : Clock) (now : ℕ) (pre post : List Consumer) where
  -- One goodbye was sent, no packet, and the timer is not set again.
  abbrev pub Finishes : Stream T → Outcome (Stream T) → Type 0
  Finishes s (fail f) = ⊥
  Finishes s (ok t) =
      (t.reports ≡ s.reports ++ pkt_sr_bye s.source clock ∷ [])
      × (t.sent ≡ s.sent)
      × (t.due ≡ s.due)
      × (t.fills ≡ s.fills)

  goodbye-Finishes : (s : Stream T) → Finishes s (report times clock now 203 s)
  unfolding report send_sr
  goodbye-Finishes s = (refl, refl, refl, refl)

  ended-Finishes : (s : Stream T) → s.eor ≡ true → Finishes s (nothing_to_read times clock now s)
  unfolding nothing_to_read
  ended-Finishes s h =
      if-cases (Finishes s) s.eor _ _ (λ e. goodbye-Finishes s)
        (λ e. absurd (let f = sym e ∙ h in cc))

  with_queue-Finishes :
      (s : Stream T) (p : Producer (Buffer T)) (c : Consumer) (o : Outcome (Stream T))
      → Finishes (with_queue s p c) o
      → Finishes s o
  with_queue-Finishes s p c (fail f) h = h
  with_queue-Finishes s p c (ok t) h = h

  -- If the producer is stopped, or if it runs, the resource has ended and the session has no buffer
  -- still to send: the timer's call sends one goodbye report and no packet, and does not set the
  -- timer again.
  pub write_cb-Finishes :
      (s : Stream T) (b : Bool)
      → (s.producer.stopped ≡ true)
        ⊎ (World pre post s × (view s.producer s.consumer ≡ ([], b)) × (s.eor ≡ true))
      → Finishes s (write_cb times clock now s)
  unfolding write_cb consumer_stopped
  write_cb-Finishes s b (inl h) =
      if-cases (Finishes s) s.producer.stopped _ _ (λ f. goodbye-Finishes s)
        (λ f. absurd (let g = sym f ∙ h in cc))
  write_cb-Finishes s b (inr (w, e, eor)) =
      let (p, c, o, g) =
        get_refines s.producer pre s.consumer post w.inv w.running
          (let r = w.room in omega (arith, r)) in
      let item : ◌≡◌ {A = View (Buffer T) × Option (Buffer T)}
          (view p c, Option.map (λ y. y.load) o) (([], false), none) =
        g.item ∙ ap get_view e in
      if-cases (Finishes s) s.producer.stopped _ _ (λ f. absurd (let h = sym f ∙ w.running in cc))
        (λ f.
          subst (λ m. Finishes s (m >>= taken)) (sym g.runs)
            (match-cases (Finishes s) o _ _
              (λ h. with_queue-Finishes s p c _ (ended-Finishes (with_queue s p c) eor))
              (λ y h.
                absurd (let k = sym (ap (Option.map (λ y. y.load)) h) ∙ ap (λ q. q.1) item in cc))))
    where
      taken : Producer (Buffer T) × Consumer × Option (Element (Buffer T)) → Outcome (Stream T)
      taken r = elim r.2 [
        | none ↦ nothing_to_read times clock now (with_queue s (r.0) (r.1))
        | some y ↦ send_buffer times clock now (with_queue s (r.0) (r.1)) y
      ]
