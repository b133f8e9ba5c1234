-- ===== src/Rtp/Writer.antt =====
-- `rtp_write_cb` (rtp.c) on the queue of bufferqueue.c: what it sends, and what is left to send.
use mathlib.Core.Option
use is_rtsp_server.Base.{
  ℕ, ◌+◌, ◌%◌, ◌^◌, ◌<◌, ◌≡◌, ◌≢◌, ◌⊎◌, inl, inr, refl, sym, ap, subst, ◌∙◌, arith, Bool, true,
  false, Option, none, some, List, [], ◌∷◌, ◌++◌, length, map, ◌==◌, if◌then◌else◌, if-cases,
  match-cases, Outcome, ok, fail, null_pointer, ◌>>=◌,
}
use is_rtsp_server.BufferQueue.{Element, Producer, Consumer, consumer_stopped, get}
use is_rtsp_server.BufferQueue.Move.{is_cons}
use is_rtsp_server.BufferQueue.Others.{View, view}
use is_rtsp_server.BufferQueue.World.{Inv}
use is_rtsp_server.BufferQueue.Refine.{move_view, get_view, move_refines, get_refines}
use is_rtsp_server.BufferQueue.Running.{Gives, Steady, get-Steady, move-Steady}
use is_rtsp_server.Rtcp.{Clock, send_sr, pkt_sr_sdes}
use is_rtsp_server.Rtp.{
  rtptime, Buffer, Times, Stream, packet_of, packet_send, report, set_timer, next_time, with_queue,
  nothing_to_read, move_on, send_buffer, write_cb,
}

module _ {T : Type 0} where
  -- Everything but the queue, the timer and the count of tasks is as a stream has it.
  abbrev Same : Stream T → Stream T → Type 0
  Same s t = (t.sent ≡ s.sent) × (t.reports ≡ s.reports) × (t.source ≡ s.source)

  -- The stream's queue holds for its consumer just what it is sent, among other consumers, and has
  -- room for three more serials.
  pub record World (pre post : List Consumer) (s : Stream T) : Type 0 where
    pub inv : Inv s.producer (pre ++ s.consumer ∷ post)
    pub running : s.producer.stopped ≡ false
    pub room : s.producer.queue_serial + 3 < 2 ^ 64

  -- The stream `t` was left with the rest `xs` to send: the other consumers see no difference.
  pub record Left (pre post : List Consumer) (s t : Stream T) (xs : List (Buffer T)) : Type 0 where
    pub inv : Inv t.producer (pre ++ t.consumer ∷ post)
    pub others : map (view t.producer) (pre ++ post) ≡ map (view s.producer) (pre ++ post)
    pub rest : view t.producer t.consumer ≡ (xs, is_cons xs)
    pub running : t.producer.stopped ≡ false

module _ {T : Type 0} (times : Times T) (clock : Clock) (now : ℕ) where
  -- What a consumer gets of a list that has an item.
  looked :
      (xs : List (Buffer T)) (w : View (Buffer T)) (o : Option (Buffer T))
      → is_cons xs ≡ true
      → (w, o) ≡ get_view (xs, is_cons xs)
      → (w ≡ (xs, is_cons xs)) × (o ≢ none)
  looked [] w o e h = absurd cc
  looked (y ∷ ys) w o e h = (ap (λ r. r.0) h, λ n. let k = sym n ∙ ap (λ r. r.1) h in cc)

  module _ (pre post : List Consumer) where
    -- It succeeded, sent nothing, and left the rest.
    abbrev Leaves : Stream T → List (Buffer T) → Outcome (Stream T) → Type 0
    Leaves s xs (fail f) = ⊥
    Leaves s xs (ok t) = Same s t × Left pre post s t xs

    -- What a look at the next buffer leaves, on a queue that has one.
    look-Leaves :
        (s : Stream T) (p : Producer (Buffer T)) (c : Consumer) (xs : List (Buffer T))
        (next : Element (Buffer T) → T)
        → Inv p (pre ++ c ∷ post)
        → map (view p) (pre ++ post) ≡ map (view s.producer) (pre ++ post)
        → p.stopped ≡ false
        → p.queue_serial + 1 < 2 ^ 64
        → view p c ≡ (xs, is_cons xs)
        → is_cons xs ≡ true
        → Leaves s xs (
            get p c >>= λ q. elim q.2 [
              | none ↦ fail null_pointer
              | some e ↦ ok (set_timer (next e) (with_queue s (q.0) (q.1)))
            ])
    look-Leaves s p c xs next v others run room e cons =
        let (p', c', o, g) = get_refines p pre c post v run room in
        let (seen, is_some) =
          looked xs (view p' c') (Option.map (λ e. e.load) o) cons (g.item ∙ ap get_view e) in
        subst
          (λ m. Leaves s xs (
            m >>= λ q. elim q.2 [
              | none ↦ fail null_pointer
              | some e ↦ ok (set_timer (next e) (with_queue s (q.0) (q.1)))
            ]))
          (sym g.runs)
          (match-cases (Leaves s xs) o _ _ (λ f. absurd (is_some (ap (Option.map (λ e. e.load)) f)))
            (λ x f. (
              (refl, refl, refl),
              record {
                inv = g.called.inv;
                others = g.called.others ∙ others;
                rest = seen;
                running = (subst (Gives (λ r. Steady p (r.0))) g.runs (get-Steady p c)).0 ∙ run;
              },
            )))

    -- A move past the first buffer, and the look at the next one.
    move_on-Leaves :
        (s : Stream T) (b x : Buffer T) (xs : List (Buffer T))
        → Inv s.producer (pre ++ s.consumer ∷ post)
        → s.producer.stopped ≡ false
        → s.producer.queue_serial + 2 < 2 ^ 64
        → view s.producer s.consumer ≡ (x ∷ xs, true)
        → Leaves s xs (move_on times clock now s b)
    unfolding move_on
    move_on-Leaves s b x xs v run room e =
        let (p, c, found, r, m, k) =
          move_refines s.producer pre s.consumer post v run (omega (arith, room)) in
        let n = m ∙ ap move_view e in
        let st : Steady s.producer p =
          subst (Gives (λ r. Steady s.producer (r.0))) r (move-Steady s.producer s.consumer) in
        let follows : view p c ≡ (xs, is_cons xs) = ap (λ q. q.0) n in
        let goes_on : found ≡ is_cons xs = ap (λ q. q.1) n in
        subst (λ o. Leaves s xs (o >>= then_look)) (sym r)
          (if-cases (Leaves s xs) found _ _
            (λ f.
              look-Leaves s p c xs (λ y. next_time times clock now s b y.load) k.inv k.others
                (st.0 ∙ run) (let l = st.1 in omega (arith, l, room)) follows (sym goes_on ∙ f))
            (λ f. (
              (refl, refl, refl),
              record { inv = k.inv; others = k.others; rest = follows; running = st.0 ∙ run },
            )))
      where
        then_look : Producer (Buffer T) × Consumer × Bool → Outcome (Stream T)
        then_look q =
            if q.2
            then (get (q.0) (q.1) >>= λ h. elim h.2 [
              | none ↦ fail null_pointer
              | some next ↦
                  ok
                    (set_timer (next_time times clock now s b next.load) (with_queue s (h.0) (h.1)))
            ])
            else ok (
                set_timer
                  (times.plus s.offset
                    (if times.nonzero b.duration then b.duration else times.tenth))
                  (with_queue s (q.0) (q.1)))

    -- The buffer went out as one packet of a sequence number, and was counted, or the transport
    -- refused this packet.
    abbrev pub Went : Stream T → Buffer T → Stream T → ℕ → Type 0
    Went s x t n =
        ((s.accepts (packet_of times clock now s n x) ≡ true)
          × (t.sent ≡ s.sent ++ packet_of times clock now s n x ∷ [])
          × (t.source.pkt_count ≡ (s.source.pkt_count + 1) % 2 ^ 32)
          × (t.source.octet_count ≡ (s.source.octet_count + length x.bytes) % 2 ^ 32))
        ⊎ ((s.accepts (packet_of times clock now s n x) ≡ false)
            × (t.sent ≡ s.sent)
            × (t.source ≡ s.source))

    -- The call succeeded, the buffer went out, and the rest is left.
    abbrev pub Sends : Stream T → Buffer T → List (Buffer T) → Outcome (Stream T) → Type 0
    Sends s x xs (fail f) = ⊥
    Sends s x xs (ok t) = ((n : ℕ) × Went s x t n) × Left pre post s t xs

    Leaves-Sends :
        (s u : Stream T) (x : Buffer T) (xs : List (Buffer T)) (n : ℕ) (o : Outcome (Stream T))
        → Went s x u n
        → u.producer ≡ s.producer
        → Leaves u xs o
        → Sends s x xs o
    Leaves-Sends s u x xs n (fail f) w e l = l
    Leaves-Sends s u x xs n (ok t) w e l = (
      (n, went w),
      record {
        inv = l.1.inv;
        others = l.1.others ∙ ap (λ p. map (view p) (pre ++ post)) e;
        rest = l.1.rest;
        running = l.1.running;
      },
    )
      where
        went : Went s x u n → Went s x t n
        went (inl (a, b, c, d)) =
            inl (a, l.0.0 ∙ b, ap (λ r. r.pkt_count) l.0.2 ∙ c, ap (λ r. r.octet_count) l.0.2 ∙ d)
        went (inr (a, b, c)) = inr (a, l.0.0 ∙ b, l.0.2 ∙ c)

    -- A source description only adds a report.
    sdes_reported :
        (u : Stream T)
        → (ys : List ℕ) × (report times clock now 202 u
            ≡ ok (record u { reports = u.reports ++ ys ∷ [] }))
    unfolding report send_sr
    sdes_reported u = (pkt_sr_sdes u.source clock, refl)

    reported_Sends :
        (s u : Stream T) (x : Buffer T) (xs : List (Buffer T)) (n : ℕ)
        → Went s x u n
        → u.producer ≡ s.producer
        → Inv u.producer (pre ++ u.consumer ∷ post)
        → u.producer.stopped ≡ false
        → u.producer.queue_serial + 2 < 2 ^ 64
        → view u.producer u.consumer ≡ (x ∷ xs, true)
        → Sends s x xs (
            (if u.source.pkt_count % 29 == 1 then report times clock now 202 u else ok u) >>= λ v.
            move_on times clock now v x)
    reported_Sends s u x xs n w e v run room at =
        let (ys, r) = sdes_reported u in
        if-cases (λ (o : Outcome (Stream T)). Sends s x xs (o >>= λ t. move_on times clock now t x))
          (u.source.pkt_count % 29 == 1) _ _
          (λ f.
            subst
              (λ (o : Outcome (Stream T)). Sends s x xs (o >>= λ t. move_on times clock now t x))
              (sym r)
              (Leaves-Sends s (record u { reports = u.reports ++ ys ∷ [] }) x xs n _ w e
                (move_on-Leaves (record u { reports = u.reports ++ ys ∷ [] }) x x xs v run room
                  at)))
          (λ f. Leaves-Sends s u x xs n _ w e (move_on-Leaves u x x xs v run room at))

    send_buffer-Sends :
        (s : Stream T) (e : Element (Buffer T)) (xs : List (Buffer T))
        → Inv s.producer (pre ++ s.consumer ∷ post)
        → s.producer.stopped ≡ false
        → s.producer.queue_serial + 2 < 2 ^ 64
        → view s.producer s.consumer ≡ (e.load ∷ xs, true)
        → Sends s e.load xs (send_buffer times clock now s e)
    unfolding send_buffer packet_send
    send_buffer-Sends s e xs v run room at =
        let p = packet_of times clock now s e.seq_no e.load in
        if-cases
          (λ (u : Stream T). Sends s e.load xs (
            (if u.source.pkt_count % 29 == 1 then report times clock now 202 u else ok u) >>= λ t.
            move_on times clock now t e.load))
          (s.accepts p) _ _
          (λ f.
            reported_Sends s _ e.load xs e.seq_no (inl (f, refl, refl, refl)) refl v run room at)
          (λ f. reported_Sends s s e.load xs e.seq_no (inr (f, refl, refl)) refl v run room at)

    Sends-carry :
        (s : Stream T) (p : Producer (Buffer T)) (c : Consumer) (x : Buffer T)
        (xs : List (Buffer T)) (o : Outcome (Stream T))
        → map (view p) (pre ++ post) ≡ map (view s.producer) (pre ++ post)
        → Sends (with_queue s p c) x xs o
        → Sends s x xs o
    unfolding rtptime
    Sends-carry s p c x xs (fail f) e h = h
    Sends-carry s p c x xs (ok t) e h = (
      h.0,
      record { inv = h.1.inv; others = h.1.others ∙ e; rest = h.1.rest; running = h.1.running },
    )

    -- If the producer runs, the queue's serials have room and the session has a buffer still to send:
    -- the timer's call neither fails nor uses a null pointer, sends that buffer as one packet and
    -- counts it, unless the transport refuses it, and leaves exactly the buffers after it still to
    -- send; the other consumers see no difference.
    pub write_cb-Sends :
        (s : Stream T) (x : Buffer T) (xs : List (Buffer T)) (b : Bool)
        → World pre post s
        → view s.producer s.consumer ≡ (x ∷ xs, b)
        → Sends s x xs (write_cb times clock now s)
    unfolding write_cb consumer_stopped
    write_cb-Sends s x xs b w e =
        let (p, c, o, g) =
          get_refines s.producer pre s.consumer post w.inv w.running
            (let r = w.room in omega (arith, r)) in
        let item : ◌≡◌ {A = View (Buffer T) × Option (Buffer T)}
            (view p c, Option.map (λ y. y.load) o) ((x ∷ xs, true), some x) =
          g.item ∙ ap get_view e in
        let st : Steady s.producer p =
          subst (Gives (λ r. Steady s.producer (r.0))) g.runs (get-Steady s.producer s.consumer) in
        if-cases (Sends s x xs) s.producer.stopped _ _
          (λ f. absurd (let h = sym f ∙ w.running in cc))
          (λ f.
            subst (λ m. Sends s x xs (m >>= sent)) (sym g.runs)
              (match-cases (Sends s x xs) o _ _
                (λ h.
                  absurd (let k = sym (ap (Option.map (λ y. y.load)) h) ∙ ap (λ q. q.1) item in cc))
                (λ y h.
                  let first : y.load ≡ x =
                    (let k = sym (ap (Option.map (λ y. y.load)) h) ∙ ap (λ q. q.1) item in cc) in
                  subst (λ z. Sends s z xs (send_buffer times clock now (with_queue s p c) y)) first
                    (Sends-carry s p c y.load xs _ g.called.others (
                      send_buffer-Sends (with_queue s p c) y xs g.called.inv (st.0 ∙ w.running)
                        (let r = w.room in let l = st.1 in omega (arith, r, l))
                        (ap (λ q. q.0) item ∙ ap (λ z. (z ∷ xs, true)) (sym first)))))))
      where
        sent : Producer (Buffer T) × Consumer × Option (Element (Buffer T)) → Outcome (Stream T)
        sent r = elim r.2 [
          | none ↦ nothing_to_read times clock now (with_queue s (r.0) (r.1))
          | some y ↦ send_buffer times clock now (with_queue s (r.0) (r.1)) y
        ]
