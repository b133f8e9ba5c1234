-- ===== src/BufferQueue/Seen.antt =====
-- Marking an element as seen (`bq_consumer_elem_unref`, `bq_producer_destroy_head` of
-- bufferqueue.c): no assertion fails, and only an element that all are past leaves the queue.
use is_rtsp_server.Base.{
  ℕ, ◌+◌, ◌-◌, ◌<◌, ◌^◌, none, some, List, [], ◌∷◌, ◌≡◌, refl, Bool-cases, ltb, arith, ◌⊎◌, inl,
  inr, ok, subst, ap,
}
use is_rtsp_server.BufferQueue.{
  Element, Producer, Consumer, find, head_addr, set_seen, inc64, pop_head, destroy_head, mark_seen,
}
use is_rtsp_server.BufferQueue.Order.{
  Ordered, Ordered-bounds, Ordered-lower, Ordered-set_seen, find_bounds, above, above-set_seen,
  loads, loads-set_seen,
}
use is_rtsp_server.BufferQueue.Count.{
  up_to, Antitone, Counted, find-Counted, Counted-set_seen, Counted-below, find_last_seen,
}

module _ {ℓ} {A : Type ℓ} (g : ℕ → ℕ) where
  -- What an operation of one consumer may do to the producer, where `g` counts the others.
  pub data Change (p p' : Producer A) : Type ℓ where
    same : p' ≡ p → Change p p'
    seen_more : (a k : ℕ) → p' ≡ record p { queue = set_seen a k p.queue } → Change p p'
    popped :
        (h : Element A) (t : List (Element A))
        → p.queue ≡ h ∷ t
        → g h.seq_no + 1 ≡ p.consumers
        → p' ≡ pop_head p t
        → Change p p'

  -- The producer once one more consumer is past the element `e`.
  pub record Marked (p : Producer A) (e : Element A) (p' : Producer A) : Type ℓ where
    pub change : Change p p'
    pub ordered : Ordered 0 0 p'.queue p'.next_serial p'.next_addr
    pub counted : Counted (λ s. g s + up_to e.seq_no s) p'.consumers p'.queue
    pub ahead : head_addr (above e.seq_no p'.queue) ≡ head_addr (above e.seq_no p.queue)
    pub rest : loads e.seq_no p'.queue ≡ loads e.seq_no p.queue
    pub kept : p'.consumers ≡ p.consumers
    pub serial :
        ((p'.queue_serial ≡ p.queue_serial) × (p'.next_serial ≡ p.next_serial))
        ⊎ ((p'.queue ≡ []) × (p'.queue_serial ≡ p.queue_serial + 1))

  module _ (p : Producer A) (e : Element A) (mono : Antitone g) (pos : 0 < p.consumers)
      (room : p.consumers < 2 ^ 64) (serials : p.queue_serial + 1 < 2 ^ 64)
      (ordered : Ordered 0 0 p.queue p.next_serial p.next_addr)
      (counted : Counted (λ s. g s + up_to (e.seq_no - 1) s) p.consumers p.queue)
      (found : find e.addr p.queue ≡ some e) where
    e_seen : (e.seen ≡ g e.seq_no) × (e.seen < p.consumers) × (0 < e.seq_no)
    e_seen = ground (
      arith,
      find-Counted (λ s. g s + up_to (e.seq_no - 1) s) p.consumers e.addr p.queue {e = e} counted
          found,
      find_bounds e.addr 0 0 p.queue p.next_serial p.next_addr {e = e} ordered found,
    )

    Marked-more :
        e.seen + 1 < p.consumers
        → Marked p e (record p { queue = set_seen e.addr (inc64 e.seen) p.queue })
    Marked-more h = record {
      change = seen_more e.addr (inc64 e.seen) refl;
      ordered =
          Ordered-set_seen e.addr (inc64 e.seen) 0 0 p.queue p.next_serial p.next_addr ordered;
      counted =
          Counted-set_seen g p.consumers e.addr 0 0 p.queue p.next_serial p.next_addr {e = e}
            ordered found (omega (arith, e_seen)) room counted;
      ahead = above-set_seen e.addr (inc64 e.seen) e.seq_no p.queue;
      rest = loads-set_seen e.addr (inc64 e.seen) e.seq_no p.queue;
      kept = refl;
      serial = inl (refl, refl);
    }

    -- The element leaves the queue if the others were past it.
    popped_Marked :
        (t : List (Element A))
        → p.queue ≡ e ∷ t
        → e.seen + 1 ≡ p.consumers
        → Marked p e (pop_head p t)
    unfolding above
    popped_Marked [] q h = record {
      change = popped e [] q (omega (arith, e_seen)) refl;
      ordered = omega (arith, Ordered-bounds 0 0 p.queue p.next_serial p.next_addr ordered);
      counted = tt;
      ahead = rw q (ground arith);
      rest = rw q (ground arith);
      kept = refl;
      serial = inr (refl, omega arith);
    }
    popped_Marked (x ∷ t) q h =
        let o = subst (λ l. Ordered 0 0 l p.next_serial p.next_addr) q ordered in
        let c = subst (Counted (λ s. g s + up_to (e.seq_no - 1) s) p.consumers) q counted in
        record {
          change = popped e (x ∷ t) q (omega (arith, e_seen)) refl;
          ordered = Ordered-lower (x ∷ t) p.next_serial p.next_addr (omega arith) (omega arith) o.2;
          counted =
              Counted-below g p.consumers (e.seq_no - 1) e.seq_no e.seq_no e.addr (x ∷ t)
                p.next_serial p.next_addr (omega arith) (omega arith) o.2 c.2;
          ahead = rw q (ground arith);
          rest = rw q (ground arith);
          kept = refl;
          serial = inl (refl, refl);
        }

    -- The head of the queue, when all the others are past `e`.
    head_seen :
        (q : List (Element A))
        → p.queue ≡ q
        → e.seen + 1 ≡ p.consumers
        → (t : List (Element A)) × (p.queue ≡ e ∷ t)
    unfolding find
    head_seen [] q h = cc (subst (λ l. find e.addr l ≡ some e) q found)
    head_seen (x ∷ t) q h =
        let o = subst (λ l. Ordered 0 0 l p.next_serial p.next_addr) q ordered in
        let c = subst (Counted (λ s. g s + up_to (e.seq_no - 1) s) p.consumers) q counted in
        let f = subst (λ l. find e.addr l ≡ some e) q found in
        let top =
          find_last_seen g p.consumers e.addr 0 0 x t p.next_serial p.next_addr {e = e} mono pos o c
            f (omega (arith, e_seen)) in
        (t, rw q (ap (λ y. y ∷ t) top))

    -- Marking the element as seen fails no assertion, and leaves the consumer with no element.
    pub mark_seen_lem :
        (c : Consumer)
        → (p' : Producer A) × (mark_seen p c e ≡ ok (p', record c { pointer = none }))
          × Marked p e p'
    unfolding mark_seen set_seen destroy_head
    mark_seen_lem c = elim (Bool-cases (ltb (inc64 e.seen) p.consumers)) [
      | inl more ↦ (
        record p { queue = set_seen e.addr (inc64 e.seen) p.queue },
        ground (arith, e_seen),
        Marked-more (ground (arith, e_seen)),
      )
      | inr last ↦
          let full : e.seen + 1 ≡ p.consumers = ground (arith, e_seen) in
          let (t, q) = head_seen p.queue refl full in
          (pop_head p t, ground (arith, e_seen), popped_Marked t q full)
    ]
