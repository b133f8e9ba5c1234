-- ===== src/BufferQueue/Advance.antt =====
-- The first half of `bq_consumer_move_internal` (bufferqueue.c), where `g` counts the others.
use is_rtsp_server.Base.{
  ℕ, ◌+◌, ◌-◌, ◌<◌, ◌^◌, true, false, none, some, List, [], ◌∷◌, ◌≡◌, refl, ◌≢◌, arith, ◌==◌, ◌⊎◌,
  inl, inr, ok, subst, sym, ap, map, ◌∙◌, Bool-cases,
}
use is_rtsp_server.BufferQueue.{
  Element, Producer, Consumer, find, head_addr, next, confirmed, confirm_pointer, object,
  elem_unref, first_above, advance, mark_seen,
}
use is_rtsp_server.BufferQueue.Order.{
  Ordered, find_bounds, above, above_all, above_found, head-le, next-above, first_above-above,
  loads,
}
use is_rtsp_server.BufferQueue.Count.{mark, up_to, Counted}
use is_rtsp_server.BufferQueue.Seen.{same, Marked, mark_seen_lem}
use is_rtsp_server.BufferQueue.Valid.{
  Valid, engaged, pending, base, Consumed-same, Consumed-one, Consumed-none, Ahead,
}

module _ {ℓ} {A : Type ℓ} (g : ℕ → ℕ) (p : Producer A) (c : Consumer) (v : Valid g p c) where
  -- The pointer of an engaged consumer is confirmed.
  pub confirmed_held :
      (a : ℕ) (q : List (Element A))
      → p.queue ≡ q
      → c.queue_serial ≡ p.queue_serial
      → c.pointer ≡ some a
      → confirmed p c ≡ true
  unfolding confirmed
  confirmed_held a [] q s h = ground arith
  confirmed_held a (x ∷ t) q s h =
      let (e, f, n) = v.tied.held a s h in
      let o = subst (λ l. Ordered 0 0 l p.next_serial p.next_addr) q v.ordered in
      let f' = subst (λ l. find a l ≡ some e) q f in
      ground (arith, head-le a 0 0 x t p.next_serial p.next_addr {e = e} o f')

  -- A consumer with no element goes to the first above its base.
  pub advance_idle :
      c.pointer ≡ none
      → (c' : Consumer) × (advance p (confirm_pointer p c) ≡ ok (p, c')) × Ahead g p c p c'
  unfolding advance confirm_pointer
  advance_idle h = elim (Bool-cases (c.queue_serial == p.queue_serial)) [
    | inl e ↦ (
      record c { pointer = first_above c.last_element_serial p.queue },
      ground arith,
      record {
        change = same refl;
        ordered = v.ordered;
        counted =
            subst (λ k. Counted (λ s. g s + up_to k s) p.consumers p.queue) (ground arith)
              v.counted;
        pointer = ground (arith, first_above-above c.last_element_serial p.queue);
        behind = v.tied.behind;
        short = v.tied.short;
        kept = refl;
        serials = inl refl;
        rest =
            Consumed-same (engaged p c) (ground arith) (ap (λ k. loads k p.queue) (ground arith));
      },
    )
    | inr e ↦ (
      record c { pointer = head_addr p.queue },
      ground arith,
      record {
        change = same refl;
        ordered = v.ordered;
        counted =
            subst (λ k. Counted (λ s. g s + up_to k s) p.consumers p.queue) (ground arith)
              v.counted;
        pointer =
            ground
              (arith, above_all 0 0 0 p.queue p.next_serial p.next_addr (omega arith) v.ordered);
        behind = v.tied.behind;
        short = v.tied.short;
        kept = refl;
        serials = inl refl;
        rest =
            Consumed-same (engaged p c) (ground arith) (ap (λ k. loads k p.queue) (ground arith));
      },
    )
  ]

  -- Ahead of a consumer that has dropped an element of an older queue.
  pub Ahead-stale :
      (c' : Consumer)
      → (c.queue_serial == p.queue_serial) ≡ false
      → Ahead g p (record c { pointer = none }) p c'
      → Ahead g p c p c'
  Ahead-stale c' ne h = record {
    change = h.change;
    ordered = h.ordered;
    counted = h.counted;
    pointer = h.pointer;
    behind = h.behind;
    short = h.short;
    kept = h.kept;
    serials = h.serials;
    rest = Consumed-same (engaged p c) (ground arith) (
        ap (λ k. loads k p.queue) (ground arith)
        ∙ Consumed-none (engaged p (record c { pointer = none })) (ground arith) h.rest);
  }

  -- A consumer whose element is of an older queue drops it first.
  pub stale :
      (a : ℕ)
      → c.pointer ≡ some a
      → c.queue_serial ≢ p.queue_serial
      → (confirm_pointer p c ≡ record c { pointer = none })
        × Valid g p (record c { pointer = none })
  unfolding confirm_pointer confirmed
  stale a h ne = (
    ground arith,
    record {
      mono = v.mono;
      pos = v.pos;
      room = v.room;
      ordered = v.ordered;
      counted =
          subst (λ k. Counted (λ s. g s + up_to k s) p.consumers p.queue) (ground arith) v.counted;
      tied = record { behind = v.tied.behind; short = v.tied.short; held = λ b s n. cc };
    },
  )

  elem_unref_held :
      (a : ℕ) (e : Element A)
      → confirmed p c ≡ true
      → c.pointer ≡ some a
      → find a p.queue ≡ some e
      → (confirm_pointer p c ≡ c) × (elem_unref p c ≡ mark_seen p c e)
  unfolding elem_unref object confirm_pointer
  elem_unref_held a e fine h f = (ground arith, ground arith)

  module _ (a : ℕ) (e : Element A) (at : c.queue_serial ≡ p.queue_serial) (h : c.pointer ≡ some a)
      (f : find a p.queue ≡ some e) (n : e.seq_no ≡ c.last_element_serial) where
    held_mark : (mark p.queue_serial c ≡ e.seq_no - 1) × (engaged p c ≡ true)
    held_mark = (ground arith, ground arith)

    advance_unref :
        (p' : Producer A)
        → mark_seen p c e ≡ ok (p', record c { pointer = none })
        → advance p (confirm_pointer p c) ≡ ok (p', record c { pointer = next a p.queue })
    unfolding advance
    advance_unref p' r =
        let u = elem_unref_held a e (confirmed_held a p.queue refl at h) h f in ground (arith, u)

    pending_held :
        (p' : Producer A) → Marked g p e p' → pending p c ≡ e.load ∷ loads e.seq_no p'.queue
    pending_held p' k =
        ap (λ k. loads k p.queue) held_mark.0
        ∙ ap (map (λ x. x.load))
            (above_found a 0 0 p.queue p.next_serial p.next_addr {e = e} v.ordered f)
        ∙ ap (◌∷◌ e.load) (sym k.rest)

    next_held :
        (p' : Producer A) → Marked g p e p' → next a p.queue ≡ head_addr (above e.seq_no p'.queue)
    next_held p' k =
        next-above a 0 0 p.queue p.next_serial p.next_addr {e = e} v.ordered f ∙ sym k.ahead

    held_Ahead :
        (p' : Producer A)
        → Marked g p e p'
        → ((p'.queue_serial ≡ p.queue_serial) × (p'.next_serial ≡ p.next_serial))
          ⊎ ((p'.queue ≡ []) × (p'.queue_serial ≡ p.queue_serial + 1))
        → Ahead g p c p' (record c { pointer = next a p.queue })
    unfolding above head_addr
    held_Ahead p' k (inl (s, u)) =
        let b : e.seq_no ≡ base p' (record c { pointer = next a p.queue }) = ground arith in
        record {
          change = k.change;
          ordered = k.ordered;
          counted = subst (λ k. Counted (λ s. g s + up_to k s) p'.consumers p'.queue) b k.counted;
          pointer = next_held p' k ∙ ap (λ k. head_addr (above k p'.queue)) b;
          behind = omega arith;
          short = λ _. omega (arith, v.tied.short at);
          kept = k.kept;
          serials = inl s;
          rest =
              Consumed-one (engaged p c) e.load held_mark.1
                (pending_held p' k ∙ ap (λ k. e.load ∷ loads k p'.queue) b);
        }
    held_Ahead p' k (inr (q, s)) = record {
      change = k.change;
      ordered = k.ordered;
      counted = rw q tt;
      pointer = next_held p' k ∙ rw q;
      behind = omega arith;
      short = λ again. absurd (omega arith);
      kept = k.kept;
      serials = inr (q, s);
      rest = Consumed-one (engaged p c) e.load held_mark.1 (pending_held p' k ∙ rw q);
    }

  -- An engaged consumer is past its element, and goes to the one behind it.
  pub advance_held :
      (a : ℕ)
      → p.queue_serial + 1 < 2 ^ 64
      → c.queue_serial ≡ p.queue_serial
      → c.pointer ≡ some a
      → (p' : Producer A) × (c' : Consumer) × (advance p (confirm_pointer p c) ≡ ok (p', c'))
        × Ahead g p c p' c'
  advance_held a w at h = go (v.tied.held a at h)
    where
      go :
          (e : Element A) × (find a p.queue ≡ some e) × (e.seq_no ≡ c.last_element_serial)
          → (p' : Producer A) × (c' : Consumer) × (advance p (confirm_pointer p c) ≡ ok (p', c'))
            × Ahead g p c p' c'
      go (e, f, n) =
          let b = find_bounds a 0 0 p.queue p.next_serial p.next_addr {e = e} v.ordered f in
          let m =
            mark_seen_lem g p e v.mono v.pos v.room w v.ordered
              (subst (λ k. Counted (λ s. g s + up_to k s) p.consumers p.queue)
                (held_mark a e at h f n).0 v.counted)
              (subst (λ x. find x p.queue ≡ some e) (sym b.2) f) c in
          (
            m.0,
            record c { pointer = next a p.queue },
            advance_unref a e at h f n m.0 m.1,
            held_Ahead a e at h f n m.0 m.2 m.2.serial,
          )
