-- ===== src/BufferQueue/Move.antt =====
-- Moving one consumer (`bq_consumer_move_internal` of bufferqueue.c), where `g` counts the others.
use is_rtsp_server.Base.{
  ℕ, ◌+◌, ◌-◌, ◌<◌, ◌^◌, Bool, true, false, none, some, List, [], ◌∷◌, ◌≡◌, refl, arith, ◌==◌, ◌⊎◌,
  inl, inr, ok, ◌>>=◌, subst, sym, ap, map, ◌∙◌, Bool-cases, Option-cases,
}
use is_rtsp_server.BufferQueue.{
  Element, Producer, Consumer, find, head_addr, confirm_pointer, advance, settle, move_internal,
}
use is_rtsp_server.BufferQueue.Order.{find_bounds, above, find-above, above_up, loads}
use is_rtsp_server.BufferQueue.Count.{mark, up_to, Counted, Counted-above}
use is_rtsp_server.BufferQueue.Seen.{Change}
use is_rtsp_server.BufferQueue.Advance.{advance_idle, Ahead-stale, stale, advance_held}
use is_rtsp_server.BufferQueue.Valid.{Valid, engaged, pending, base, Consumed, Ahead}

module _ {ℓ} {A : Type ℓ} (g : ℕ → ℕ) (p : Producer A) (c : Consumer) where
  -- Whatever the consumer's pointer, the first half of a move succeeds.
  pub advance_lem :
      Valid g p c
      → p.queue_serial + 1 < 2 ^ 64
      → (p' : Producer A) × (c' : Consumer) × (advance p (confirm_pointer p c) ≡ ok (p', c'))
        × Ahead g p c p' c'
  unfolding confirm_pointer
  advance_lem v w = elim (Option-cases c.pointer) [
    | inl h ↦ let r = advance_idle g p c v h in (p, r.0, r.1, r.2)
    | inr (a, h) ↦ elim (Bool-cases (c.queue_serial == p.queue_serial)) [
      | inl same_serial ↦ advance_held g p c v a w (ground arith) h
      | inr other ↦
          let st = stale g p c v a h (ground arith) in
          let r = advance_idle g p (record c { pointer = none }) st.1 refl in
          (p, r.0, ap (advance p) st.0 ∙ r.1, Ahead-stale g p c v r.0 other r.2)
    ]
  ]

-- The answer of a move is whether anything is left.
abbrev pub is_cons {ℓ} : {A : Type ℓ} → List A → Bool
is_cons [] = false
is_cons (x ∷ xs) = true

module _ {ℓ} {A : Type ℓ} (g : ℕ → ℕ) (p : Producer A) (c : Consumer) where
  -- What a whole move leaves.
  pub record Moved (p' : Producer A) (c' : Consumer) (found : Bool) : Type ℓ where
    pub valid : Valid g p' c'
    pub change : Change g p p'
    pub kept : p'.consumers ≡ p.consumers
    pub serials :
        (p'.queue_serial ≡ p.queue_serial)
        ⊎ ((p'.queue ≡ []) × (p'.queue_serial ≡ p.queue_serial + 1))
    pub rest : Consumed (engaged p c) (pending p c) (pending p' c')
    pub at_element : engaged p' c' ≡ found
    pub answer : found ≡ is_cons (pending p' c')

  module _ (v : Valid g p c) (p' : Producer A) (c' : Consumer) (h : Ahead g p c p' c') where
    settle_lem :
        (l : List (Element A))
        → above (base p' c') p'.queue ≡ l
        → (c'' : Consumer) × (b : Bool) × (settle p' c' ≡ ok (p', c'', b)) × Moved p' c'' b
    unfolding settle head_addr
    settle_lem [] e =
        let ptr : c'.pointer ≡ none = h.pointer ∙ ap head_addr e in
        let k : base p' c' ≡ mark p'.queue_serial c' = ground arith in
        (
          c',
          false,
          ground arith,
          record {
            valid = record {
              mono = v.mono;
              pos = omega (arith, v.pos, h.kept);
              room = omega (arith, v.room, h.kept);
              ordered = h.ordered;
              counted =
                  subst (λ k. Counted (λ s. g s + up_to k s) p'.consumers p'.queue) k h.counted;
              tied = record { behind = h.behind; short = h.short; held = λ a s n. cc };
            };
            change = h.change;
            kept = h.kept;
            serials = h.serials;
            rest = subst (λ k. Consumed (engaged p c) (pending p c) (loads k p'.queue)) k h.rest;
            at_element = ground arith;
            answer = subst (λ k. false ≡ is_cons (loads k p'.queue)) k (rw e);
          },
        )
    settle_lem (x ∷ l) e =
        let ptr : c'.pointer ≡ some x.addr = h.pointer ∙ ap head_addr e in
        let f = find-above (base p' c') 0 0 p'.queue p'.next_serial p'.next_addr h.ordered e in
        let c'' : Consumer = record c' {
          last_element_serial = x.seq_no;
          queue_serial = p'.queue_serial;
        } in
        let k : x.seq_no - 1 ≡ mark p'.queue_serial c'' = ground arith in
        let up =
          above_up (base p' c') (x.seq_no - 1) 0 0 p'.queue p'.next_serial p'.next_addr h.ordered e
            (omega arith) (omega arith) in
        (
          c'',
          true,
          ground arith,
          record {
            valid = record {
              mono = v.mono;
              pos = omega (arith, v.pos, h.kept);
              room = omega (arith, v.room, h.kept);
              ordered = h.ordered;
              counted =
                  subst (λ k. Counted (λ s. g s + up_to k s) p'.consumers p'.queue) k
                    (Counted-above g p'.consumers (base p' c') 0 0 p'.queue p'.next_serial
                      p'.next_addr x l h.ordered e h.counted);
              tied = record {
                behind = omega arith;
                short = λ s.
                    (find_bounds x.addr 0 0 p'.queue p'.next_serial p'.next_addr h.ordered f.0).3;
                held = λ a s n. (x, subst (λ b. find b p'.queue ≡ some x) (cc) f.0, refl);
              };
            };
            change = h.change;
            kept = h.kept;
            serials = h.serials;
            rest =
                subst (λ k. Consumed (engaged p c) (pending p c) (loads k p'.queue)) k
                  (subst (Consumed (engaged p c) (pending p c))
                    (ap (map (λ x. x.load)) (e ∙ sym up)) h.rest);
            at_element = ground arith;
            answer = subst (λ k. true ≡ is_cons (loads k p'.queue)) k (rw up);
          },
        )

  -- A move of a valid consumer succeeds.
  pub move_internal_lem :
      Valid g p c
      → p.queue_serial + 1 < 2 ^ 64
      → (p' : Producer A) × (c' : Consumer) × (found : Bool) × (move_internal p c
          ≡ ok (p', c', found))
        × Moved p' c' found
  unfolding move_internal
  move_internal_lem v w =
      let (p', c', r, h) = advance_lem g p c v w in
      let (c'', b, s, m) = settle_lem v p' c' h (above (base p' c') p'.queue) refl in
      (p', c'', b, ap (λ m. m >>= λ q. settle q.0 q.1) r ∙ s, m)
