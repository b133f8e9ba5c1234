-- ===== src/BufferQueue/Free.antt =====
-- A consumer that leaves (`bq_consumer_free` of bufferqueue.c).
use is_rtsp_server.Base.{
  ℕ, zero, ◌+◌, ◌-◌, ◌≤◌, ◌<◌, ◌^◌, suc, Bool, true, false, some, List, [], ◌∷◌, ◌++◌, ◌≡◌, refl,
  arith, leb, ltb, if◌then◌else◌, subst, ap, ap₂, map, ◌∙◌, length, All-map, All-erase, inl, inr,
  ok, ◌>>=◌, Bool-cases,
}
use is_rtsp_server.BufferQueue.{
  Element, Producer, Consumer, find, drain, decrement_seen, consumer_free, move_internal, dec64,
}
use is_rtsp_server.BufferQueue.Order.{Ordered, above, loads}
use is_rtsp_server.BufferQueue.Count.{mark, up_to, count, Counted}
use is_rtsp_server.BufferQueue.Valid.{Tied, engaged, pending, Consumed}
use is_rtsp_server.BufferQueue.Move.{Moved, move_internal_lem, is_cons}
use is_rtsp_server.BufferQueue.Others.{view}
use is_rtsp_server.BufferQueue.World.{
  Inv, Inv-Valid, Moved-Inv, others_view, count_split, length_split,
}

-- The moves that are needed to have nothing left.
abbrev to_do {ℓ} : {A : Type ℓ} → Producer A → Consumer → ℕ
to_do p c = length (pending p c) + (if engaged p c then 0 else 1)

module _ {ℓ} {A : Type ℓ} where
  Consumed-length :
      (b : Bool) (xs ys : List A)
      → Consumed b xs ys
      → length xs + (if b then 0 else 1) ≡ length ys + 1
  Consumed-length true xs ys (x, e) = rw e (omega arith)
  Consumed-length false xs ys e = rw e

  is_cons-true : (k : ℕ) (q : List (Element A)) → q ≡ [] → true ≡ is_cons (loads k q) → ⊥
  unfolding above
  is_cons-true k [] e h = cc
  is_cons-true k (x ∷ q) e h = cc

  length-above : (k : ℕ) (q : List (Element A)) → length (loads k q) ≤ length q
  unfolding above
  length-above k [] = omega arith
  length-above k (e ∷ q) = elim (Bool-cases (leb e.seq_no k)) [
    | inl t ↦ rw t (omega (arith, length-above k q))
    | inr f ↦ rw f (length-map_le q)
  ]
    where
      length-map_le : (q : List (Element A)) → suc (length (map (λ e. e.load) q)) ≤ suc (length q)
      length-map_le [] = omega arith
      length-map_le (x ∷ q) = omega (arith, length-map_le q)

  is_cons-false : (xs : List A) → false ≡ is_cons xs → xs ≡ []
  is_cons-false [] h = refl
  is_cons-false (x ∷ xs) h = cc

module _ {ℓ} {A : Type ℓ} (pre post : List Consumer) where
  record Drained (p : Producer A) (p' : Producer A) (c' : Consumer) : Type ℓ where
    inv : Inv p' (pre ++ c' ∷ post)
    others : map (view p') (pre ++ post) ≡ map (view p) (pre ++ post)
    nothing : pending p' c' ≡ []

  -- The loop ends within its fuel, with nothing left.
  abbrev Ends : ℕ → Producer A → Consumer → Type ℓ
  Ends fuel p c =
      (p' : Producer A) × (c' : Consumer) × (drain fuel p c ≡ ok (p', c')) × Drained p p' c'

  drain_step :
      (fuel : ℕ) (p : Producer A) (c : Consumer) (v : Inv p (pre ++ c ∷ post))
      (w : p.queue_serial + 1 < 2 ^ 64) (found : Bool) (p' : Producer A) (c' : Consumer)
      → to_do p c < suc fuel
      → move_internal p c ≡ ok (p', c', found)
      → Moved (count p.queue_serial (pre ++ post)) p c p' c' found
      → (Inv p' (pre ++ c' ∷ post)
          → p'.queue_serial + 1 < 2 ^ 64
          → to_do p' c' < fuel
          → Ends fuel p' c')
      → Ends (suc fuel) p c
  unfolding drain
  drain_step fuel p c v w false p' c' n r m more = (
    p',
    c',
    rw r,
    record {
      inv = Moved-Inv p pre c post v w p' c' false m;
      others = others_view p pre c post v w p' c' false m;
      nothing = is_cons-false (pending p' c') m.answer;
    },
  )
  drain_step fuel p c v w true p' c' n r m more = elim m.serials [
    | inr (q, s) ↦ absurd (is_cons-true (mark p'.queue_serial c') p'.queue q m.answer)
    | inl s ↦
        let len = Consumed-length (engaged p c) (pending p c) (pending p' c') m.rest in
        let idle : ◌≡◌ {A = ℕ} (if engaged p' c' then 0 else 1) 0 = rw m.at_element in
        let (p'', c'', r', d) =
          more (Moved-Inv p pre c post v w p' c' true m) (omega arith) (omega (arith, len, idle)) in
        (
          p'',
          c'',
          rw r r',
          record {
            inv = d.inv;
            others = d.others ∙ others_view p pre c post v w p' c' true m;
            nothing = d.nothing;
          },
        )
  ]

  drain_lem :
      (fuel : ℕ) (p : Producer A) (c : Consumer)
      → Inv p (pre ++ c ∷ post)
      → p.queue_serial + 1 < 2 ^ 64
      → to_do p c < fuel
      → Ends fuel p c
  drain_lem zero p c v w m = absurd (omega arith)
  drain_lem (suc fuel) p c v w m =
      let (p', c', found, r, k) =
        move_internal_lem (count p.queue_serial (pre ++ post)) p c (Inv-Valid p pre c post v) w in
      drain_step fuel p c v w found p' c' m r k (drain_lem fuel p' c')

-- With nothing left a consumer is past every element, so one less has seen each.
module _ {ℓ} {A : Type ℓ} where
  Counted-leave :
      (f g : ℕ → ℕ) (k n : ℕ) (q : List (Element A))
      → ((s : ℕ) → f s ≡ g s + up_to k s)
      → loads k q ≡ []
      → n < 2 ^ 64
      → 0 < n
      → Counted f n q
      → Counted g (n - 1) (map decrement_seen q)
  unfolding above decrement_seen
  Counted-leave f g k n [] h e w z c = tt
  Counted-leave f g k n (x ∷ q) h e w z c = elim (Bool-cases (leb x.seq_no k)) [
    | inl t ↦
        let e' : loads k q ≡ [] = rw t at e in
        let fx = h x.seq_no in (ground arith, ground arith, Counted-leave f g k n q h e' w z c.2)
    | inr o ↦ let e' : x.load ∷ map (λ y. y.load) q ≡ [] = rw o at e in cc
  ]

  Ordered-leave :
      (s a : ℕ) (q : List (Element A)) (u v : ℕ)
      → Ordered s a q u v
      → Ordered s a (map decrement_seen q) u v
  unfolding decrement_seen
  Ordered-leave s a [] u v o = o
  Ordered-leave s a (x ∷ q) u v o = (o.0, o.1, Ordered-leave x.seq_no x.addr q u v o.2)

  find_leave :
      (a : ℕ) (q : List (Element A)) (e : Element A)
      → find a q ≡ some e
      → find a (map decrement_seen q) ≡ some (decrement_seen e)
  unfolding find decrement_seen
  find_leave a [] e h = cc
  find_leave a (x ∷ q) e h = ground (arith, find_leave a q e)

  loads_leave : (k : ℕ) (q : List (Element A)) → loads k (map decrement_seen q) ≡ loads k q
  unfolding above decrement_seen
  loads_leave k [] = refl
  loads_leave k (x ∷ q) = elim (Bool-cases (leb x.seq_no k)) [
    | inl t ↦ rw t (loads_leave k q)
    | inr o ↦ rw o (ap (◌∷◌ x.load) (map_leave q))
  ]
    where
      map_leave :
          (q : List (Element A)) → map (λ e. e.load) (map decrement_seen q) ≡ map (λ e. e.load) q
      map_leave [] = refl
      map_leave (y ∷ r) = ap (◌∷◌ y.load) (map_leave r)

module _ {ℓ} {A : Type ℓ} (p : Producer A) where
  -- The producer once a consumer with nothing left is gone.
  left : Producer A
  left = record p { queue = map decrement_seen p.queue; consumers = dec64 p.consumers }

  left-Tied : (d : Consumer) → Tied p d → Tied left d
  unfolding left decrement_seen
  left-Tied d t = record {
    behind = t.behind;
    short = t.short;
    held = λ a s h. let (e, f, n) = t.held a s h in (decrement_seen e, find_leave a p.queue e f, n);
  }

  left_views : (cs : List Consumer) → map (view left) cs ≡ map (view p) cs
  unfolding left
  left_views [] = refl
  left_views (d ∷ cs) =
      ap₂ ◌∷◌ (ap (λ l. (l, engaged p d)) (loads_leave (mark p.queue_serial d) p.queue))
        (left_views cs)

  left-Inv :
      (pre : List Consumer) (c : Consumer) (post : List Consumer)
      → Inv p (pre ++ c ∷ post)
      → pending p c ≡ []
      → Inv left (pre ++ post)
  unfolding left
  left-Inv pre c post v e =
      let n = length_split p pre c post in
      record {
        size = omega (arith, v.size, v.room);
        room = omega (arith, v.size, v.room);
        live = v.live;
        ordered = Ordered-leave 0 0 p.queue p.next_serial p.next_addr v.ordered;
        counted =
            subst (λ n. Counted (count p.queue_serial (pre ++ post)) n (map decrement_seen p.queue))
              (omega (arith, v.size, v.room))
              (Counted-leave (count p.queue_serial (pre ++ c ∷ post))
                (count p.queue_serial (pre ++ post)) (mark p.queue_serial c) p.consumers p.queue
                (count_split p pre c post p.queue_serial) e v.room (omega (arith, v.size))
                v.counted);
        tied = All-map (pre ++ post) left-Tied (All-erase (Tied p) pre c post v.tied).1;
      }

module _ {ℓ} {A : Type ℓ} (p : Producer A) where
  freed :
      (c c' : Consumer) (p' : Producer A)
      → 0 < p.consumers
      → drain (length p.queue + 2) p c ≡ ok (p', c')
      → consumer_free p c ≡ ok (left p')
  unfolding consumer_free left
  freed c c' p' h r =
      let some_left : ltb 0 p.consumers ≡ true = ground arith in
      rw some_left (ap (λ m. m >>= λ r. ok (left (r.0))) r)

  -- While the queue serial has room, a consumer can leave: the loop that moves it to the end ends,
  -- no assertion fails, the others see no difference, and the invariant holds without it.
  pub consumer_free_refines :
      (pre : List Consumer) (c : Consumer) (post : List Consumer)
      → Inv p (pre ++ c ∷ post)
      → p.queue_serial + 1 < 2 ^ 64
      → (p' : Producer A) × (consumer_free p c ≡ ok p')
        × Inv p' (pre ++ post)
        × (map (view p') (pre ++ post) ≡ map (view p) (pre ++ post))
  consumer_free_refines pre c post v w =
      let n = length_split p pre c post in
      let len = length-above (mark p.queue_serial c) p.queue in
      let (p', c', r, d) = drain_lem pre post (length p.queue + 2) p c v w (ground (arith, len)) in
      (
        left p',
        freed c c' p' (omega (arith, v.size)) r,
        left-Inv p' pre c' post d.inv d.nothing,
        left_views p' (pre ++ post) ∙ d.others,
      )
