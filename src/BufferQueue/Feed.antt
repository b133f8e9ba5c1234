-- ===== src/BufferQueue/Feed.antt =====
-- The producer's own calls and the registration of a consumer (bufferqueue.c).
use is_rtsp_server.Base.{
  ℕ, ◌+◌, ◌-◌, ◌<◌, ◌%◌, ◌^◌, max, true, false, none, some, List, [], ◌∷◌, ◌++◌, ◌≡◌, refl, arith,
  leb, ltb, ◌==◌, Bool-cases, sym, ap, map, ◌∙◌, All, All-map, inl, inr, ok, ap₂,
}
use is_rtsp_server.BufferQueue.{
  Element, Producer, Consumer, find, put, reset_queue, reset_queue_internal, consumer_new,
}
use is_rtsp_server.BufferQueue.Order.{
  Ordered, Ordered-bounds, Ordered-push, above, above_all, loads,
}
use is_rtsp_server.BufferQueue.Count.{mark, count, Counted}
use is_rtsp_server.BufferQueue.Valid.{Tied, engaged}
use is_rtsp_server.BufferQueue.Others.{View, view}
use is_rtsp_server.BufferQueue.World.{Inv}

-- What a consumer sees of a new buffer, and of a reset.
abbrev pub put_view {ℓ} : {A : Type ℓ} → A → View A → View A
put_view x (xs, b) = (xs ++ x ∷ [], b)

module _ {ℓ} {A : Type ℓ} where
  above-push :
      (k : ℕ) (q : List (Element A)) (e : Element A)
      → k < e.seq_no
      → above k (q ++ e ∷ []) ≡ above k q ++ e ∷ []
  unfolding above
  above-push k [] e h = ground arith
  above-push k (x ∷ q) e h = elim (Bool-cases (leb x.seq_no k)) [
    | inl t ↦ rw t (above-push k q e h)
    | inr f ↦ rw f
  ]

  map-push :
      (q : List (Element A)) (e : Element A)
      → map (λ e. e.load) (q ++ e ∷ []) ≡ map (λ e. e.load) q ++ e.load ∷ []
  map-push [] e = refl
  map-push (x ∷ q) e = ap (◌∷◌ x.load) (map-push q e)

  loads-push :
      (k : ℕ) (q : List (Element A)) (e : Element A)
      → k < e.seq_no
      → loads k (q ++ e ∷ []) ≡ loads k q ++ e.load ∷ []
  loads-push k q e h = ap (map (λ e. e.load)) (above-push k q e h) ∙ map-push (above k q) e

  find-push :
      (a : ℕ) (q r : List (Element A)) (e : Element A)
      → find a q ≡ some e
      → find a (q ++ r) ≡ some e
  unfolding find
  find-push a [] r e h = cc
  find-push a (x ∷ q) r e h = ground (arith, find-push a q r e)

  Counted-push :
      (f : ℕ → ℕ) (n : ℕ) (q : List (Element A)) (e : Element A)
      → Counted f n q
      → e.seen ≡ f e.seq_no
      → e.seen < max 1 n
      → Counted f n (q ++ e ∷ [])
  Counted-push f n [] e c h k = (h, k, tt)
  Counted-push f n (x ∷ q) e c h k = (c.0, c.1, Counted-push f n q e c.2 h k)

  -- Nobody is past a serial that was not handed out.
  mark-lt :
      (p : Producer A) (d : Consumer)
      → 0 < p.next_serial
      → Tied p d
      → mark p.queue_serial d < p.next_serial
  mark-lt p d z t = ground (arith, t.short)

  count_fresh :
      (p : Producer A) (cs : List Consumer)
      → 0 < p.next_serial
      → All (Tied p) cs
      → count p.queue_serial cs p.next_serial ≡ 0
  count_fresh p [] z t = refl
  count_fresh p (d ∷ cs) z t = ground (arith, mark-lt p d z t.0, count_fresh p cs z t.1)

module _ {ℓ} {A : Type ℓ} (p : Producer A) (x : A) where
  -- The buffer that `put` appends, and the producer with it.
  fresh : Element A
  fresh = record { addr = p.next_addr; seen = 0; seq_no = p.next_serial; load = x }

  fed : Producer A
  unfolding fresh
  fed = record p {
    queue = p.queue ++ fresh ∷ [];
    next_serial = p.next_serial + 1;
    next_addr = p.next_addr + 1;
  }

  put_running : p.stopped ≡ false → p.next_serial + 1 < 2 ^ 16 → put p 0 x ≡ ok fed
  unfolding put fed
  put_running h w =
      let wraps : (p.next_serial + 1) % 2 ^ 16 ≡ p.next_serial + 1 = omega arith in
      let nonzero : (p.next_serial + 1 == 0) ≡ false = ground arith in rw (h, wraps, nonzero)

  fed-Tied : Ordered 0 0 p.queue p.next_serial p.next_addr → (d : Consumer) → Tied p d → Tied fed d
  unfolding fed
  fed-Tied o d t = record {
    behind = t.behind;
    short = λ s. omega (arith, t.short s);
    held = λ a s h. let (e, f, n) = t.held a s h in (e, find-push a p.queue (fresh ∷ []) e f, n);
  }

  fed-view : (d : Consumer) → 0 < p.next_serial → Tied p d → view fed d ≡ put_view x (view p d)
  unfolding fed fresh
  fed-view d z t =
      ap (λ l. (l, engaged p d))
        (loads-push (mark p.queue_serial d) p.queue fresh (mark-lt p d z t))

  fed_views :
      (cs : List Consumer)
      → 0 < p.next_serial
      → All (Tied p) cs
      → map (view fed) cs ≡ map (λ d. put_view x (view p d)) cs
  fed_views [] z t = refl
  fed_views (d ∷ cs) z t = ap₂ ◌∷◌ (fed-view d z t.0) (fed_views cs z t.1)

  -- While the producer runs and its serials last, putting a buffer without a number of its own
  -- succeeds, appends it to what every consumer has still to be past, and keeps the invariant.
  pub put_refines :
      (cs : List Consumer)
      → Inv p cs
      → p.stopped ≡ false
      → p.next_serial + 1 < 2 ^ 16
      → (p' : Producer A) × (put p 0 x ≡ ok p')
        × Inv p' cs
        × (map (view p') cs ≡ map (λ d. put_view x (view p d)) cs)
        × (p'.next_serial ≡ p.next_serial + 1)
  unfolding fed fresh
  put_refines cs v run w =
      let z = Ordered-bounds 0 0 p.queue p.next_serial p.next_addr v.ordered in
      (
        fed,
        put_running run w,
        record {
          size = v.size;
          room = v.room;
          live = v.live;
          ordered = Ordered-push 0 0 p.queue fresh v.ordered (omega arith) (omega arith);
          counted =
              Counted-push (count p.queue_serial cs) p.consumers p.queue fresh v.counted
                (sym (count_fresh p cs z.0 v.tied)) (omega arith);
          tied = All-map cs (fed-Tied v.ordered) v.tied;
        },
        fed_views cs z.0 v.tied,
        refl,
      )

module _ {ℓ} {A : Type ℓ} (p : Producer A) where
  -- Once the queue is replaced no consumer is past anything, or at anything.
  reset_Tied :
      p.queue_serial + 1 < 2 ^ 64 → (d : Consumer) → Tied p d → Tied (reset_queue_internal p) d
  unfolding reset_queue_internal
  reset_Tied w d t = record {
    behind = omega (arith, t.behind);
    short = λ s. absurd (omega (arith, t.behind));
    held = λ a s. absurd (omega (arith, t.behind));
  }

  reset_views :
      (cs : List Consumer)
      → p.queue_serial + 1 < 2 ^ 64
      → All (Tied p) cs
      → map (view (reset_queue_internal p)) cs ≡ map (λ d. ([], false)) cs
  unfolding reset_queue_internal above
  reset_views [] w t = refl
  reset_views (d ∷ cs) w t =
      ap₂ ◌∷◌ (ap (λ b. ([], b)) (ground (arith, t.0.behind))) (reset_views cs w t.1)

  reset_running : p.stopped ≡ false → reset_queue p ≡ ok (reset_queue_internal p)
  unfolding reset_queue
  reset_running h = rw h

  -- While the queue serial has room, resetting a running producer empties what every consumer has still to be past, leaves none at
  -- an element, and keeps the invariant.
  pub reset_queue_refines :
      (cs : List Consumer)
      → Inv p cs
      → p.stopped ≡ false
      → p.queue_serial + 1 < 2 ^ 64
      → (p' : Producer A) × (reset_queue p ≡ ok p')
        × Inv p' cs
        × (map (view p') cs ≡ map (λ d. ([], false)) cs)
  unfolding reset_queue_internal
  reset_queue_refines cs v run w = (
    reset_queue_internal p,
    reset_running run,
    record {
      size = v.size;
      room = v.room;
      live = omega (arith, v.live);
      ordered = omega (arith, Ordered-bounds 0 0 p.queue p.next_serial p.next_addr v.ordered);
      counted = tt;
      tied = All-map cs (reset_Tied w) v.tied;
    },
    reset_views cs w v.tied,
  )

module _ {ℓ} {A : Type ℓ} (p : Producer A) where
  -- A consumer that has just registered.
  abbrev pub newcomer : Consumer
  newcomer = record { queue_serial = 0; pointer = none; last_element_serial = 0 }

  joined : Producer A
  joined = record p { consumers = p.consumers + 1 }

  consumer_new_running :
      p.stopped ≡ false → p.consumers + 1 < 2 ^ 64 → consumer_new p ≡ ok (joined, some newcomer)
  unfolding consumer_new joined
  consumer_new_running h w =
      let wraps : (p.consumers + 1) % 2 ^ 64 ≡ p.consumers + 1 = omega arith in
      let room : ltb p.consumers (2 ^ 64 - 1) ≡ true = ground arith in rw (h, wraps, room)

  Counted-join :
      (cs : List Consumer) (s l a : ℕ) (q : List (Element A)) (u v : ℕ)
      → Ordered l a q u v
      → Counted (count s cs) p.consumers q
      → Counted (count s (newcomer ∷ cs)) (p.consumers + 1) q
  Counted-join cs s l a [] u v o c = tt
  Counted-join cs s l a (e ∷ q) u v o c =
      (ground arith, omega (arith, c.1), Counted-join cs s e.seq_no e.addr q u v o.2 c.2)

  joined-Tied : (d : Consumer) → Tied p d → Tied joined d
  unfolding joined
  joined-Tied d t = record { behind = t.behind; short = t.short; held = t.held }

  -- While the count of consumers has room, a running producer takes one more consumer, which has all of the queue still to be past; the
  -- others see no difference, and the invariant is kept.
  pub consumer_new_refines :
      (cs : List Consumer)
      → Inv p cs
      → p.stopped ≡ false
      → p.consumers + 1 < 2 ^ 64
      → (p' : Producer A) × (c : Consumer) × (consumer_new p ≡ ok (p', some c))
        × Inv p' (c ∷ cs)
        × (view p' c ≡ (map (λ e. e.load) p.queue, false))
        × (map (view p') cs ≡ map (view p) cs)
  unfolding joined
  consumer_new_refines cs v run w = (
    joined,
    newcomer,
    consumer_new_running run w,
    record {
      size = omega (arith, v.size);
      room = w;
      live = v.live;
      ordered = v.ordered;
      counted =
          Counted-join cs p.queue_serial 0 0 p.queue p.next_serial p.next_addr v.ordered v.counted;
      tied = (
        record {
          behind = omega arith;
          short = λ s. absurd (omega (arith, v.live));
          held = λ a s. absurd (omega (arith, v.live));
        },
        All-map cs joined-Tied v.tied,
      );
    },
    ap₂ (λ l b. (l, b))
        (ap (λ k. loads k p.queue) (ground arith)
          ∙ ap (map (λ e. e.load))
              (above_all 0 0 0 p.queue p.next_serial p.next_addr (omega arith) v.ordered))
        (ground (arith, v.live)),
    refl,
  )
