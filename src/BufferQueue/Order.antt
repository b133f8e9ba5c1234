-- ===== src/BufferQueue/Order.antt =====
-- The order of a producer's queue (bufferqueue.c), and what the scans of it find.
use is_rtsp_server.Base.{
  ℕ, ◌≤◌, ◌<◌, some, List, [], ◌∷◌, ◌++◌, ◌≡◌, refl, map, ◌-◌, arith, leb, if◌then◌else◌,
}
use is_rtsp_server.BufferQueue.{Element, find, head_addr, next, set_seen, first_above}

module _ {ℓ} {A : Type ℓ} where
  -- Serials and addresses rise along the queue, from above `s` and `a` to below `n` and `m`.
  abbrev pub Ordered : ℕ → ℕ → List (Element A) → ℕ → ℕ → Type 0
  Ordered s a [] n m = (s < n) × (a < m)
  Ordered s a (e ∷ q) n m = (s < e.seq_no) × (a < e.addr) × Ordered e.seq_no e.addr q n m

  pub Ordered-lower :
      {s a s' a' : ℕ} (q : List (Element A)) (n m : ℕ)
      → s' ≤ s
      → a' ≤ a
      → Ordered s a q n m
      → Ordered s' a' q n m
  Ordered-lower [] n m h k o = omega arith
  Ordered-lower (e ∷ q) n m h k o = (omega arith, omega arith, o.2)

  pub Ordered-set_seen :
      (b k s a : ℕ) (q : List (Element A)) (n m : ℕ)
      → Ordered s a q n m
      → Ordered s a (set_seen b k q) n m
  unfolding set_seen
  Ordered-set_seen b k s a [] n m o = o
  Ordered-set_seen b k s a (e ∷ q) n m o =
      ground (arith, Ordered-set_seen b k e.seq_no e.addr q n m o.2)

  pub Ordered-push :
      (s a : ℕ) (q : List (Element A)) (e : Element A) {n m : ℕ}
      → Ordered s a q e.seq_no e.addr
      → e.seq_no < n
      → e.addr < m
      → Ordered s a (q ++ e ∷ []) n m
  Ordered-push s a [] e o h k = (o.0, o.1, (h, k))
  Ordered-push s a (x ∷ q) e o h k = (o.0, o.1, Ordered-push x.seq_no x.addr q e o.2 h k)

  pub Ordered-bounds :
      (s a : ℕ) (q : List (Element A)) (n m : ℕ) → Ordered s a q n m → (s < n) × (a < m)
  Ordered-bounds s a [] n m o = o
  Ordered-bounds s a (e ∷ q) n m o = omega (arith, Ordered-bounds e.seq_no e.addr q n m o.2)

  -- What `find` finds lies in the queue's bounds, at the address asked for.
  pub find_bounds :
      (b s a : ℕ) (q : List (Element A)) (n m : ℕ) {e : Element A}
      → Ordered s a q n m
      → find b q ≡ some e
      → (s < e.seq_no) × (a < e.addr) × (e.addr ≡ b) × (e.seq_no < n)
  unfolding find
  find_bounds b s a [] n m o h = ground arith
  find_bounds b s a (x ∷ q) n m {e} o h = ground (
    arith,
    find_bounds b x.seq_no x.addr q n m {e = e} o.2,
    Ordered-bounds x.seq_no x.addr q n m o.2,
  )

  -- The elements that come after the serial `k`.
  unfoldable pub above : ℕ → List (Element A) → List (Element A)
  above k [] = []
  above k (e ∷ q) = if leb e.seq_no k then above k q else e ∷ q

  pub first_above-above : (k : ℕ) (q : List (Element A)) → first_above k q ≡ head_addr (above k q)
  unfolding first_above head_addr above
  first_above-above k [] = refl
  first_above-above k (e ∷ q) = ground (arith, first_above-above k q)

  -- Nothing of an ordered queue is at or below its lower bound.
  pub above_all :
      (k s a : ℕ) (q : List (Element A)) (n m : ℕ) → k ≤ s → Ordered s a q n m → above k q ≡ q
  unfolding above
  above_all k s a [] n m h o = refl
  above_all k s a (e ∷ q) n m h o = ground arith

  -- The node behind the one at `b` is the first above its serial.
  pub next-above :
      (b s a : ℕ) (q : List (Element A)) (n m : ℕ) {e : Element A}
      → Ordered s a q n m
      → find b q ≡ some e
      → next b q ≡ head_addr (above e.seq_no q)
  unfolding find next above
  next-above b s a [] n m o h = ground arith
  next-above b s a (x ∷ q) n m {e} o h = ground (
    arith,
    next-above b x.seq_no x.addr q n m {e = e} o.2,
    find_bounds b x.seq_no x.addr q n m {e = e} o.2,
    above_all e.seq_no x.seq_no x.addr q n m,
  )

  pub above-set_seen :
      (b v k : ℕ) (q : List (Element A))
      → head_addr (above k (set_seen b v q)) ≡ head_addr (above k q)
  unfolding above set_seen head_addr
  above-set_seen b v k [] = refl
  above-set_seen b v k (e ∷ q) = ground (arith, above-set_seen b v k q)

  -- The first element above a serial is found at its address.
  pub find-above :
      (k s a : ℕ) (q : List (Element A)) (n m : ℕ) {e : Element A} {r : List (Element A)}
      → Ordered s a q n m
      → above k q ≡ e ∷ r
      → (find e.addr q ≡ some e) × (k < e.seq_no) × (a < e.addr)
  unfolding find above
  find-above k s a [] n m o h = ground arith
  find-above k s a (x ∷ q) n m {e} {r} o h =
      ground (arith, find-above k x.seq_no x.addr q n m {e = e} {r = r} o.2)

  -- The elements above a serial are those above any serial up to the first of them.
  pub above_up :
      (k l s a : ℕ) (q : List (Element A)) (n m : ℕ) {e : Element A} {r : List (Element A)}
      → Ordered s a q n m
      → above k q ≡ e ∷ r
      → k ≤ l
      → l < e.seq_no
      → above l q ≡ e ∷ r
  unfolding above
  above_up k l s a [] n m o h i j = ground arith
  above_up k l s a (x ∷ q) n m {e} {r} o h i j =
      ground (arith, above_up k l x.seq_no x.addr q n m {e = e} {r = r} o.2)

  -- What the elements above a serial carry, in order.
  abbrev pub loads : ℕ → List (Element A) → List A
  loads k q = map (λ e. e.load) (above k q)

  map-set_seen :
      (b v : ℕ) (q : List (Element A)) → map (λ e. e.load) (set_seen b v q) ≡ map (λ e. e.load) q
  unfolding set_seen
  map-set_seen b v [] = refl
  map-set_seen b v (e ∷ q) = ground (arith, map-set_seen b v q)

  pub loads-set_seen : (b v k : ℕ) (q : List (Element A)) → loads k (set_seen b v q) ≡ loads k q
  unfolding above set_seen
  loads-set_seen b v k [] = refl
  loads-set_seen b v k (e ∷ q) = ground (arith, loads-set_seen b v k q, map-set_seen b v q)

  -- Just below a serial of the queue, the elements above begin with its element.
  pub above_found :
      (b s a : ℕ) (q : List (Element A)) (n m : ℕ) {e : Element A}
      → Ordered s a q n m
      → find b q ≡ some e
      → above (e.seq_no - 1) q ≡ e ∷ above e.seq_no q
  unfolding find above
  above_found b s a [] n m o h = ground arith
  above_found b s a (x ∷ q) n m {e} o h = ground (
    arith,
    above_found b x.seq_no x.addr q n m {e = e} o.2,
    find_bounds b x.seq_no x.addr q n m {e = e} o.2,
    above_all e.seq_no x.seq_no x.addr q n m,
  )

  -- The head of a queue is not behind any of its elements.
  pub head-le :
      (b s a : ℕ) (h : Element A) (t : List (Element A)) (n m : ℕ) {e : Element A}
      → Ordered s a (h ∷ t) n m
      → find b (h ∷ t) ≡ some e
      → h.seq_no ≤ e.seq_no
  unfolding find
  head-le b s a h t n m {e} o f = ground (arith, find_bounds b h.seq_no h.addr t n m {e = e} o.2)
