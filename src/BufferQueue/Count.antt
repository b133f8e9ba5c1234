-- ===== src/BufferQueue/Count.antt =====
-- The seen counts of a producer's queue (bufferqueue.c): which consumers are past which element.
use is_rtsp_server.Base.{
  ℕ, ◌+◌, ◌-◌, ◌≤◌, ◌<◌, ◌^◌, max, none, some, List, [], ◌∷◌, ◌++◌, ◌≡◌, arith, leb, ◌==◌,
  if◌then◌else◌,
}
use is_rtsp_server.BufferQueue.{Element, Consumer, find, set_seen, inc64}
use is_rtsp_server.BufferQueue.Order.{Ordered, find_bounds, above, find-above}

-- A consumer is past every element with a serial up to its mark.
abbrev pub mark : ℕ → Consumer → ℕ
mark serial c =
    if c.queue_serial == serial
    then elim c.pointer [ none ↦ c.last_element_serial | some _ ↦ c.last_element_serial - 1 ]
    else 0

-- 1 for a serial up to `k`, and 0 above.
abbrev pub up_to : ℕ → ℕ → ℕ
up_to k s = if leb s k then 1 else 0

-- How many of the consumers are past the serial `s`.
abbrev pub count : ℕ → List Consumer → ℕ → ℕ
count serial [] s = 0
count serial (c ∷ cs) s = up_to (mark serial c) s + count serial cs s

pub count-append :
    (serial : ℕ) (cs ds : List Consumer) (s : ℕ)
    → count serial (cs ++ ds) s ≡ count serial cs s + count serial ds s
count-append serial [] ds s = omega arith
count-append serial (c ∷ cs) ds s = omega (arith, count-append serial cs ds s)

pub count_antitone :
    (serial : ℕ) (cs : List Consumer) (s t : ℕ) → s ≤ t → count serial cs t ≤ count serial cs s
count_antitone serial [] s t h = omega arith
count_antitone serial (c ∷ cs) s t h = ground (arith, count_antitone serial cs s t h)

abbrev pub Antitone : (ℕ → ℕ) → Type 0
Antitone g = (s t : ℕ) → s ≤ t → g t ≤ g s

module _ {ℓ} {A : Type ℓ} where
  -- Each element's seen count is `f` of its serial, and short of the number `n` of consumers.
  abbrev pub Counted : (ℕ → ℕ) → ℕ → List (Element A) → Type 0
  Counted f n [] = Unit {0}
  Counted f n (e ∷ q) = (e.seen ≡ f e.seq_no) × (e.seen < max 1 n) × Counted f n q

  pub Counted-cong :
      (f g : ℕ → ℕ) (n : ℕ) (q : List (Element A))
      → ((s : ℕ) → f s ≡ g s)
      → Counted f n q
      → Counted g n q
  Counted-cong f g n [] h c = tt
  Counted-cong f g n (e ∷ q) h c = (omega (arith, h e.seq_no), c.1, Counted-cong f g n q h c.2)

  pub find-Counted :
      (f : ℕ → ℕ) (n b : ℕ) (q : List (Element A)) {e : Element A}
      → Counted f n q
      → find b q ≡ some e
      → (e.seen ≡ f e.seq_no) × (e.seen < max 1 n)
  unfolding find
  find-Counted f n b [] c h = ground arith
  find-Counted f n b (x ∷ q) {e} c h = ground (arith, find-Counted f n b q {e = e} c.2)

module _ {ℓ} {A : Type ℓ} (g : ℕ → ℕ) (n : ℕ) where
  -- Two marks that lie below the whole queue count alike.
  pub Counted-below :
      (k l s a : ℕ) (q : List (Element A)) (u v : ℕ)
      → k ≤ s
      → l ≤ s
      → Ordered s a q u v
      → Counted (λ t. g t + up_to k t) n q
      → Counted (λ t. g t + up_to l t) n q
  Counted-below k l s a [] u v h i o c = tt
  Counted-below k l s a (e ∷ q) u v h i o c = (
    ground arith,
    c.1,
    Counted-below k l e.seq_no e.addr q u v (omega arith) (omega arith) o.2 c.2,
  )

  -- A mark may move up to just below the next element.
  pub Counted-above :
      (k s a : ℕ) (q : List (Element A)) (u v : ℕ) (e : Element A) (r : List (Element A))
      → Ordered s a q u v
      → above k q ≡ e ∷ r
      → Counted (λ t. g t + up_to k t) n q
      → Counted (λ t. g t + up_to (e.seq_no - 1) t) n q
  unfolding above
  Counted-above k s a [] u v e r o h c = tt
  Counted-above k s a (x ∷ q) u v e r o h c = ground (
    arith,
    Counted-above k x.seq_no x.addr q u v e r o.2,
    find-above k x.seq_no x.addr q u v {e = e} {r = r} o.2,
    Counted-below k (e.seq_no - 1) x.seq_no x.addr q u v,
  )

  -- One more consumer is past the element at `b`.
  pub Counted-set_seen :
      (b s a : ℕ) (q : List (Element A)) (u v : ℕ) {e : Element A}
      → Ordered s a q u v
      → find b q ≡ some e
      → g e.seq_no + 1 < n
      → n < 2 ^ 64
      → Counted (λ t. g t + up_to (e.seq_no - 1) t) n q
      → Counted (λ t. g t + up_to e.seq_no t) n (set_seen b (inc64 e.seen) q)
  unfolding find set_seen
  Counted-set_seen b s a [] u v o h m w c = tt
  Counted-set_seen b s a (x ∷ q) u v {e} o h m w c = ground (
    arith,
    Counted-set_seen b x.seq_no x.addr q u v {e = e} o.2,
    find_bounds b x.seq_no x.addr q u v {e = e} o.2,
    Counted-below (e.seq_no - 1) e.seq_no x.seq_no x.addr q u v,
  )

  -- An element that all other consumers are past is the head.
  pub find_last_seen :
      (b s a : ℕ) (h : Element A) (t : List (Element A)) (u v : ℕ) {e : Element A}
      → Antitone g
      → 0 < n
      → Ordered s a (h ∷ t) u v
      → Counted (λ t. g t + up_to (e.seq_no - 1) t) n (h ∷ t)
      → find b (h ∷ t) ≡ some e
      → g e.seq_no + 1 ≡ n
      → h ≡ e
  unfolding find
  find_last_seen b s a h t u v {e} mono pos o c f full =
      ground (arith, find_bounds b h.seq_no h.addr t u v {e = e} o.2, mono h.seq_no e.seq_no)
