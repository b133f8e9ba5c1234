-- ===== src/BufferQueue/Valid.antt =====
-- When a producer and one of its consumers (bufferqueue.c) fit together, where `g` counts the others.
use is_rtsp_server.Base.{
  ℕ, ◌+◌, ◌≤◌, ◌<◌, ◌^◌, Bool, true, false, ◌&&◌, none, some, List, [], ◌∷◌, ◌≡◌, ◌==◌,
  if◌then◌else◌, ◌⊎◌,
}
use is_rtsp_server.BufferQueue.{Element, Producer, Consumer, find, head_addr}
use is_rtsp_server.BufferQueue.Order.{Ordered, above, loads}
use is_rtsp_server.BufferQueue.Count.{mark, up_to, Antitone, Counted}
use is_rtsp_server.BufferQueue.Seen.{Change}

module _ {ℓ} {A : Type ℓ} where
  -- A consumer that belongs to the producer: its queue serial is no newer, and while it is the
  -- same, its last serial was handed out and its pointer, if any, is to the element of that serial.
  pub record Tied (p : Producer A) (c : Consumer) : Type ℓ where
    pub behind : c.queue_serial ≤ p.queue_serial
    pub short : c.queue_serial ≡ p.queue_serial → c.last_element_serial < p.next_serial
    pub held :
        (a : ℕ)
        → c.queue_serial ≡ p.queue_serial
        → c.pointer ≡ some a
        → (e : Element A) × (find a p.queue ≡ some e) × (e.seq_no ≡ c.last_element_serial)

  pub record Valid (g : ℕ → ℕ) (p : Producer A) (c : Consumer) : Type ℓ where
    pub mono : Antitone g
    pub pos : 0 < p.consumers
    pub room : p.consumers < 2 ^ 64
    pub ordered : Ordered 0 0 p.queue p.next_serial p.next_addr
    pub counted : Counted (λ s. g s + up_to (mark p.queue_serial c) s) p.consumers p.queue
    pub tied : Tied p c

  -- The consumer is at an element of the present queue.
  abbrev pub engaged : Producer A → Consumer → Bool
  engaged p c =
      (c.queue_serial == p.queue_serial) && elim c.pointer [ none ↦ false | some _ ↦ true ]

  -- What the consumer has still to be past, in order.
  abbrev pub pending : Producer A → Consumer → List A
  pending p c = loads (mark p.queue_serial c) p.queue

  -- The last serial of this queue that was returned to the consumer, 0 if none was.
  abbrev pub base : Producer A → Consumer → ℕ
  base p c = if c.queue_serial == p.queue_serial then c.last_element_serial else 0

  -- One item fewer, or the same.
  abbrev pub Consumed : Bool → List A → List A → Type ℓ
  Consumed true before after = (x : A) × (before ≡ x ∷ after)
  Consumed false before after = before ≡ after

  pub Consumed-same : (b : Bool) {xs ys : List A} → b ≡ false → xs ≡ ys → Consumed b xs ys
  Consumed-same true h e = cc
  Consumed-same false h e = e

  pub Consumed-one : (b : Bool) {xs ys : List A} (x : A) → b ≡ true → xs ≡ x ∷ ys → Consumed b xs ys
  Consumed-one true x h e = (x, e)
  Consumed-one false x h e = cc

  pub Consumed-none : (b : Bool) {xs ys : List A} → b ≡ false → Consumed b xs ys → xs ≡ ys
  Consumed-none true h e = cc
  Consumed-none false h e = e

  pub record Ahead (g : ℕ → ℕ) (p : Producer A) (c : Consumer) (p' : Producer A) (c' : Consumer)
      : Type ℓ where
    pub change : Change g p p'
    pub ordered : Ordered 0 0 p'.queue p'.next_serial p'.next_addr
    pub counted : Counted (λ s. g s + up_to (base p' c') s) p'.consumers p'.queue
    pub pointer : c'.pointer ≡ head_addr (above (base p' c') p'.queue)
    pub behind : c'.queue_serial ≤ p'.queue_serial
    pub short : c'.queue_serial ≡ p'.queue_serial → c'.last_element_serial < p'.next_serial
    pub kept : p'.consumers ≡ p.consumers
    pub serials :
        (p'.queue_serial ≡ p.queue_serial)
        ⊎ ((p'.queue ≡ []) × (p'.queue_serial ≡ p.queue_serial + 1))
    pub rest : Consumed (engaged p c) (pending p c) (loads (base p' c') p'.queue)
