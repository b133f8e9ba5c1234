-- ===== src/BufferQueue/World.antt =====
-- A producer with all its consumers (bufferqueue.c): the invariant that every operation keeps.
use is_rtsp_server.Base.{
  ℕ, ◌+◌, ◌<◌, ◌^◌, Bool, List, [], ◌∷◌, ◌++◌, ◌≡◌, refl, arith, sym, ap, ap₂, map, ◌∙◌, length,
  length-append, All, All-map, All-insert, All-erase, ◌⊎◌, inl, inr,
}
use is_rtsp_server.BufferQueue.{Producer, Consumer}
use is_rtsp_server.BufferQueue.Order.{Ordered}
use is_rtsp_server.BufferQueue.Count.{
  mark, up_to, count, count-append, count_antitone, Counted, Counted-cong,
}
use is_rtsp_server.BufferQueue.Valid.{Tied, Valid}
use is_rtsp_server.BufferQueue.Move.{Moved}
use is_rtsp_server.BufferQueue.Others.{view, Kept, Change-Kept}

module _ {ℓ} {A : Type ℓ} where
  -- The registered consumers are `cs`: they are as many as the producer counts, each belongs to it,
  -- and every element's seen count is the number of those that are past it.
  pub record Inv (p : Producer A) (cs : List Consumer) : Type ℓ where
    pub size : p.consumers ≡ length cs
    pub room : p.consumers < 2 ^ 64
    pub live : 0 < p.queue_serial
    pub ordered : Ordered 0 0 p.queue p.next_serial p.next_addr
    pub counted : Counted (count p.queue_serial cs) p.consumers p.queue
    pub tied : All (Tied p) cs

module _ {ℓ} {A : Type ℓ} (p : Producer A) (pre : List Consumer) (c : Consumer)
    (post : List Consumer) where
  pub count_split :
      (serial s : ℕ)
      → count serial (pre ++ c ∷ post) s ≡ count serial (pre ++ post) s + up_to (mark serial c) s
  count_split serial s =
      omega (arith, count-append serial pre (c ∷ post) s, count-append serial pre post s)

  pub length_split : length (pre ++ c ∷ post) ≡ length (pre ++ post) + 1
  length_split = omega (arith, length-append pre (c ∷ post), length-append pre post)

  -- Each consumer, seen among the others.
  pub Inv-Valid : Inv p (pre ++ c ∷ post) → Valid (count p.queue_serial (pre ++ post)) p c
  Inv-Valid v = record {
    mono = count_antitone p.queue_serial (pre ++ post);
    pos = omega (arith, v.size, length_split);
    room = v.room;
    ordered = v.ordered;
    counted =
        Counted-cong (count p.queue_serial (pre ++ c ∷ post))
          (λ s. count p.queue_serial (pre ++ post) s + up_to (mark p.queue_serial c) s) p.consumers
          p.queue (count_split p.queue_serial) v.counted;
    tied = (All-erase (Tied p) pre c post v.tied).0;
  }

map-Kept {ℓ} :
    {A : Type ℓ} (p p' : Producer A) (ds : List Consumer)
    → All (Kept p p') ds
    → map (view p') ds ≡ map (view p) ds
map-Kept p p' [] k = refl
map-Kept p p' (d ∷ ds) k = ap₂ ◌∷◌ (k.0.seen) (map-Kept p p' ds k.1)

module _ {ℓ} {A : Type ℓ} (p : Producer A) (pre : List Consumer) (c : Consumer)
    (post : List Consumer) (v : Inv p (pre ++ c ∷ post)) (w : p.queue_serial + 1 < 2 ^ 64)
    (p' : Producer A) (c' : Consumer) (found : Bool)
    (m : Moved (count p.queue_serial (pre ++ post)) p c p' c' found) where
  pub others_Kept : All (Kept p p') (pre ++ post)
  others_Kept =
      Change-Kept p p' (pre ++ post) m.change (omega (arith, v.size, length_split p pre c post)) w
        v.ordered (All-erase (Tied p) pre c post v.tied).1

  Counted-after :
      (p'.queue_serial ≡ p.queue_serial)
        ⊎ ((p'.queue ≡ []) × (p'.queue_serial ≡ p.queue_serial + 1))
      → Counted (count p'.queue_serial (pre ++ c' ∷ post)) p'.consumers p'.queue
  Counted-after (inl s) =
      Counted-cong (λ s. count p.queue_serial (pre ++ post) s + up_to (mark p'.queue_serial c') s)
        (count p'.queue_serial (pre ++ c' ∷ post)) p'.consumers p'.queue
        (λ t.
          ap (λ k. count k (pre ++ post) t + up_to (mark p'.queue_serial c') t) (sym s)
          ∙ sym (count_split p' pre c' post p'.queue_serial t))
        m.valid.counted
  Counted-after (inr (q, _)) = rw q tt

  pub Moved-Inv : Inv p' (pre ++ c' ∷ post)
  Moved-Inv = record {
    size = omega (arith, m.kept, v.size, length_split p pre c post, length_split p' pre c' post);
    room = m.valid.room;
    live = ground (arith, v.live, m.serials);
    ordered = m.valid.ordered;
    counted = Counted-after m.serials;
    tied =
        All-insert (Tied p') pre c' post m.valid.tied
          (All-map (pre ++ post) (λ d k. k.tied) others_Kept);
  }

  -- The others see no difference.
  pub others_view : map (view p') (pre ++ post) ≡ map (view p) (pre ++ post)
  others_view = map-Kept p p' (pre ++ post) others_Kept
