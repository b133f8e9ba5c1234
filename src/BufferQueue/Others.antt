-- ===== src/BufferQueue/Others.antt =====
-- What an operation of one consumer does to the others (bufferqueue.c): nothing that they can see.
use is_rtsp_server.Base.{
  ℕ, ◌+◌, ◌≤◌, ◌<◌, ◌^◌, Bool, false, some, List, [], ◌∷◌, ◌≡◌, refl, arith, ◌==◌, subst, sym, inl,
  inr, Bool-cases, Option-cases, ap, map, ◌∙◌, length, All, All-map, All-both,
}
use is_rtsp_server.BufferQueue.{Element, Producer, Consumer, find, set_seen, pop_head}
use is_rtsp_server.BufferQueue.Order.{Ordered, above, loads-set_seen}
use is_rtsp_server.BufferQueue.Count.{mark, count}
use is_rtsp_server.BufferQueue.Seen.{Change, same, seen_more, popped}
use is_rtsp_server.BufferQueue.Valid.{Tied, engaged, pending}

module _ {ℓ} {A : Type ℓ} where
  find-set_seen :
      (a b k : ℕ) (q : List (Element A)) (e : Element A)
      → find a q ≡ some e
      → (e' : Element A) × (find a (set_seen b k q) ≡ some e') × (e'.seq_no ≡ e.seq_no)
  unfolding find set_seen
  find-set_seen a b k [] e h = cc
  find-set_seen a b k (x ∷ q) e h = elim (Bool-cases (x.addr == a)) [
    | inl here ↦ elim (Bool-cases (x.addr == b)) [
      | inl mark ↦ (record x { seen = k }, ground arith, ground arith)
      | inr other ↦ (x, ground arith, ground arith)
    ]
    | inr there ↦ elim (Bool-cases (x.addr == b)) [
      | inl mark ↦ (e, ground arith, refl)
      | inr other ↦
          let r = find-set_seen a b k q e (ground arith) in (r.0, ground (arith, r.1), r.2)
    ]
  ]

-- A count that includes everybody.
count_full :
    (serial : ℕ) (cs : List Consumer) (s : ℕ)
    → (count serial cs s ≤ length cs)
      × (count serial cs s ≡ length cs → All (λ d. s ≤ mark serial d) cs)
count_full serial [] s = (omega arith, λ _. tt)
count_full serial (c ∷ cs) s =
    let r = count_full serial cs s in
    (ground (arith, r.0), λ e. (ground (arith, r.0), r.1 (ground (arith, r.0))))

-- What a consumer can see: what it has still to be past, and whether it is at an element.
abbrev pub View {ℓ} : Type ℓ → Type ℓ
View A = List A × Bool

module _ {ℓ} {A : Type ℓ} where
  abbrev pub view : Producer A → Consumer → View A
  view p c = (pending p c, engaged p c)

  pub record Kept (p p' : Producer A) (d : Consumer) : Type ℓ where
    pub tied : Tied p' d
    pub seen : view p' d ≡ view p d

  Kept-more :
      (p : Producer A) (a k : ℕ) (d : Consumer)
      → Tied p d
      → Kept p (record p { queue = set_seen a k p.queue }) d
  Kept-more p a k d t = record {
    tied = record {
      behind = t.behind;
      short = t.short;
      held = λ b s h.
          let (e, f, n) = t.held b s h in
          let (e', f', n') = find-set_seen b a k p.queue e f in (e', f', n' ∙ n);
    };
    seen = ap (λ l. (l, engaged p d)) (loads-set_seen a k (mark p.queue_serial d) p.queue);
  }

  above_next :
      (k : ℕ) (h : Element A) (t : List (Element A)) → h.seq_no ≤ k → above k t ≡ above k (h ∷ t)
  unfolding above
  above_next k h t l = ground arith

  -- Past the only element of the queue a consumer is at none.
  disengaged :
      (p : Producer A) (h : Element A) (d : Consumer)
      → p.queue ≡ h ∷ []
      → h.seq_no ≤ mark p.queue_serial d
      → 0 < h.seq_no
      → Tied p d
      → engaged p d ≡ false
  unfolding find
  disengaged p h d q m z k = elim (Bool-cases (d.queue_serial == p.queue_serial)) [
    | inr other ↦ ground arith
    | inl now ↦ elim (Option-cases d.pointer) [
      | inl idle ↦ ground arith
      | inr (a, at) ↦
          let (e, f, n) = k.held a (ground arith) at in
          let f' = subst (λ l. find a l ≡ some e) q f in absurd (ground arith)
    ]
  ]

  Kept-popped :
      (p : Producer A) (h : Element A) (t : List (Element A)) (d : Consumer)
      → p.queue ≡ h ∷ t
      → p.queue_serial + 1 < 2 ^ 64
      → h.seq_no ≤ mark p.queue_serial d
      → 0 < h.seq_no
      → Tied p d
      → Kept p (pop_head p t) d
  unfolding find above
  Kept-popped p h [] d q w m z k =
      let gone = disengaged p h d q m z k in
      record {
        tied = record {
          behind = omega (arith, k.behind);
          short = λ s. absurd (omega (arith, k.behind));
          held = λ a s. absurd (omega (arith, k.behind));
        };
        seen = rw q (ground (arith, gone));
      }
  Kept-popped p h (x ∷ t) d q w m z k = record {
    tied = record {
      behind = k.behind;
      short = k.short;
      held = λ a s n.
          let (e, f, i) = k.held a s n in
          let f' = subst (λ l. find a l ≡ some e) q f in (e, ground arith, i);
    };
    seen =
        ap (λ l. (map (λ e. e.load) l, engaged p d))
          (above_next (mark p.queue_serial d) h (x ∷ t) m
            ∙ ap (above (mark p.queue_serial d)) (sym q));
  }

  -- A consumer that belongs to the producer before an operation of another does so after it, and
  -- sees no difference. An element that is freed is one that everybody was past.
  pub Change-Kept :
      (p p' : Producer A) (ds : List Consumer)
      → Change (count p.queue_serial ds) p p'
      → p.consumers ≡ length ds + 1
      → p.queue_serial + 1 < 2 ^ 64
      → Ordered 0 0 p.queue p.next_serial p.next_addr
      → All (Tied p) ds
      → All (Kept p p') ds
  Change-Kept p p' ds (same e) n w o t =
      All-map ds (λ d k. rw e (record { tied = k; seen = refl })) t
  Change-Kept p p' ds (seen_more a k e) n w o t = All-map ds (λ d k'. rw e (Kept-more p a k d k')) t
  Change-Kept p p' ds (popped h r q c e) n w o t =
      let past = (count_full p.queue_serial ds h.seq_no).1 (omega arith) in
      let o' = subst (λ l. Ordered 0 0 l p.next_serial p.next_addr) q o in
      All-map ds (λ d k. rw e (Kept-popped p h r d q w k.0 o'.0 k.1))
        (All-both (λ d. h.seq_no ≤ mark p.queue_serial d) (Tied p) ds past t)
