-- ===== src/BufferQueue/Reach.antt =====
-- Histories of a buffer queue (bufferqueue.c): any interleaving of the calls of its producer and of
-- its consumers. Each call holds the producer's lock, so a history is a sequence of calls.
use is_rtsp_server.Base.{
  ℕ, ◌+◌, ◌<◌, ◌^◌, Bool, true, false, Option, none, some, List, [], ◌∷◌, ◌++◌, ◌≡◌, refl, arith,
  subst, sym, ap, ◌∙◌, inl, inr, Outcome, ok, fail, Failure, ◌≢◌, Bool-cases,
}
use is_rtsp_server.BufferQueue.{
  Element, Producer, Consumer, put, reset_queue, reset_queue_internal, consumer_new, get, move,
  consumer_free, producer_new,
}
use is_rtsp_server.BufferQueue.World.{Inv}
use is_rtsp_server.BufferQueue.Feed.{put_refines, reset_queue_refines, consumer_new_refines}
use is_rtsp_server.BufferQueue.Refine.{move_refines, get_refines}
use is_rtsp_server.BufferQueue.Free.{consumer_free_refines}

-- A producer and its registered consumers.
pub record World {ℓ} (A : Type ℓ) : Type ℓ where
  pub producer : Producer A
  pub members : List Consumer

-- The counters that a history must not exhaust: they are far from wrapping.
pub record Room {ℓ} {A : Type ℓ} (w : World A) : Type 0 where
  pub queues : w.producer.queue_serial + 1 < 2 ^ 64
  pub serials : w.producer.next_serial + 1 < 2 ^ 16
  pub consumers : w.producer.consumers + 1 < 2 ^ 64

-- One call that returns.
pub data Step {ℓ} {A : Type ℓ} (w w' : World A) : Type ℓ where
  puts : (x : A) → put w.producer 0 x ≡ ok w'.producer → w'.members ≡ w.members → Step w w'
  resets : reset_queue w.producer ≡ ok w'.producer → w'.members ≡ w.members → Step w w'
  joins :
      (c : Consumer)
      → consumer_new w.producer ≡ ok (w'.producer, some c)
      → w'.members ≡ c ∷ w.members
      → Step w w'
  gets :
      (pre : List Consumer) (c c' : Consumer) (post : List Consumer) (o : Option (Element A))
      → w.members ≡ pre ++ c ∷ post
      → get w.producer c ≡ ok (w'.producer, c', o)
      → w'.members ≡ pre ++ c' ∷ post
      → Step w w'
  moves :
      (pre : List Consumer) (c c' : Consumer) (post : List Consumer) (found : Bool)
      → w.members ≡ pre ++ c ∷ post
      → move w.producer c ≡ ok (w'.producer, c', found)
      → w'.members ≡ pre ++ c' ∷ post
      → Step w w'
  leaves :
      (pre : List Consumer) (c : Consumer) (post : List Consumer)
      → w.members ≡ pre ++ c ∷ post
      → consumer_free w.producer c ≡ ok w'.producer
      → w'.members ≡ pre ++ post
      → Step w w'

-- Histories, in which no counter was exhausted before a call.
pub data Reach {ℓ} {A : Type ℓ} (w : World A) : World A → Type ℓ where
  here : Reach w w
  next : {u v : World A} → Reach w u → Room u → Step u v → Reach w v

ok-injective {ℓ} : {B : Type ℓ} {a b : B} → ok a ≡ ok b → a ≡ b
ok-injective {a} e = ap (λ m. elim m [ ok x ↦ x | fail f ↦ a ]) e

returns {ℓ} : {B : Type ℓ} {m : Outcome B} {b : B} {f : Failure} → m ≡ ok b → m ≢ fail f
returns e h = let k = sym e ∙ h in cc

module _ {ℓ} {A : Type ℓ} where
  abbrev pub IsSound : World A → Type ℓ
  IsSound w = Inv w.producer w.members

  stopped_put : (p p' : Producer A) (x : A) → p.stopped ≡ true → put p 0 x ≡ ok p' → ⊥
  unfolding put
  stopped_put p p' x s e = let e' = rw s at e in cc

  stopped_reset : (p p' : Producer A) → p.stopped ≡ true → reset_queue p ≡ ok p' → ⊥
  unfolding reset_queue
  stopped_reset p p' s e = let e' = rw s at e in cc

  stopped_new :
      (p p' : Producer A) (c : Consumer) → p.stopped ≡ true → consumer_new p ≡ ok (p', some c) → ⊥
  unfolding consumer_new
  stopped_new p p' c s e = let e' = rw s at e in cc

  stopped_get : (p : Producer A) (c : Consumer) → p.stopped ≡ true → get p c ≡ ok (p, c, none)
  unfolding get
  stopped_get p c s = rw s

  stopped_move : (p : Producer A) (c : Consumer) → p.stopped ≡ true → move p c ≡ ok (p, c, false)
  unfolding move
  stopped_move p c s = rw s

  Inv-called {κ} :
      {B : Type κ} (pre post : List Consumer) {p p' : Producer A} {c c' : Consumer} {o o' : B}
      → ◌≡◌ {A = Producer A × Consumer × B} (p, c, o) (p', c', o')
      → Inv p (pre ++ c ∷ post)
      → Inv p' (pre ++ c' ∷ post)
  Inv-called pre post e v = subst (λ t. Inv t.0 (pre ++ t.1 ∷ post)) e v

  Inv-joined :
      (cs : List Consumer) {p p' : Producer A} {c c' : Consumer}
      → ◌≡◌ {A = Producer A × Option Consumer} (p, some c) (p', some c')
      → Inv p (c ∷ cs)
      → Inv p' (c' ∷ cs)
  Inv-joined cs {c} e v = subst (λ t. Inv t.0 (elim t.1 [ none ↦ c | some d ↦ d ] ∷ cs)) e v

  -- A call keeps the invariant.
  Step-IsSound : (w w' : World A) → Room w → IsSound w → Step w w' → IsSound w'
  Step-IsSound w w' r v (puts x e m) = elim (Bool-cases w.producer.stopped) [
    | inl s ↦ absurd (stopped_put w.producer w'.producer x s e)
    | inr s ↦
        let (p', e', v', n, k) = put_refines w.producer x w.members v s r.serials in
        rw m (subst (λ p. Inv p w.members) (ok-injective (sym e' ∙ e)) v')
  ]
  Step-IsSound w w' r v (resets e m) = elim (Bool-cases w.producer.stopped) [
    | inl s ↦ absurd (stopped_reset w.producer w'.producer s e)
    | inr s ↦
        let (p', e', v', n) = reset_queue_refines w.producer w.members v s r.queues in
        rw m (subst (λ p. Inv p w.members) (ok-injective (sym e' ∙ e)) v')
  ]
  Step-IsSound w w' r v (joins c e m) = elim (Bool-cases w.producer.stopped) [
    | inl s ↦ absurd (stopped_new w.producer w'.producer c s e)
    | inr s ↦
        let (p', c', e', v', n, k) = consumer_new_refines w.producer w.members v s r.consumers in
        rw m (Inv-joined w.members (ok-injective (sym e' ∙ e)) v')
  ]
  Step-IsSound w w' r v (gets pre c c' post o q e m) =
      let v' = subst (Inv w.producer) q v in
      elim (Bool-cases w.producer.stopped) [
        | inl s ↦
            rw m (Inv-called pre post (ok-injective (sym (stopped_get w.producer c s) ∙ e)) v')
        | inr s ↦
            let (p', d, o', g) = get_refines w.producer pre c post v' s r.queues in
            rw m (Inv-called pre post (ok-injective (sym g.runs ∙ e)) g.called.inv)
      ]
  Step-IsSound w w' r v (moves pre c c' post found q e m) =
      let v' = subst (Inv w.producer) q v in
      elim (Bool-cases w.producer.stopped) [
        | inl s ↦
            rw m (Inv-called pre post (ok-injective (sym (stopped_move w.producer c s) ∙ e)) v')
        | inr s ↦
            let (p', d, f, g, n, k) = move_refines w.producer pre c post v' s r.queues in
            rw m (Inv-called pre post (ok-injective (sym g ∙ e)) k.inv)
      ]
  Step-IsSound w w' r v (leaves pre c post q e m) =
      let v' = subst (Inv w.producer) q v in
      let (p', e', k, n) = consumer_free_refines w.producer pre c post v' r.queues in
      rw m (subst (λ p. Inv p (pre ++ post)) (ok-injective (sym e' ∙ e)) k)

  -- The world of a producer that was just made.
  abbrev pub start : ℕ → World A
  start a = record { producer = producer_new a; members = [] }

  start-IsSound : (a : ℕ) → 0 < a → IsSound (start a)
  unfolding producer_new reset_queue_internal
  start-IsSound a h = record {
    size = refl;
    room = omega arith;
    live = omega arith;
    ordered = omega arith;
    counted = tt;
    tied = tt;
  }

  -- Whatever calls were made since the producer was created, in whatever order, if no counter was
  -- exhausted before a call and no buffer was put with a number of its own: the seen count of every
  -- buffer is the number of registered consumers that are past it and is short of all of them, and
  -- every consumer's pointer that it may still follow is to a buffer of the queue.
  pub Reach-IsSound : (a : ℕ) (w : World A) → 0 < a → Reach (start a) w → IsSound w
  Reach-IsSound a w h here = start-IsSound a h
  Reach-IsSound a w h (next {u} r room s) = Step-IsSound u w room (Reach-IsSound a u h r) s

  -- After any such history, while the producer runs and no counter is exhausted: putting a buffer
  -- without a number, resetting the queue and adding a consumer do not fail, and neither do a get,
  -- a move and the leaving of any registered consumer: no assertion fails, no pointer to freed
  -- memory is followed, and the loop of the leaving consumer ends.
  pub Reach_no_failure :
      (a : ℕ) (w : World A)
      → 0 < a
      → Reach (start a) w
      → Room w
      → w.producer.stopped ≡ false
      → (f : Failure)
      → ((x : A) → put w.producer 0 x ≢ fail f)
        × (reset_queue w.producer ≢ fail f)
        × (consumer_new w.producer ≢ fail f)
        × ((pre : List Consumer) (c : Consumer) (post : List Consumer)
            → w.members ≡ pre ++ c ∷ post
            → (get w.producer c ≢ fail f)
              × (move w.producer c ≢ fail f)
              × (consumer_free w.producer c ≢ fail f))
  Reach_no_failure a w h r room s f =
      let v = Reach-IsSound a w h r in
      (
        λ x. returns (put_refines w.producer x w.members v s room.serials).1,
        returns (reset_queue_refines w.producer w.members v s room.queues).1,
        returns (consumer_new_refines w.producer w.members v s room.consumers).2,
        λ pre c post q.
            let v' = subst (Inv w.producer) q v in
            (
              returns (get_refines w.producer pre c post v' s room.queues).3.runs,
              returns (move_refines w.producer pre c post v' s room.queues).3,
              returns (consumer_free_refines w.producer pre c post v' room.queues).1,
            ),
      )
