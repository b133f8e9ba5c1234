-- ===== src/BufferQueue/Running.antt =====
-- What the calls of a consumer do to the producer beside its queue (bufferqueue.c).
use is_rtsp_server.Base.{
  ℕ, ◌+◌, ◌≤◌, Bool, not, Option, List, [], ◌∷◌, ◌≡◌, refl, arith, Outcome, ok, fail, assertion,
  ◌>>=◌, ◌>>◌, assert, ◌==◌, ltb, if-cases, match-cases,
}
use is_rtsp_server.BufferQueue.{
  Element, Producer, Consumer, inc64, deref, set_seen, confirm_pointer, object, pop_head,
  destroy_head, mark_seen, elem_unref, advance, settle, move_internal, move, current, get_confirmed,
  get,
}

-- What holds of the result, if there is one.
abbrev pub Gives {ℓ κ} : {B : Type ℓ} → (B → Type κ) → Outcome B → Type κ
Gives P (fail f) = Unit
Gives P (ok r) = P r

bind-Gives {ℓ κ ι ο} :
    {B : Type ℓ} {C : Type κ} (P : B → Type ι) (Q : C → Type ο) (o : Outcome B) (f : B → Outcome C)
    → Gives P o
    → ((b : B) → P b → Gives Q (f b))
    → Gives Q (o >>= f)
bind-Gives P Q (fail e) f h k = tt
bind-Gives P Q (ok b) f h k = k b h

any-Gives {ℓ κ ο} :
    {B : Type ℓ} {C : Type κ} (Q : C → Type ο) (o : Outcome B) (f : B → Outcome C)
    → ((b : B) → Gives Q (f b))
    → Gives Q (o >>= f)
any-Gives Q (fail e) f k = tt
any-Gives Q (ok b) f k = k b

module _ {ℓ} {A : Type ℓ} where
  abbrev pub Steady : Producer A → Producer A → Type 0
  Steady p q = (q.stopped ≡ p.stopped) × (q.queue_serial ≤ p.queue_serial + 1)

  Steady-same : (p : Producer A) → Steady p p
  Steady-same p = (refl, omega arith)

  pop_head-Steady : (p : Producer A) (t : List (Element A)) → Steady p (pop_head p t)
  pop_head-Steady p [] = (refl, omega arith)
  pop_head-Steady p (e ∷ t) = (refl, omega arith)

  destroy_head-Steady : (p : Producer A) (a : ℕ) → Gives (Steady p) (destroy_head p a)
  unfolding destroy_head
  destroy_head-Steady p a = of p.queue
    where
      of :
          (q : List (Element A))
          → Gives (Steady p) (elim q [
            | [] ↦ fail assertion
            | h ∷ t ↦
                (assert (h.addr == a) >> (assert (h.seen == p.consumers) >> ok (pop_head p t)))
          ])
      of [] = tt
      of (h ∷ t) =
          any-Gives (Steady p) (assert (h.addr == a)) _ (λ u.
            any-Gives (Steady p) (assert (h.seen == p.consumers)) _ (λ v. pop_head-Steady p t))

  mark_seen-Steady :
      (p : Producer A) (c : Consumer) (e : Element A)
      → Gives (λ r. Steady p (r.0)) (mark_seen p c e)
  unfolding mark_seen
  mark_seen-Steady p c e =
      any-Gives (λ (r : Producer A × Consumer). Steady p (r.0))
        (assert (not (e.seen == p.consumers))) _
        (λ u.
          if-cases (Gives (λ (r : Producer A × Consumer). Steady p (r.0)))
            (ltb (inc64 e.seen) p.consumers) _ _ (λ f. Steady-same p)
            (λ f.
              let q = record p { queue = set_seen e.addr (inc64 e.seen) p.queue } in
              bind-Gives (Steady p) (λ (r : Producer A × Consumer). Steady p (r.0))
                (destroy_head q e.addr) _ (destroy_head-Steady q e.addr) (λ r h. h)))

  elem_unref-Steady : (p : Producer A) (c : Consumer) → Gives (λ r. Steady p (r.0)) (elem_unref p c)
  unfolding elem_unref
  elem_unref-Steady p c =
      any-Gives (λ (r : Producer A × Consumer). Steady p (r.0)) (object p (confirm_pointer p c)) _
        (λ r.
          match-cases (Gives (λ (s : Producer A × Consumer). Steady p (s.0))) (r.1) _ _
            (λ e. Steady-same p) (λ e f. mark_seen-Steady p (r.0) e))

  advance-Steady : (p : Producer A) (c : Consumer) → Gives (λ r. Steady p (r.0)) (advance p c)
  unfolding advance
  advance-Steady p c =
      match-cases (Gives (λ (r : Producer A × Consumer). Steady p (r.0))) c.pointer _ _
        (λ e.
          if-cases (Gives (λ (r : Producer A × Consumer). Steady p (r.0)))
            (not (c.queue_serial == p.queue_serial)) _ _ (λ f. Steady-same p) (λ f. Steady-same p))
        (λ a e.
          any-Gives (λ (r : Producer A × Consumer). Steady p (r.0)) (deref p a) _
            (λ x.
              bind-Gives (λ (r : Producer A × Consumer). Steady p (r.0))
                (λ (r : Producer A × Consumer). Steady p (r.0)) (elem_unref p c) _
                (elem_unref-Steady p c) (λ r h. h)))

  settle-Steady :
      (p q : Producer A) (c : Consumer) → Steady p q → Gives (λ r. Steady p (r.0)) (settle q c)
  unfolding settle
  settle-Steady p q c h =
      match-cases (Gives (λ (r : Producer A × Consumer × Bool). Steady p (r.0))) c.pointer _ _
        (λ e. h)
        (λ a e.
          any-Gives (λ (r : Producer A × Consumer × Bool). Steady p (r.0)) (deref q a) _ (λ x. h))

  move_internal-Steady :
      (p : Producer A) (c : Consumer) → Gives (λ r. Steady p (r.0)) (move_internal p c)
  unfolding move_internal
  move_internal-Steady p c =
      bind-Gives (λ (r : Producer A × Consumer). Steady p (r.0))
        (λ (r : Producer A × Consumer × Bool). Steady p (r.0)) (advance p (confirm_pointer p c)) _
        (advance-Steady p (confirm_pointer p c)) (λ r h. settle-Steady p (r.0) (r.1) h)

  pub move-Steady : (p : Producer A) (c : Consumer) → Gives (λ r. Steady p (r.0)) (move p c)
  unfolding move
  move-Steady p c =
      if-cases (Gives (λ (r : Producer A × Consumer × Bool). Steady p (r.0))) p.stopped _ _
        (λ e. Steady-same p) (λ e. move_internal-Steady p c)

  current-Steady :
      (p q : Producer A) (c : Consumer) → Steady p q → Gives (λ r. Steady p (r.0)) (current q c)
  unfolding current
  current-Steady p q c h =
      match-cases (Gives (λ (r : Producer A × Consumer × Option (Element A)). Steady p (r.0)))
        c.pointer _ _ (λ e. tt)
        (λ a e.
          any-Gives (λ (r : Producer A × Consumer × Option (Element A)). Steady p (r.0)) (deref q a)
            _ (λ x. h))

  pub get-Steady : (p : Producer A) (c : Consumer) → Gives (λ r. Steady p (r.0)) (get p c)
  unfolding get get_confirmed
  get-Steady p c =
      if-cases (Gives (λ (r : Producer A × Consumer × Option (Element A)). Steady p (r.0)))
        p.stopped _ _ (λ e. Steady-same p)
        (λ e.
          match-cases (Gives (λ (r : Producer A × Consumer × Option (Element A)). Steady p (r.0)))
            ((confirm_pointer p c).pointer) _ _
            (λ f.
              bind-Gives (λ (r : Producer A × Consumer × Bool). Steady p (r.0))
                (λ (r : Producer A × Consumer × Option (Element A)). Steady p (r.0))
                (move_internal p (confirm_pointer p c)) _
                (move_internal-Steady p (confirm_pointer p c))
                (λ r h.
                  if-cases
                    (Gives (λ (r : Producer A × Consumer × Option (Element A)). Steady p (r.0)))
                    (r.2) _ _ (λ g. current-Steady p (r.0) (r.1) h) (λ g. h)))
            (λ a f. current-Steady p p (confirm_pointer p c) (Steady-same p)))
