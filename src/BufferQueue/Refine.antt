-- ===== src/BufferQueue/Refine.antt =====
-- A consumer's calls (bufferqueue.c) against queues that the consumers do not share.
use mathlib.Core.Option
use is_rtsp_server.Base.{
  ℕ, ◌+◌, ◌-◌, ◌<◌, ◌^◌, Bool, true, false, Option, none, some, List, [], ◌∷◌, ◌++◌, ◌≡◌, refl,
  arith, if◌then◌else◌, sym, ap, map, ◌∙◌, drop, inl, inr, Outcome, ok, ◌>>=◌, Bool-cases,
  Option-cases,
}
use is_rtsp_server.BufferQueue.{
  Element, Producer, Consumer, confirmed, confirm_pointer, move_internal, move, get, get_confirmed,
  current, advance, settle,
}
use is_rtsp_server.BufferQueue.Order.{above_found, loads}
use is_rtsp_server.BufferQueue.Count.{mark, count}
use is_rtsp_server.BufferQueue.Valid.{Valid, engaged, pending, Consumed, Consumed-none}
use is_rtsp_server.BufferQueue.Advance.{confirmed_held}
use is_rtsp_server.BufferQueue.Move.{Moved, move_internal_lem, is_cons}
use is_rtsp_server.BufferQueue.Others.{View, view}
use is_rtsp_server.BufferQueue.World.{Inv, Inv-Valid, Moved-Inv, others_view}

-- `bq_consumer_move` as the consumer sees it: the item it is at is dropped, and the answer is
-- whether it is at another one.
abbrev pub move_view {ℓ} : {A : Type ℓ} → View A → View A × Bool
move_view (xs, true) = ((drop 1 xs, is_cons (drop 1 xs)), is_cons (drop 1 xs))
move_view (xs, false) = ((xs, is_cons xs), is_cons xs)

-- `bq_consumer_get` as the consumer sees it: the first item, which stays.
abbrev pub get_view {ℓ} : {A : Type ℓ} → View A → View A × Option A
get_view ([], b) = (([], false), none)
get_view (x ∷ xs, b) = ((x ∷ xs, true), some x)

Consumed-move {ℓ} :
    {A : Type ℓ} (b found : Bool) (xs ys : List A)
    → Consumed b xs ys
    → found ≡ is_cons ys
    → ((ys, found), found) ≡ move_view (xs, b)
Consumed-move true found xs ys (x, e) f = rw (e, f)
Consumed-move false found xs ys e f = rw (e, f)

get_view-none {ℓ} :
    {A : Type ℓ} (xs ys : List A) (b : Bool)
    → xs ≡ ys
    → false ≡ is_cons ys
    → get_view (xs, b) ≡ ((ys, false), none)
get_view-none xs [] b e f = rw e
get_view-none xs (y ∷ ys) b e f = cc

get_view-some {ℓ} :
    {A : Type ℓ} (xs ys zs : List A) (x : A) (b : Bool)
    → xs ≡ ys
    → ys ≡ x ∷ zs
    → get_view (xs, b) ≡ ((ys, true), some x)
get_view-some xs ys zs x b e f = rw (e, f)

module _ {ℓ} {A : Type ℓ} (p : Producer A) (c : Consumer) where
  move_running : p.stopped ≡ false → move p c ≡ move_internal p c
  unfolding move
  move_running h = ground arith

  confirm_twice : confirm_pointer p (confirm_pointer p c) ≡ confirm_pointer p c
  unfolding confirm_pointer
  confirm_twice = ground arith

  -- A call that selects nothing itself returns what the move selects.
  returned : Producer A × Consumer × Bool → Outcome (Producer A × Consumer × Option (Element A))
  returned r = if r.2 then current r.0 r.1 else ok (r.0, r.1, none)

  get_running : p.stopped ≡ false → get p c ≡ get_confirmed p (confirm_pointer p c)
  unfolding get
  get_running h = ap (λ b. if b then ok (p, c, none) else get_confirmed p (confirm_pointer p c)) h

  get_confirmed_idle :
      (d : Consumer) → d.pointer ≡ none → get_confirmed p d ≡ (move_internal p d >>= returned)
  unfolding get_confirmed returned
  get_confirmed_idle d h = rw h

  move_internal_confirmed : move_internal p (confirm_pointer p c) ≡ move_internal p c
  unfolding move_internal
  move_internal_confirmed = ap (λ d. advance p d >>= λ r. settle r.0 r.1) confirm_twice

  dropped : engaged p c ≡ false → (confirm_pointer p c).pointer ≡ none
  unfolding confirm_pointer confirmed
  dropped i = ground arith

  get_idle : p.stopped ≡ false → engaged p c ≡ false → get p c ≡ (move_internal p c >>= returned)
  get_idle h i =
      get_running h
      ∙ get_confirmed_idle (confirm_pointer p c) (dropped i)
      ∙ ap (λ m. m >>= returned) move_internal_confirmed

  get_held :
      (g : ℕ → ℕ) → Valid g p c → p.stopped ≡ false → engaged p c ≡ true → get p c ≡ current p c
  unfolding get get_confirmed confirm_pointer current
  get_held g v h i = elim (Option-cases c.pointer) [
    | inl e ↦ ground arith
    | inr (a, e) ↦ ground (arith, confirmed_held g p c v a p.queue refl (ground arith) e)
  ]

  -- The element that an engaged consumer is at is the first that it has still to be past.
  current_lem :
      (g : ℕ → ℕ)
      → Valid g p c
      → engaged p c ≡ true
      → (e : Element A) × (current p c ≡ ok (p, c, some e))
        × (pending p c ≡ e.load ∷ loads e.seq_no p.queue)
  unfolding current
  current_lem g v i = elim (Option-cases c.pointer) [
    | inl idle ↦ absurd (ground arith)
    | inr (a, at) ↦
        let (e, f, n) = v.tied.held a (ground arith) at in
        let m : mark p.queue_serial c ≡ e.seq_no - 1 = ground arith in
        (
          e,
          ground arith,
          ap (λ k. loads k p.queue) m
              ∙ ap (map (λ x. x.load))
                  (above_found a 0 0 p.queue p.next_serial p.next_addr {e = e} v.ordered f),
        )
  ]

module _ {ℓ} {A : Type ℓ} (p : Producer A) (pre : List Consumer) (c : Consumer)
    (post : List Consumer) where
  -- What a call of the consumer `c` leaves, when the world was `pre ++ c ∷ post` before.
  pub record Called (p' : Producer A) (c' : Consumer) : Type ℓ where
    pub inv : Inv p' (pre ++ c' ∷ post)
    pub others : map (view p') (pre ++ post) ≡ map (view p) (pre ++ post)

  -- While the producer runs and its queue serial has room, moving a consumer fails no assertion
  -- and follows no dangling pointer, moves the consumer in its own queue as `move_view` says, is
  -- seen by no other consumer, and keeps the invariant.
  pub move_refines :
      Inv p (pre ++ c ∷ post)
      → p.stopped ≡ false
      → p.queue_serial + 1 < 2 ^ 64
      → (p' : Producer A) × (c' : Consumer) × (found : Bool) × (move p c ≡ ok (p', c', found))
        × ((view p' c', found) ≡ move_view (view p c))
        × Called p' c'
  move_refines v run w =
      let (p', c', found, r, m) =
        move_internal_lem (count p.queue_serial (pre ++ post)) p c (Inv-Valid p pre c post v) w in
      (
        p',
        c',
        found,
        move_running p c run ∙ r,
        ap (λ b. ((pending p' c', b), found)) m.at_element
            ∙ Consumed-move (engaged p c) found (pending p c) (pending p' c') m.rest m.answer,
        record {
          inv = Moved-Inv p pre c post v w p' c' found m;
          others = others_view p pre c post v w p' c' found m;
        },
      )

  -- What a `get` leaves and returns.
  pub record Got (p' : Producer A) (c' : Consumer) (o : Option (Element A)) : Type ℓ where
    pub runs : get p c ≡ ok (p', c', o)
    pub item : (view p' c', Option.map (λ e. e.load) o) ≡ get_view (view p c)
    pub called : Called p' c'

  get-Moved :
      (v : Valid (count p.queue_serial (pre ++ post)) p c) (found : Bool) (p' : Producer A)
      (c' : Consumer)
      → p.stopped ≡ false
      → engaged p c ≡ false
      → move_internal p c ≡ ok (p', c', found)
      → Moved (count p.queue_serial (pre ++ post)) p c p' c' found
      → Called p' c'
      → (o : Option (Element A)) × Got p' c' o
  unfolding returned
  get-Moved v false p' c' run idle r m k = (
    none,
    record {
      runs = get_idle p c run idle ∙ ap (λ x. x >>= returned p c) r;
      item =
          ap (λ b. ((pending p' c', b), none)) m.at_element
          ∙ sym (
              get_view-none (pending p c) (pending p' c') (engaged p c)
                (Consumed-none (engaged p c) idle m.rest) m.answer);
      called = k;
    },
  )
  get-Moved v true p' c' run idle r m k =
      let (e, s, h) = current_lem p' c' (count p.queue_serial (pre ++ post)) m.valid m.at_element in
      (
        some e,
        record {
          runs = get_idle p c run idle ∙ ap (λ x. x >>= returned p c) r ∙ s;
          item =
              ap (λ b. ((pending p' c', b), some e.load)) m.at_element
              ∙ sym (
                  get_view-some (pending p c) (pending p' c') (loads e.seq_no p'.queue) e.load
                    (engaged p c) (Consumed-none (engaged p c) idle m.rest) h);
          called = k;
        },
      )

  pub get_refines :
      Inv p (pre ++ c ∷ post)
      → p.stopped ≡ false
      → p.queue_serial + 1 < 2 ^ 64
      → (p' : Producer A) × (c' : Consumer) × (o : Option (Element A)) × Got p' c' o
  get_refines v run w = elim (Bool-cases (engaged p c)) [
    | inl at ↦
        let vc = Inv-Valid p pre c post v in
        let (e, r, h) = current_lem p c (count p.queue_serial (pre ++ post)) vc at in
        (
          p,
          c,
          some e,
          record {
            runs = get_held p c (count p.queue_serial (pre ++ post)) vc run at ∙ r;
            item = rw (h, at);
            called = record { inv = v; others = refl };
          },
        )
    | inr idle ↦
        let vc = Inv-Valid p pre c post v in
        let (p', c', found, r, m) =
          move_internal_lem (count p.queue_serial (pre ++ post)) p c vc w in
        let (o, g) = get-Moved vc found p' c' run idle r m (record {
          inv = Moved-Inv p pre c post v w p' c' found m;
          others = others_view p pre c post v w p' c' found m;
        }) in
        (p', c', o, g)
  ]
