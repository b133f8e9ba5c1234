-- ===== src/Connection/Order.antt =====
-- The packets that are queued for a client (rtsp_lowlevel.c) reach the socket in their order.
use is_rtsp_server.Base.{
  ℕ, suc, zero, ◌+◌, ◌≡◌, ◌⊎◌, inl, inr, refl, sym, ap, ◌∙◌, arith, false, Option, none, some, List,
  [], ◌∷◌, ◌++◌, length, take, drop, append_assoc, append_nil, ltb, if◌then◌else◌, if-cases, All,
}
use is_rtsp_server.Connection.{
  pop_tail, Output, Answer, written_size, taken, write_data_queue, tcp_write_cb,
}

-- What happens to the writing side: a packet is queued, or the socket is ready and `send` answers so.
pub data Event : Type 0 where
  queue : List ℕ → Event
  ready : (List ℕ → Answer) → Event

unfoldable pub run : List Event → Output → Output
run [] o = o
run (queue p ∷ es) o = run es (write_data_queue p o)
run (ready send ∷ es) o = run es (tcp_write_cb send o)

-- The socket takes any packet whole.
abbrev pub TakesAll : Event → Type 0
TakesAll (queue p) = Unit
TakesAll (ready send) = (p : List ℕ) → (send p).written ≡ some (length p)

-- The packets that are queued, in order.
abbrev pub queued : List Event → List (List ℕ)
queued [] = []
queued (queue p ∷ es) = p ∷ queued es
queued (ready send ∷ es) = queued es

-- The packets of a queue, the oldest first.
abbrev pub waiting : List (List ℕ) → List (List ℕ)
waiting [] = []
waiting (p ∷ ps) = waiting ps ++ p ∷ []

-- A packet that was taken from the queue, and what the socket took of it.
abbrev pub Cut : Type 0
Cut = List ℕ × List ℕ

abbrev pub packets : List Cut → List (List ℕ)
packets [] = []
packets (c ∷ cs) = c.0 ∷ packets cs

abbrev pub bytes : List Cut → List ℕ
bytes [] = []
bytes (c ∷ cs) = c.1 ++ bytes cs

-- The socket took the beginning of the packet.
abbrev pub IsCut : Cut → Type 0
IsCut c = (rest : List ℕ) × (c.0 ≡ c.1 ++ rest)

abbrev pub IsWhole : Cut → Type 0
IsWhole c = c.1 ≡ c.0

same : (n : ℕ) → ltb n n ≡ false
same n = ground arith

take_all : {A : Type 0} (xs : List A) → take (length xs) xs ≡ xs
take_all [] = refl
take_all (x ∷ xs) = ap (λ ys. x ∷ ys) (take_all xs)

take-drop : {A : Type 0} (n : ℕ) (xs : List A) → xs ≡ take n xs ++ drop n xs
take-drop zero xs = refl
take-drop (suc n) [] = refl
take-drop (suc n) (x ∷ xs) = ap (λ ys. x ∷ ys) (take-drop n xs)

taken-IsCut : (a : Answer) (p : List ℕ) → IsCut (p, taken a p)
taken-IsCut a p = of a.written
  where
    of : (o : Option ℕ) → IsCut (p, let q : List ℕ = elim o [ none ↦ [] | some n ↦ take n p ] in q)
    of none = (p, refl)
    of (some n) = (drop n p, take-drop n p)

-- What `pop_tail` takes is the oldest packet.
abbrev Popped : List (List ℕ) → Option (List (List ℕ) × List ℕ) → Type 0
Popped q none = q ≡ []
Popped q (some (r, p)) = waiting q ≡ p ∷ waiting r

pop_tail-Popped : (q : List (List ℕ)) → Popped q (pop_tail q)
unfolding pop_tail
pop_tail-Popped [] = refl
pop_tail-Popped (x ∷ xs) = of (pop_tail xs) (pop_tail-Popped xs)
  where
    of :
        (o : Option (List (List ℕ) × List ℕ))
        → Popped xs o
        → Popped (x ∷ xs) (elim o [ none ↦ some ([], x) | some r ↦ some (x ∷ r.0, r.1) ])
    of none e = ap (λ l. waiting l ++ x ∷ []) e
    of (some (r, p)) e = ap (λ l. l ++ x ∷ []) e

-- A call of `tcp_write_cb` leaves the packets and the bytes as they were, or takes one packet.
abbrev Step : (List ℕ → Answer) → Output → Output → Type 0
Step send o o' =
    ((waiting o'.out_queue ≡ waiting o.out_queue) × (o'.wire ≡ o.wire) × (o'.leaked ≡ o.leaked))
    ⊎ ((p : List ℕ) × (waiting o.out_queue ≡ p ∷ waiting o'.out_queue)
        × (o'.wire ≡ o.wire ++ taken (send p) p)
        × (TakesAll (ready send) → o'.leaked ≡ o.leaked))

tcp_write_cb-Step : (send : List ℕ → Answer) (o : Output) → Step send o (tcp_write_cb send o)
unfolding tcp_write_cb
tcp_write_cb-Step send o = of (pop_tail o.out_queue) (pop_tail-Popped o.out_queue)
  where
    not_cut : (p : List ℕ) → TakesAll (ready send) → ltb (written_size (send p)) (length p) ≡ false
    not_cut p t = rw (t p) (same (length p))

    of :
        (x : Option (List (List ℕ) × List ℕ))
        → Popped o.out_queue x
        → let o' : Output = elim x [
          | none ↦ record o { writing = false }
          | some r ↦
              let a = send (r.1) in
              let o' = record o { out_queue = r.0; wire = o.wire ++ taken a (r.1) } in
              if ltb (written_size a) (length (r.1))
              then if a.again then record o' { leaked = o.leaked + 1 } else o'
              else o'
        ] in
          Step send o o'
    of none e = inl (refl, refl, refl)
    of (some (r, p)) e =
        if-cases (Step send o) (ltb (written_size (send p)) (length p)) _ _
          (λ f.
            if-cases (Step send o) (send p).again _ _
              (λ g. inr (p, e, refl, λ t. absurd (let h = not_cut p t in cc)))
              (λ g. inr (p, e, refl, λ t. refl)))
          (λ f. inr (p, e, refl, λ t. refl))

-- What became of the packets.
abbrev pub SendsInOrder : List Event → Output → Output → Type 0
SendsInOrder es o o' =
    (cs : List Cut) × (waiting o.out_queue ++ queued es ≡ packets cs ++ waiting o'.out_queue)
    × (o'.wire ≡ o.wire ++ bytes cs)
    × All IsCut cs
    × (All TakesAll es → All IsWhole cs × (o'.leaked ≡ o.leaked))

ready-SendsInOrder :
    (send : List ℕ → Answer) (es : List Event) (o o1 o' : Output)
    → Step send o o1
    → SendsInOrder es o1 o'
    → SendsInOrder (ready send ∷ es) o o'
ready-SendsInOrder send es o o1 o' (inl (q, w, l)) (cs, a, b, c, d) = (
  cs,
  ap (λ x. x ++ queued es) (sym q) ∙ a,
  b ∙ ap (λ x. x ++ bytes cs) w,
  c,
  (λ t. ((d (t.1)).0, (d (t.1)).1 ∙ l)),
)
ready-SendsInOrder send es o o1 o' (inr (p, q, w, l)) (cs, a, b, c, d) = (
  (p, taken (send p) p) ∷ cs,
  ap (λ x. x ++ queued es) q ∙ ap (λ x. p ∷ x) a,
  b ∙ ap (λ x. x ++ bytes cs) w ∙ append_assoc o.wire (taken (send p) p) (bytes cs),
  (taken-IsCut (send p) p, c),
  (λ t. ((all_taken (t.0), (d (t.1)).0), (d (t.1)).1 ∙ l (t.0))),
)
  where
    all_taken : TakesAll (ready send) → taken (send p) p ≡ p
    all_taken t = rw (t p) (take_all p)

-- Whenever packets are queued and the socket is ready, in whatever order, and whatever `send` answers:
-- the packets are taken from the queue in the order in which they were queued, none is left out, and
-- the bytes that the socket took are, in that order, a beginning of each packet that was taken. If it
-- always takes the packet whole, they are those packets, and no packet leaks.
pub run-SendsInOrder : (es : List Event) (o : Output) → SendsInOrder es o (run es o)
unfolding run write_data_queue
run-SendsInOrder [] o =
    ([], append_nil (waiting o.out_queue), sym (append_nil o.wire), tt, (λ t. (tt, refl)))
run-SendsInOrder (queue p ∷ es) o =
    let (cs, a, b, c, d) = run-SendsInOrder es (write_data_queue p o) in
    (cs, sym (append_assoc (waiting o.out_queue) (p ∷ []) (queued es)) ∙ a, b, c, λ t. d (t.1))
run-SendsInOrder (ready send ∷ es) o =
    ready-SendsInOrder send es o (tcp_write_cb send o) (run es (tcp_write_cb send o))
      (tcp_write_cb-Step send o) (run-SendsInOrder es (tcp_write_cb send o))
