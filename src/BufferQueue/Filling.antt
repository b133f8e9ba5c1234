-- ===== src/BufferQueue/Filling.antt =====
-- A queue that is fed (`bq_producer_put` of bufferqueue.c) without being emptied or reset.
use is_rtsp_server.Base.{
  ℕ, ◌+◌, ◌≤◌, ◌<◌, ◌≡◌, refl, arith, Bool, true, false, not, ◌==◌, List, [], ◌∷◌, length, Outcome,
  ok, fail, assert, assertion, ◌>>=◌,
}
use is_rtsp_server.BufferQueue.{Producer, inc16, put}

module _ {ℓ} {A : Type ℓ} where
  -- Buffers without a number of their own are put, one after the other.
  unfoldable pub put_all : Producer A → List A → Outcome (Producer A)
  put_all p [] = ok p
  put_all p (x ∷ xs) = put p 0 x >>= λ q. put_all q xs

  -- What becomes of a producer whose next serial is `n` when so many buffers are put.
  abbrev pub Filled : ℕ → ℕ → Outcome (Producer A) → Type 0
  Filled n k (fail f) = (f ≡ assertion) × (65535 < n + k)
  Filled n k (ok q) = (q.stopped ≡ false) × (q.next_serial ≡ n + k) × (n + k ≤ 65535)

  two_asserts :
      (n : ℕ) (a b : Bool) (y : Producer A)
      → a ≡ false
      → (b ≡ true → 65535 < n + 1)
      → (b ≡ false → (y.stopped ≡ false) × (y.next_serial ≡ n + 1) × (n + 1 ≤ 65535))
      → Filled n 1 (assert (not a) >>= λ _. assert (not b) >>= λ _. ok y)
  two_asserts n true b y s f g = absurd cc
  two_asserts n false true y s f g = (refl, f refl)
  two_asserts n false false y s f g = g refl

  put-Filled :
      (p : Producer A) (x : A)
      → p.stopped ≡ false
      → p.next_serial ≤ 65535
      → Filled p.next_serial 1 (put p 0 x)
  unfolding put
  put-Filled p x s h =
      two_asserts p.next_serial p.stopped (inc16 p.next_serial == 0) _ s (λ e. ground (arith, e, h))
        (λ e. (s, ground (arith, e, h), ground (arith, e, h)))

  feed_more :
      (n : ℕ) (xs : List A) (o : Outcome (Producer A))
      → Filled n 1 o
      → ((q : Producer A)
          → q.stopped ≡ false
          → q.next_serial ≤ 65535
          → Filled q.next_serial (length xs) (put_all q xs))
      → Filled n (length xs + 1) (o >>= λ q. put_all q xs)
  feed_more n xs (fail f) h k = (h.0, omega (arith, h.1))
  feed_more n xs (ok q) h k =
      of (put_all q xs) (k q (h.0) (let a = h.1 in let b = h.2 in omega (arith, a, b)))
    where
      of :
          (o : Outcome (Producer A))
          → Filled q.next_serial (length xs) o
          → Filled n (length xs + 1) o
      of (fail f) r = let a = h.1 in let b = r.1 in (r.0, omega (arith, a, b))
      of (ok p) r =
          let a = h.1 in
          let b = r.1 in let c = r.2 in (r.0, omega (arith, a, b), omega (arith, a, c))

  -- However many buffers without a number of their own are put to a running producer, while its queue
  -- is neither emptied nor reset: the server aborts if and only if the next serial and their number are
  -- together above 65535; if not, all are put, and the next serial has grown by their number.
  pub put_all-Filled :
      (p : Producer A) (xs : List A)
      → p.stopped ≡ false
      → p.next_serial ≤ 65535
      → Filled p.next_serial (length xs) (put_all p xs)
  unfolding put_all
  put_all-Filled p [] s h = (s, omega arith, omega (arith, h))
  put_all-Filled p (x ∷ xs) s h =
      let r =
        feed_more p.next_serial xs (put p 0 x) (put-Filled p x s h)
          (λ q t l. put_all-Filled q xs t l) in
      more (put p 0 x >>= λ q. put_all q xs) r
    where
      more :
          (o : Outcome (Producer A))
          → Filled p.next_serial (length xs + 1) o
          → Filled p.next_serial (length (x ∷ xs)) o
      more (fail f) r = let a = r.1 in (r.0, omega (arith, a))
      more (ok q) r = let a = r.1 in let b = r.2 in (r.0, omega (arith, a), omega (arith, b))
