-- ===== src/BufferQueue.antt =====
-- bufferqueue.c: one producer, any number of consumers, and a "seen count" on each element.
--
-- A `GList` node and the `MParserBuffer` that it carries are one `Element`; `addr` is the node's
-- address. Addresses are handed out in order and never again, so an access through a pointer whose
-- node was freed is seen as such: it fails with `dangling`. Every public operation holds the
-- producer's lock from its first access to its last, so an operation is one step.
mod Tests
pub mod Order
pub mod Count
pub mod Seen
pub mod Valid
pub mod Advance
pub mod Move
pub mod Others
pub mod World
pub mod Refine
pub mod Running
pub mod Feed
pub mod Filling
pub mod Free
pub mod Reach
use is_rtsp_server.Base.{
  ℕ, ◌+◌, ◌-◌, ◌%◌, ◌^◌, suc, zero, Bool, true, false, not, ◌&&◌, Option, none, some, List, [], ◌∷◌,
  ◌++◌, map, length, ltb, leb, ◌==◌, if◌then◌else◌, Outcome, ok, fail, assertion, dangling,
  out_of_fuel, ◌>>=◌, ◌>>◌, assert,
}

-- `struct MParserBuffer` in its list node. `load` is all that the queue carries and never reads.
pub record Element {ℓ} (A : Type ℓ) : Type ℓ where
  pub addr : ℕ
  pub seen : ℕ
  pub seq_no : ℕ
  pub load : A

-- `struct BufferQueue_Producer`, less its lock and condition; `next_addr` is the allocator's.
pub record Producer {ℓ} (A : Type ℓ) : Type ℓ where
  pub queue : List (Element A)
  pub next_serial : ℕ
  pub queue_serial : ℕ
  pub consumers : ℕ
  pub stopped : Bool
  pub next_addr : ℕ

-- `struct BufferQueue_Consumer`, less its link to the producer, which is an argument instead.
pub record Consumer : Type 0 where
  pub queue_serial : ℕ
  pub pointer : Option ℕ
  pub last_element_serial : ℕ

-- `x++` on a `uint16_t` and on a `gulong`.
abbrev pub inc16 : ℕ → ℕ
inc16 n = (n + 1) % 2 ^ 16

abbrev pub inc64 : ℕ → ℕ
inc64 n = (n + 1) % 2 ^ 64

-- `x--` on a `gulong`.
abbrev pub dec64 : ℕ → ℕ
dec64 n = (n + 2 ^ 64 - 1) % 2 ^ 64

module _ {ℓ} {A : Type ℓ} where
  -- The node at an address: `none` if it was freed.
  pub find : ℕ → List (Element A) → Option (Element A)
  find a [] = none
  find a (e ∷ q) = if e.addr == a then some e else find a q

  pub head_addr : List (Element A) → Option ℕ
  head_addr [] = none
  head_addr (e ∷ q) = some e.addr

  -- `pointer->next`
  pub next : ℕ → List (Element A) → Option ℕ
  unfolding head_addr
  next a [] = none
  next a (e ∷ q) = if e.addr == a then head_addr q else next a q

  abbrev pub deref : Producer A → ℕ → Outcome (Element A)
  deref p a = elim (find a p.queue) [ none ↦ fail dangling | some e ↦ ok e ]

  -- `elem->seen = n` through the node at an address.
  pub set_seen : ℕ → ℕ → List (Element A) → List (Element A)
  set_seen a n [] = []
  set_seen a n (e ∷ q) = if e.addr == a then record e { seen = n } ∷ q else e ∷ set_seen a n q

  -- The pointer of `c` may be kept: it is of this queue, and not behind its head.
  pub confirmed : Producer A → Consumer → Bool
  confirmed p c =
      (p.queue_serial == c.queue_serial)
      && elim p.queue [ [] ↦ true | h ∷ _ ↦ not (ltb c.last_element_serial h.seq_no) ]

  pub confirm_pointer : Producer A → Consumer → Consumer
  unfolding confirmed
  confirm_pointer p c = elim c.pointer [
    | none ↦ c
    | some a ↦ if confirmed p c then c else record c { pointer = none }
  ]

  -- `BQ_OBJECT`: the confirmed consumer, and its current element.
  pub object : Producer A → Consumer → Outcome (Consumer × Option (Element A))
  unfolding confirm_pointer find
  object p c =
      let c' = confirm_pointer p c in
      elim c'.pointer [ none ↦ ok (c', none) | some a ↦ deref p a >>= λ e. ok (c', some e) ]

  -- `bq_producer_reset_queue_internal`
  pub reset_queue_internal : Producer A → Producer A
  reset_queue_internal p = record p {
    queue = [];
    queue_serial = inc64 p.queue_serial;
    next_serial = 1;
  }

  pub reset_queue : Producer A → Outcome (Producer A)
  unfolding reset_queue_internal
  reset_queue p = do assert (not p.stopped); ok (reset_queue_internal p)

  -- `bq_producer_unref` on a producer: what it frees is gone, so no producer is returned.
  pub producer_unref : Producer A → Outcome (Unit {0})
  producer_unref p = do assert (not p.stopped); assert (p.consumers == 0); ok tt

  -- `bq_producer_put`: `seq` is the buffer's own sequence number, 0 to be given one.
  pub put : Producer A → ℕ → A → Outcome (Producer A)
  put p seq x = do
    assert (not p.stopped)
    let serial = if seq == 0 then inc16 p.next_serial else p.next_serial
    let number = if seq == 0 then p.next_serial else seq
    assert (not (serial == 0))
    ok (record p {
      queue = p.queue ++ record { addr = p.next_addr; seen = 0; seq_no = number; load = x } ∷ [];
      next_serial = serial;
      next_addr = p.next_addr + 1;
    })

  -- `bq_consumer_new`: no consumer for a stopped producer.
  pub consumer_new : Producer A → Outcome (Producer A × Option Consumer)
  consumer_new p = if p.stopped then ok (p, none) else do
    assert (ltb p.consumers (2 ^ 64 - 1))
    ok (
      record p { consumers = inc64 p.consumers },
      some (record { queue_serial = 0; pointer = none; last_element_serial = 0 }),
    )

  -- The queue once its head is popped: an emptied queue counts as a new one.
  abbrev pub pop_head : Producer A → List (Element A) → Producer A
  pop_head p [] = record p { queue = []; queue_serial = inc64 p.queue_serial; next_serial = 1 }
  pop_head p (e ∷ t) = record p { queue = e ∷ t }

  -- `bq_producer_destroy_head`
  pub destroy_head : Producer A → ℕ → Outcome (Producer A)
  destroy_head p a = elim p.queue [
    | [] ↦ fail assertion
    | h ∷ t ↦ do assert (h.addr == a); assert (h.seen == p.consumers); ok (pop_head p t)
  ]

  -- `bq_consumer_elem_unref` once the current element `e` is known.
  pub mark_seen : Producer A → Consumer → Element A → Outcome (Producer A × Consumer)
  unfolding set_seen destroy_head
  mark_seen p c e = do
    assert (not (e.seen == p.consumers))
    let c' = record c { pointer = none }
    let p' = record p { queue = set_seen e.addr (inc64 e.seen) p.queue }
    if ltb (inc64 e.seen) p.consumers
        then ok (p', c')
        else (destroy_head p' e.addr >>= λ p''. ok (p'', c'))

  -- `bq_consumer_elem_unref`
  pub elem_unref : Producer A → Consumer → Outcome (Producer A × Consumer)
  unfolding object mark_seen
  elem_unref p c = object p (confirm_pointer p c) >>= λ r. elim r.1 [
    | none ↦ ok (p, r.0)
    | some e ↦ mark_seen p r.0 e
  ]

  -- The scan for the first element above the last serial returned.
  pub first_above : ℕ → List (Element A) → Option ℕ
  first_above n [] = none
  first_above n (e ∷ q) = if leb e.seq_no n then first_above n q else some e.addr

  -- The first half of `bq_consumer_move_internal`: choose the new current element.
  pub advance : Producer A → Consumer → Outcome (Producer A × Consumer)
  unfolding elem_unref find next first_above head_addr
  advance p c = elim c.pointer [
    | some a ↦ do
      e ← deref p a
      r ← elem_unref p c
      ok (r.0, record (r.1) { pointer = next a p.queue })
    | none ↦
        if not (c.queue_serial == p.queue_serial)
        then ok (p, record c { pointer = head_addr p.queue })
        else ok (p, record c { pointer = first_above c.last_element_serial p.queue })
  ]

  -- The second half: note the serial of the new current element.
  pub settle : Producer A → Consumer → Outcome (Producer A × Consumer × Bool)
  unfolding find
  settle p c = elim c.pointer [
    | none ↦ ok (p, c, false)
    | some a ↦ do
      e ← deref p a
      ok (p, record c { last_element_serial = e.seq_no; queue_serial = p.queue_serial }, true)
  ]

  -- `bq_consumer_move_internal`
  pub move_internal : Producer A → Consumer → Outcome (Producer A × Consumer × Bool)
  unfolding confirm_pointer advance settle
  move_internal p c = do r ← advance p (confirm_pointer p c); settle r.0 r.1

  -- `bq_consumer_move`
  unfoldable pub move : Producer A → Consumer → Outcome (Producer A × Consumer × Bool)
  unfolding move_internal
  move p c = if p.stopped then ok (p, c, false) else move_internal p c

  -- The element under the pointer, which `bq_consumer_get` returns.
  pub current : Producer A → Consumer → Outcome (Producer A × Consumer × Option (Element A))
  unfolding find
  current p c = elim c.pointer [
    | none ↦ fail dangling
    | some a ↦ deref p a >>= λ e. ok (p, c, some e)
  ]

  -- `bq_consumer_get` on a confirmed pointer.
  pub get_confirmed : Producer A → Consumer → Outcome (Producer A × Consumer × Option (Element A))
  unfolding current move_internal
  get_confirmed p c = elim c.pointer [
    | some a ↦ current p c
    | none ↦ move_internal p c >>= λ r. if r.2 then current r.0 r.1 else ok (r.0, r.1, none)
  ]

  -- `bq_consumer_get`
  unfoldable pub get : Producer A → Consumer → Outcome (Producer A × Consumer × Option (Element A))
  unfolding confirm_pointer get_confirmed
  get p c = if p.stopped then ok (p, c, none) else get_confirmed p (confirm_pointer p c)

  -- `while (bq_consumer_move_internal(consumer));`
  pub drain : ℕ → Producer A → Consumer → Outcome (Producer A × Consumer)
  unfolding move_internal
  drain zero p c = fail out_of_fuel
  drain (suc fuel) p c =
      move_internal p c >>= λ r. elim r.2 [ true ↦ drain fuel r.0 r.1 | false ↦ ok (r.0, r.1) ]

  -- `bq_decrement_seen_on_free`
  pub decrement_seen : Element A → Element A
  decrement_seen e = record e { seen = dec64 e.seen }

  -- `bq_consumer_free` on a consumer: what is left is the producer.
  pub consumer_free : Producer A → Consumer → Outcome (Producer A)
  unfolding drain decrement_seen
  consumer_free p c = do
    assert (ltb 0 p.consumers)
    r ← drain (length p.queue + 2) p c
    ok (record (r.0) { queue = map decrement_seen r.0.queue; consumers = dec64 r.0.consumers })

  -- `bq_consumer_unseen`: an `int` difference of two `uint16_t`, as a `gulong`.
  pub unseen : Producer A → Consumer → ℕ
  unseen p c =
      if p.stopped
      then 0
      else if not (c.queue_serial == p.queue_serial)
      then p.next_serial
      else elim p.queue [
        | [] ↦ 0
        | _ ∷ _ ↦ (p.next_serial + 2 ^ 64 - c.last_element_serial) % 2 ^ 64
      ]

  -- `bq_consumer_stopped`
  unfoldable pub consumer_stopped : Producer A → Bool
  consumer_stopped p = p.stopped

-- `bq_producer_new`, given the address that the allocator hands out first.
pub producer_new {ℓ} : {A : Type ℓ} → ℕ → Producer A
unfolding reset_queue_internal
producer_new first = reset_queue_internal (record {
  queue = [];
  next_serial = 0;
  queue_serial = 0;
  consumers = 0;
  stopped = false;
  next_addr = first;
})
