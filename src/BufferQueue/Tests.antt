-- ===== src/BufferQueue/Tests.antt =====
-- Runs of bufferqueue.c on small queues, and instances of the theorems about it.
use mathlib.Core.Option.{some-injective}
use is_rtsp_server.Base.{
  ℕ, Bool, true, false, ◌≢◌, none, some, List, [], ◌∷◌, ◌++◌, ◌≡◌, refl, arith, map, subst, Option,
  ok, fail, assertion,
}
use is_rtsp_server.BufferQueue.{
  Element, Producer, Consumer, find, put, get, move, consumer_free, consumer_new, reset_queue,
  producer_new, unseen,
}
use is_rtsp_server.BufferQueue.World.{Inv}
use is_rtsp_server.BufferQueue.Valid.{Tied}
use is_rtsp_server.BufferQueue.Others.{view}
use is_rtsp_server.BufferQueue.Order.{above}
use is_rtsp_server.BufferQueue.Refine.{move_view, move_refines, Called}
use is_rtsp_server.BufferQueue.Filling.{Filled, put_all, put_all-Filled}
use is_rtsp_server.BufferQueue.Feed.{put_refines, reset_queue_refines, consumer_new_refines}
use is_rtsp_server.BufferQueue.Free.{consumer_free_refines}
use is_rtsp_server.BufferQueue.Reach.{
  World, Reach, start, puts, joins, here, next, Reach-IsSound, Reach_no_failure, IsSound,
}

-- Two buffers; the first consumer is at the second buffer, the other one at the first.
abbrev first_buffer : Element ℕ
first_buffer = record { addr = 1; seen = 1; seq_no = 1; load = 71 }

abbrev second_buffer : Element ℕ
second_buffer = record { addr = 2; seen = 0; seq_no = 2; load = 72 }

abbrev two_buffers : Producer ℕ
two_buffers = record {
  queue = first_buffer ∷ second_buffer ∷ [];
  next_serial = 3;
  queue_serial = 1;
  consumers = 2;
  stopped = false;
  next_addr = 3;
}

abbrev fast : Consumer
fast = record { queue_serial = 1; pointer = some 2; last_element_serial = 2 }

abbrev slow : Consumer
slow = record { queue_serial = 1; pointer = some 1; last_element_serial = 1 }

fast-Tied : Tied two_buffers fast
unfolding find
fast-Tied = record {
  behind = omega arith;
  short = λ s. omega arith;
  held = λ a s h. (
    second_buffer,
    subst (λ b. find b two_buffers.queue ≡ some second_buffer) (some-injective _ _ h) refl,
    refl,
  );
}

slow-Tied : Tied two_buffers slow
unfolding find
slow-Tied = record {
  behind = omega arith;
  short = λ s. omega arith;
  held = λ a s h. (
    first_buffer,
    subst (λ b. find b two_buffers.queue ≡ some first_buffer) (some-injective _ _ h) refl,
    refl,
  );
}

two_buffers-Inv : Inv two_buffers (fast ∷ slow ∷ [])
two_buffers-Inv = record {
  size = refl;
  room = omega arith;
  live = omega arith;
  ordered = omega arith;
  counted = omega arith;
  tied = (fast-Tied, (slow-Tied, tt));
}

slow_moves :
    move two_buffers slow
    ≡ ok (
      record two_buffers { queue = second_buffer ∷ [] },
      record slow { pointer = some 2; last_element_serial = 2 },
      true,
    )
unfolding move
slow_moves = refl

-- The last serial: the assertion on the wrapped counter fails.
put_at_the_end : put (record two_buffers { next_serial = 65535 }) 0 9 ≡ fail assertion
unfolding put
put_at_the_end = refl

-- The count is one more than the buffers above the last one returned, and one more than the queue
-- for a consumer of an older queue.
unseen_counts :
    (unseen two_buffers fast ≡ 1) × (unseen two_buffers (record slow { queue_serial = 0 }) ≡ 3)
unfolding unseen
unseen_counts = (refl, refl)

move_refines_example :
    (p' : Producer ℕ) × (c' : Consumer) × (found : Bool) × (move two_buffers slow
      ≡ ok (p', c', found))
    × ((view p' c', found) ≡ move_view (view two_buffers slow))
    × Called two_buffers (fast ∷ []) slow [] p' c'
move_refines_example =
    move_refines two_buffers (fast ∷ []) slow [] two_buffers-Inv refl (omega arith)

put_refines_example :
    (p' : Producer ℕ) × (put two_buffers 0 73 ≡ ok p')
    × Inv p' (fast ∷ slow ∷ [])
    × (map (view p') (fast ∷ slow ∷ []) ≡ (72 ∷ 73 ∷ [], true) ∷ (71 ∷ 72 ∷ 73 ∷ [], true) ∷ [])
    × (p'.next_serial ≡ 4)
unfolding above
put_refines_example =
    put_refines two_buffers 73 (fast ∷ slow ∷ []) two_buffers-Inv refl (omega arith)

put_all-Filled_example : Filled 3 2 (put_all two_buffers (73 ∷ 74 ∷ []))
put_all-Filled_example = put_all-Filled two_buffers (73 ∷ 74 ∷ []) refl (omega arith)

reset_queue_refines_example :
    (p' : Producer ℕ) × (reset_queue two_buffers ≡ ok p')
    × Inv p' (fast ∷ slow ∷ [])
    × (map (view p') (fast ∷ slow ∷ []) ≡ ([], false) ∷ ([], false) ∷ [])
reset_queue_refines_example =
    reset_queue_refines two_buffers (fast ∷ slow ∷ []) two_buffers-Inv refl (omega arith)

consumer_new_refines_example :
    (p' : Producer ℕ) × (c : Consumer) × (consumer_new two_buffers ≡ ok (p', some c))
    × Inv p' (c ∷ fast ∷ slow ∷ [])
    × (view p' c ≡ (71 ∷ 72 ∷ [], false))
    × (map (view p') (fast ∷ slow ∷ []) ≡ map (view two_buffers) (fast ∷ slow ∷ []))
consumer_new_refines_example =
    consumer_new_refines two_buffers (fast ∷ slow ∷ []) two_buffers-Inv refl (omega arith)

consumer_free_refines_example :
    (p' : Producer ℕ) × (consumer_free two_buffers slow ≡ ok p')
    × Inv p' (fast ∷ [])
    × (map (view p') (fast ∷ []) ≡ map (view two_buffers) (fast ∷ []))
consumer_free_refines_example =
    consumer_free_refines two_buffers (fast ∷ []) slow [] two_buffers-Inv (omega arith)

-- One buffer is put, and one consumer joins and gets it.
abbrev with_buffer : World ℕ
with_buffer = record {
  producer = record {
    queue = record { addr = 1; seen = 0; seq_no = 1; load = 71 } ∷ [];
    next_serial = 2;
    queue_serial = 1;
    consumers = 0;
    stopped = false;
    next_addr = 2;
  };
  members = [];
}

abbrev with_consumer : World ℕ
with_consumer = record {
  producer = record (with_buffer.producer) { consumers = 1 };
  members = record { queue_serial = 0; pointer = none; last_element_serial = 0 } ∷ [];
}

short_history : Reach (start 1) with_consumer
unfolding producer_new put consumer_new
short_history =
    next (next here (omega arith) (puts 71 refl refl)) (omega arith)
      (joins (record { queue_serial = 0; pointer = none; last_element_serial = 0 }) refl refl)

Reach-IsSound_example : IsSound with_consumer
Reach-IsSound_example = Reach-IsSound 1 with_consumer (omega arith) short_history

Reach_no_failure_example :
    ((x : ℕ) → put with_consumer.producer 0 x ≢ fail assertion)
    × (reset_queue with_consumer.producer ≢ fail assertion)
    × (consumer_new with_consumer.producer ≢ fail assertion)
    × ((pre : List Consumer) (c : Consumer) (post : List Consumer)
        → with_consumer.members ≡ pre ++ c ∷ post
        → (get with_consumer.producer c ≢ fail assertion)
          × (move with_consumer.producer c ≢ fail assertion)
          × (consumer_free with_consumer.producer c ≢ fail assertion))
Reach_no_failure_example =
    Reach_no_failure 1 with_consumer (omega arith) short_history (omega arith) refl assertion
