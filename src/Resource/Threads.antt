-- ===== src/Resource/Threads.antt =====
-- The two threads that use the fill pool of a stored resource (resource.c): the one thread of the
-- pool, in `r_read_cb`, and the event loop, which pauses (`r_pause`) or frees (`r_stop_fill`) the
-- resource. A step is one access to what they share. Whether the client has enough buffers, and
-- what the demuxer reads, may be either way at each turn.
use is_rtsp_server.Base.{Bool, true, false, ◌≡◌}

-- Where the thread of the pool stands: no task runs; at the test of `fill_pool`; at the test of the
-- queue's length; before the lock; reading under the lock; at the test of `eor`.
pub data Filler : Type 0 where
  off testing measuring locking reading ending : Filler

-- Where the event loop stands: before the call; in `r_pause` before the lock, before it clears
-- `fill_pool`, in `g_thread_pool_free`, and before it unlocks; in `r_stop_fill` before it clears
-- `fill_pool`, and in `g_thread_pool_free`; after the call.
pub data Caller : Type 0 where
  called pause_locking pause_clearing pause_joining pause_unlocking : Caller
  stop_called stop_clearing stop_joining returned : Caller

-- `fill_pool != NULL`, `lock` is held, `eor`, and the two threads.
pub record Shared : Type 0 where
  pub pool : Bool
  pub lock : Bool
  pub eor : Bool
  pub filler : Filler
  pub caller : Caller

-- Whether `g_thread_pool_free` was called, or the call found no pool: no task can start.
abbrev pub pool_freed : Caller → Bool
pool_freed pause_joining = true
pool_freed pause_unlocking = true
pool_freed stop_joining = true
pool_freed returned = true
pool_freed _ = false

-- A step of the thread of the pool. A task that waits in the pool can start once none runs.
pub data Fill (s : Shared) : Shared → Type 0 where
  starts : s.filler ≡ off → pool_freed s.caller ≡ false → Fill s (record s { filler = testing })
  told_to_stop : s.filler ≡ testing → s.pool ≡ false → Fill s (record s { filler = off })
  goes_on : s.filler ≡ testing → s.pool ≡ true → Fill s (record s { filler = measuring })
  has_enough : s.filler ≡ measuring → Fill s (record s { filler = off })
  wants_more : s.filler ≡ measuring → Fill s (record s { filler = locking })
  locks : s.filler ≡ locking → s.lock ≡ false → Fill s (record s { filler = reading; lock = true })
  reads : s.filler ≡ reading → Fill s (record s { filler = ending; lock = false })
  reads_end : s.filler ≡ reading → Fill s (record s { filler = ending; lock = false; eor = true })
  ends : s.filler ≡ ending → s.eor ≡ true → Fill s (record s { filler = off })
  repeats : s.filler ≡ ending → s.eor ≡ false → Fill s (record s { filler = testing })

-- A step of the event loop. `g_thread_pool_free` waits until no task runs.
pub data Call (s : Shared) : Shared → Type 0 where
  paused_already : s.caller ≡ called → s.pool ≡ false → Call s (record s { caller = returned })
  pauses : s.caller ≡ called → s.pool ≡ true → Call s (record s { caller = pause_locking })
  pause_locks :
      s.caller ≡ pause_locking
      → s.lock ≡ false
      → Call s (record s { caller = pause_clearing; lock = true })
  pause_clears :
      s.caller ≡ pause_clearing → Call s (record s { caller = pause_joining; pool = false })
  pause_joins :
      s.caller ≡ pause_joining → s.filler ≡ off → Call s (record s { caller = pause_unlocking })
  pause_unlocks : s.caller ≡ pause_unlocking → Call s (record s { caller = returned; lock = false })
  stopped_already :
      s.caller ≡ stop_called → s.pool ≡ false → Call s (record s { caller = returned })
  stops : s.caller ≡ stop_called → s.pool ≡ true → Call s (record s { caller = stop_clearing })
  stop_clears : s.caller ≡ stop_clearing → Call s (record s { caller = stop_joining; pool = false })
  stop_joins : s.caller ≡ stop_joining → s.filler ≡ off → Call s (record s { caller = returned })

pub data Step (s : Shared) : Shared → Type 0 where
  fill : {t : Shared} → Fill s t → Step s t
  call : {t : Shared} → Call s t → Step s t

pub data Reach (s : Shared) : Shared → Type 0 where
  here : Reach s s
  next : {t u : Shared} → Reach s t → Step t u → Reach s u

-- Neither thread can go on.
abbrev pub IsStuck : Shared → Type 0
IsStuck s = (t : Shared) → Step s t → ⊥

-- However the threads are scheduled, they come to a state with the property.
pub data Always (P : Shared → Type 0) : Shared → Type 0 where
  now : {s : Shared} → P s → Always P s
  soon : {s : Shared} (t : Shared) → Step s t → ((u : Shared) → Step s u → Always P u) → Always P s
