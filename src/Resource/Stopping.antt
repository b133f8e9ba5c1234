-- ===== src/Resource/Stopping.antt =====
-- The wait of `r_stop_fill` for the thread of the pool (resource.c), which takes no lock.
use is_rtsp_server.Base.{
  ℕ, zero, suc, ◌≤◌, ◌<◌, true, false, ◌≡◌, inl, inr, refl, sym, ap, ◌∙◌, arith, Bool-cases,
}
use is_rtsp_server.Resource.Threads.{
  pool_freed, Filler, off, testing, measuring, locking, reading, ending, stop_joining, returned,
  Shared, Fill, starts, told_to_stop, goes_on, has_enough, wants_more, locks, reads, reads_end,
  ends, repeats, Call, paused_already, pauses, pause_locks, pause_clears, pause_joins,
  pause_unlocks, stopped_already, stops, stop_clears, stop_joins, Step, fill, call, Always, now,
  soon,
}

-- How many steps the thread of the pool takes once `fill_pool` is cleared.
abbrev rank : Filler → ℕ
rank off = 0
rank testing = 1
rank ending = 2
rank reading = 3
rank locking = 4
rank measuring = 5

-- `r_stop_fill` cleared `fill_pool`, and nobody but the thread of the pool holds the lock.
pub record IsStopping (s : Shared) : Type 0 where
  pub joining : s.caller ≡ stop_joining
  pub cleared : s.pool ≡ false
  pub own_lock : s.lock ≡ true → s.filler ≡ reading

Fill-IsStopping :
    (s t : Shared) → IsStopping s → Fill s t → IsStopping t × (rank t.filler < rank s.filler)
Fill-IsStopping s _ b (starts e f) = absurd (let g = sym f ∙ ap pool_freed b.joining in cc)
Fill-IsStopping s _ b (told_to_stop e f) = (
  record {
    joining = b.joining;
    cleared = b.cleared;
    own_lock = λ l. absurd (let g = sym e ∙ b.own_lock l in cc);
  },
  omega (arith, ap rank e),
)
Fill-IsStopping s _ b (goes_on e f) = absurd (let g = sym f ∙ b.cleared in cc)
Fill-IsStopping s _ b (has_enough e) = (
  record {
    joining = b.joining;
    cleared = b.cleared;
    own_lock = λ l. absurd (let g = sym e ∙ b.own_lock l in cc);
  },
  omega (arith, ap rank e),
)
Fill-IsStopping s _ b (wants_more e) = (
  record {
    joining = b.joining;
    cleared = b.cleared;
    own_lock = λ l. absurd (let g = sym e ∙ b.own_lock l in cc);
  },
  omega (arith, ap rank e),
)
Fill-IsStopping s _ b (locks e f) = (
  record { joining = b.joining; cleared = b.cleared; own_lock = λ l. refl },
  omega (arith, ap rank e),
)
Fill-IsStopping s _ b (reads e) = (
  record { joining = b.joining; cleared = b.cleared; own_lock = λ l. absurd cc },
  omega (arith, ap rank e),
)
Fill-IsStopping s _ b (reads_end e) = (
  record { joining = b.joining; cleared = b.cleared; own_lock = λ l. absurd cc },
  omega (arith, ap rank e),
)
Fill-IsStopping s _ b (ends e f) = (
  record {
    joining = b.joining;
    cleared = b.cleared;
    own_lock = λ l. absurd (let g = sym e ∙ b.own_lock l in cc);
  },
  omega (arith, ap rank e),
)
Fill-IsStopping s _ b (repeats e f) = (
  record {
    joining = b.joining;
    cleared = b.cleared;
    own_lock = λ l. absurd (let g = sym e ∙ b.own_lock l in cc);
  },
  omega (arith, ap rank e),
)

Call-IsStopping : (s t : Shared) → IsStopping s → Call s t → t.caller ≡ returned
Call-IsStopping s _ b (stop_joins e f) = refl
Call-IsStopping s _ b (paused_already e f) = refl
Call-IsStopping s _ b (stopped_already e f) = refl
Call-IsStopping s _ b (pause_unlocks e) = refl
Call-IsStopping s _ b (pauses e f) = absurd (let g = sym e ∙ b.joining in cc)
Call-IsStopping s _ b (pause_locks e f) = absurd (let g = sym e ∙ b.joining in cc)
Call-IsStopping s _ b (pause_clears e) = absurd (let g = sym e ∙ b.joining in cc)
Call-IsStopping s _ b (pause_joins e f) = absurd (let g = sym e ∙ b.joining in cc)
Call-IsStopping s _ b (stops e f) = absurd (let g = sym e ∙ b.joining in cc)
Call-IsStopping s _ b (stop_clears e) = absurd (let g = sym e ∙ b.joining in cc)

-- A step that can be taken: of the thread of the pool, and of the event loop if no task runs.
progress : (s : Shared) (f : Filler) → s.filler ≡ f → IsStopping s → (t : Shared) × Step s t
progress s off e b = (_, call (stop_joins b.joining e))
progress s testing e b = (_, fill (told_to_stop e b.cleared))
progress s measuring e b = (_, fill (has_enough e))
progress s locking e b = elim (Bool-cases s.lock) [
  | inl l ↦ absurd (let g = sym e ∙ b.own_lock l in cc)
  | inr l ↦ (_, fill (locks e l))
]
progress s reading e b = (_, fill (reads e))
progress s ending e b = elim (Bool-cases s.eor) [
  | inl l ↦ (_, fill (ends e l))
  | inr l ↦ (_, fill (repeats e l))
]

after :
    (n : ℕ) (s : Shared)
    → rank s.filler ≤ n
    → IsStopping s
    → ((t : Shared) → rank t.filler < n → IsStopping t → Always (λ u. u.caller ≡ returned) t)
    → (t : Shared) → Step s t
    → Always (λ u. u.caller ≡ returned) t
after n s k b h t (fill f) = let r = Fill-IsStopping s t b f in h t (omega (arith, k, r.1)) r.0
after n s k b h t (call f) = now (Call-IsStopping s t b f)

returns_within :
    (n : ℕ) (s : Shared) → rank s.filler ≤ n → IsStopping s → Always (λ u. u.caller ≡ returned) s
returns_within zero s k b =
    let p = progress s s.filler refl b in
    soon (p.0) (p.1) (after zero s k b (λ t l c. absurd (omega (arith, l))))
returns_within (suc n) s k b =
    let p = progress s s.filler refl b in
    soon (p.0) (p.1) (after (suc n) s k b (λ t l c. returns_within n t (omega (arith, l)) c))

-- Once `r_stop_fill` has cleared `fill_pool`, it returns, however the threads are scheduled and
-- whatever the demuxer reads, if nobody but the thread of the pool holds the lock.
pub stop_returns : (s : Shared) → IsStopping s → Always (λ u. u.caller ≡ returned) s
stop_returns s b = returns_within (rank s.filler) s (omega arith) b
