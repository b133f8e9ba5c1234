-- ===== src/Resource/Pausing.antt =====
-- The wait of `r_pause` for the thread of the pool (resource.c), under the lock that this thread takes.
use is_rtsp_server.Base.{true, false, ◌≡◌, ◌≢◌, ◌⊎◌, inl, inr, refl, sym, ◌∙◌}
use is_rtsp_server.Resource.Threads.{
  testing, locking, Caller, called, pause_clearing, pause_joining, returned, Shared, Fill, starts,
  told_to_stop, goes_on, has_enough, wants_more, locks, reads, reads_end, ends, repeats, Call,
  paused_already, pauses, pause_locks, pause_clears, pause_joins, pause_unlocks, stopped_already,
  stops, stop_clears, stop_joins, fill, call, Reach, here, next, IsStuck,
}

-- The thread of the pool is before the lock, which `r_pause` holds.
pub record IsBlocked (s : Shared) : Type 0 where
  pub before : s.filler ≡ locking
  pub held : s.lock ≡ true
  pub pausing : (s.caller ≡ pause_clearing) ⊎ (s.caller ≡ pause_joining)

Fill-IsBlocked : (s t : Shared) → IsBlocked s → Fill s t → ⊥
Fill-IsBlocked s _ b (starts e f) = let g = sym e ∙ b.before in cc
Fill-IsBlocked s _ b (told_to_stop e f) = let g = sym e ∙ b.before in cc
Fill-IsBlocked s _ b (goes_on e f) = let g = sym e ∙ b.before in cc
Fill-IsBlocked s _ b (has_enough e) = let g = sym e ∙ b.before in cc
Fill-IsBlocked s _ b (wants_more e) = let g = sym e ∙ b.before in cc
Fill-IsBlocked s _ b (locks e f) = let g = sym f ∙ b.held in cc
Fill-IsBlocked s _ b (reads e) = let g = sym e ∙ b.before in cc
Fill-IsBlocked s _ b (reads_end e) = let g = sym e ∙ b.before in cc
Fill-IsBlocked s _ b (ends e f) = let g = sym e ∙ b.before in cc
Fill-IsBlocked s _ b (repeats e f) = let g = sym e ∙ b.before in cc

other :
    {A : Type 0} {c : Caller} {x : Caller}
    → (c ≡ pause_clearing) ⊎ (c ≡ pause_joining)
    → c ≡ x
    → x ≢ pause_clearing
    → x ≢ pause_joining
    → A
other (inl e) f g h = absurd (g (sym f ∙ e))
other (inr e) f g h = absurd (h (sym f ∙ e))

Call-IsBlocked : (s t : Shared) → IsBlocked s → Call s t → IsBlocked t
Call-IsBlocked s _ b (paused_already e f) = other b.pausing e (λ h. cc) (λ h. cc)
Call-IsBlocked s _ b (pauses e f) = other b.pausing e (λ h. cc) (λ h. cc)
Call-IsBlocked s _ b (pause_locks e f) = other b.pausing e (λ h. cc) (λ h. cc)
Call-IsBlocked s _ b (pause_clears e) = record {
  before = b.before;
  held = b.held;
  pausing = inr refl;
}
Call-IsBlocked s _ b (pause_joins e f) = absurd (let g = sym f ∙ b.before in cc)
Call-IsBlocked s _ b (pause_unlocks e) = other b.pausing e (λ h. cc) (λ h. cc)
Call-IsBlocked s _ b (stopped_already e f) = other b.pausing e (λ h. cc) (λ h. cc)
Call-IsBlocked s _ b (stops e f) = other b.pausing e (λ h. cc) (λ h. cc)
Call-IsBlocked s _ b (stop_clears e) = other b.pausing e (λ h. cc) (λ h. cc)
Call-IsBlocked s _ b (stop_joins e f) = other b.pausing e (λ h. cc) (λ h. cc)

Reach-IsBlocked : (s t : Shared) → IsBlocked s → Reach s t → IsBlocked t
Reach-IsBlocked s _ b here = b
Reach-IsBlocked s _ b (next {t} {u} r (fill f)) =
    absurd (Fill-IsBlocked t u (Reach-IsBlocked s t b r) f)
Reach-IsBlocked s _ b (next {t} {u} r (call f)) = Call-IsBlocked t u (Reach-IsBlocked s t b r) f

-- Once `r_pause` has the lock while the thread of the pool is before it, `r_pause` never returns,
-- however the two are scheduled.
pub pause_never_returns : (s t : Shared) → IsBlocked s → Reach s t → t.caller ≢ returned
pause_never_returns s t b r e = other (Reach-IsBlocked s t b r).pausing e (λ h. cc) (λ h. cc)

IsBlocked-IsStuck : (s : Shared) → IsBlocked s → s.caller ≡ pause_joining → IsStuck s
IsBlocked-IsStuck s b j t (fill f) = Fill-IsBlocked s t b f
IsBlocked-IsStuck s b j _ (call (pause_joins e f)) = let g = sym f ∙ b.before in cc
IsBlocked-IsStuck s b j _ (call (paused_already e f)) = let g = sym e ∙ j in cc
IsBlocked-IsStuck s b j _ (call (pauses e f)) = let g = sym e ∙ j in cc
IsBlocked-IsStuck s b j _ (call (pause_locks e f)) = let g = sym e ∙ j in cc
IsBlocked-IsStuck s b j _ (call (pause_clears e)) = let g = sym e ∙ j in cc
IsBlocked-IsStuck s b j _ (call (pause_unlocks e)) = let g = sym e ∙ j in cc
IsBlocked-IsStuck s b j _ (call (stopped_already e f)) = let g = sym e ∙ j in cc
IsBlocked-IsStuck s b j _ (call (stops e f)) = let g = sym e ∙ j in cc
IsBlocked-IsStuck s b j _ (call (stop_clears e)) = let g = sym e ∙ j in cc
IsBlocked-IsStuck s b j _ (call (stop_joins e f)) = let g = sym e ∙ j in cc

-- A call of `r_pause` while a task of the pool runs can end in a deadlock: if the thread of the pool
-- is at its first test and the lock is free, a schedule leads to a state in which neither thread can
-- go on and the call has not returned.
pub pause_deadlocks :
    (s : Shared)
    → s.caller ≡ called
    → s.filler ≡ testing
    → s.pool ≡ true
    → s.lock ≡ false
    → (t : Shared) × Reach s t × IsStuck t × (t.caller ≢ returned)
pause_deadlocks s c f p l =
    let a =
      next (next (next here (fill (goes_on f p))) (fill (wants_more refl))) (call (pauses c p)) in
    let b = next (next a (call (pause_locks refl l))) (call (pause_clears refl)) in
    (
      _,
      b,
      IsBlocked-IsStuck _ (record { before = refl; held = refl; pausing = inr refl }) refl,
      λ h. cc,
    )
