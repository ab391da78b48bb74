-- ===== src/Sync/Retry/Backoff.antt =====
-- The pauses of a retried upload grow exponentially up to the cap.
use native.Mathlib.Decide.{dec_le}
use weighing_data_sync.Prelude.{
  ℕ, zero, suc, ◌+◌, ◌-◌, ◌*◌, ◌≤◌, ◌<◌, ◌≡◌, min, max, some, List, [], ◌∷◌, arith, ◌⊎◌, inl, inr,
}
use weighing_data_sync.Anyhow.{Result}
use weighing_data_sync.Sync.Error.{UploadError}
use weighing_data_sync.Sync.Retry.{
  Timer, Notice, Report, next_delay, double, retry_loop, retry_transient, retry_fuel,
  min_retry_delay, max_duration,
}
use weighing_data_sync.Sync.Retry.Laws.{IsTimer, Passes, settle_again}
use weighing_data_sync.Sync.Retry.Budget.{retry_loop_cases}

-- The pauses are `delay`, `delay * 2`, `delay * 4` and so on, each cut to `cap`; the last one may
-- be shorter, and none is zero.
abbrev pub BacksOff : ℕ → ℕ → List Notice → Type 0
BacksOff cap delay [] = Unit
BacksOff cap delay (n ∷ []) = (0 < n.delay) × (n.delay ≤ min delay cap)
BacksOff cap delay (n ∷ m ∷ ns) = (n.delay ≡ min delay cap) × BacksOff cap (delay * 2) (m ∷ ns)

next_delay-min :
    (cap delay : ℕ) → cap ≤ max_duration → next_delay cap (min delay cap) ≡ min (delay * 2) cap
unfolding next_delay double
next_delay-min cap delay h = ground arith

BacksOff-cons :
    (cap delay : ℕ) (n : Notice) (ns : List Notice)
    → 0 < n.delay
    → n.delay ≤ min delay cap
    → ((n.delay ≡ min delay cap) ⊎ (ns ≡ []))
    → BacksOff cap (delay * 2) ns
    → BacksOff cap delay (n ∷ ns)
BacksOff-cons cap delay n [] p q whole b = (p, q)
BacksOff-cons cap delay n (m ∷ ns) p q (inl e) b = (e, b)
BacksOff-cons cap delay n (m ∷ ns) p q (inr e) b = cc

-- A pause is whole, or the budget is spent when it ends.
pause_whole :
    (before after started budget delay pause : ℕ)
    → started ≤ before
    → pause ≡ min delay (budget - (before - started))
    → before + pause ≤ after
    → (pause ≡ delay) ⊎ (budget ≤ after - started)
pause_whole before after started budget delay pause t e woke =
    elim (dec_le delay (budget - (before - started))) [
      | yes p ↦ inl (omega arith)
      | no p ↦ inr (omega arith)
    ]

module _ {A S : Type 0} (timer : Timer S) (operation : S → Result UploadError A × S) where
  module _ (cap max_elapsed started_at : ℕ) (clock : IsTimer timer)
      (passes : Passes timer operation) where
    -- Once the budget is spent there is no further pause.
    spent_no_notice :
        (fuel delay : ℕ) (s : S) (r : Report A S)
        → max_elapsed ≤ timer.now s - started_at
        → retry_loop timer operation fuel cap max_elapsed started_at delay s ≡ some r
        → r.notices ≡ []
    unfolding retry_loop
    spent_no_notice zero delay s r spent h = cc
    spent_no_notice (suc fuel) delay s r spent h =
        elim (retry_loop_cases timer operation cap max_elapsed started_at fuel delay s h) [
          | inl (x, s', e, shape) ↦ rw shape
          | inr (n, s', r', e, rest, shape) ↦
              let early =
                settle_again timer operation max_elapsed started_at delay (operation s) e in
              absurd (omega (arith, early.0, passes.later s))
        ]

    retry_loop-BacksOff :
        (fuel delay : ℕ) (s : S) (r : Report A S)
        → cap ≤ max_duration
        → 0 < min delay cap
        → started_at ≤ timer.now s
        → retry_loop timer operation fuel cap max_elapsed started_at (min delay cap) s ≡ some r
        → BacksOff cap delay r.notices
    unfolding retry_loop
    retry_loop-BacksOff zero delay s r fits pos t h = cc
    retry_loop-BacksOff (suc fuel) delay s r fits pos t h =
        elim (retry_loop_cases timer operation cap max_elapsed started_at fuel (min delay cap) s
          h) [
            | inl (x, s', e, shape) ↦ rw shape tt
            | inr (n, s', r', e, rest, shape) ↦
                let (within, paused, slept) =
                  settle_again timer operation max_elapsed started_at (min delay cap) (operation s)
                    e in
                let woke : timer.now (operation s).1 + n.delay ≤ timer.now s' =
                  rw slept (clock.sleeps n.delay (operation s).1) in
                let rest' = rw (next_delay-min cap delay fits) at rest in
                rw shape (
                  BacksOff-cons cap delay n r'.notices (omega arith) (omega arith)
                    (elim (pause_whole _ _ _ _ _ _ (omega (arith, passes.later s)) paused woke) [
                      | inl e ↦ inl e
                      | inr spent ↦ inr (spent_no_notice fuel _ s' r' spent rest)
                    ])
                    (retry_loop-BacksOff fuel (delay * 2) s' r' fits (omega arith)
                      (omega (arith, passes.later s)) rest'))
          ]

  -- The pauses before the retries are the first delay, twice that, four times that and so on, each
  -- cut to the cap, where the first delay is `initial_delay` but at least `min_retry_delay`, and
  -- the cap is `max_delay` but at least the first delay; only the last pause may be shorter, and
  -- none is zero. The clock must not run backwards, `sleep` must last at least as long as asked,
  -- and the cap must be a duration.
  pub retry_transient-BacksOff :
      IsTimer timer
      → Passes timer operation
      → (initial_delay max_delay max_elapsed : ℕ) (s : S) (r : Report A S)
      → max max_delay (max initial_delay min_retry_delay) ≤ max_duration
      → retry_transient timer operation initial_delay max_delay max_elapsed s ≡ some r
      → BacksOff
          (max max_delay (max initial_delay min_retry_delay))
          (max initial_delay min_retry_delay)
          r.notices
  unfolding retry_transient
  retry_transient-BacksOff clock passes initial_delay max_delay max_elapsed s r fits h =
      let delay = max initial_delay min_retry_delay in
      let cap = max max_delay delay in
      let same : min delay cap ≡ delay = omega arith in
      retry_loop-BacksOff cap max_elapsed (timer.now s) clock passes
        (retry_fuel timer operation max_elapsed) delay s r fits (omega arith) (omega arith)
        (rw same h)
