-- ===== src/Sync/Retry/Budget.antt =====
-- How a retried upload ends, and how long it pauses in all.
use weighing_data_sync.Prelude.{
  ℕ, zero, suc, ◌+◌, ◌-◌, ◌≤◌, ◌≡◌, refl, max, some, List, [], ◌∷◌, arith, ◌⊎◌, inl, inr,
  Option-cases,
}
use weighing_data_sync.Anyhow.{Error, Result, ok, err}
use weighing_data_sync.Sync.Error.{UploadError, transient, permanent}
use weighing_data_sync.Sync.Retry.{
  Timer, Notice, Report, done, again, next_delay, settle, note, retry_loop, retry_transient,
  retry_fuel, min_retry_delay,
}
use weighing_data_sync.Sync.Retry.Laws.{
  IsTimer, Passes, Round-cases, settle_again, retry_loop-done, retry_loop-again,
}

-- The pauses together.
abbrev pub total_delay : List Notice → ℕ
total_delay [] = 0
total_delay (n ∷ ns) = n.delay + total_delay ns

-- How a report with `result` and the state `final` can come about.
abbrev pub Ended :
    {A S : Type 0} (timer : Timer S) (operation : S → Result UploadError A × S)
    (max_elapsed started_at : ℕ)
    → Result Error A
    → S
    → Type 0
Ended {S} timer operation max_elapsed started_at (ok v) final =
    (s : S) × (operation s ≡ (ok v, final))
Ended {S} timer operation max_elapsed started_at (err e) final =
    (s : S) × ((operation s ≡ (err (permanent e), final))
      ⊎ ((operation s ≡ (err (transient e), final)) × (max_elapsed ≤ timer.now final - started_at)))

module _ {A S : Type 0} (timer : Timer S) (operation : S → Result UploadError A × S) where
  settle_done :
      (max_elapsed started_at delay : ℕ) (s : S) (a : Result UploadError A × S) (r : Result Error A)
      {s' : S}
      → operation s ≡ a
      → settle timer operation max_elapsed started_at delay a ≡ done r s'
      → Ended timer operation max_elapsed started_at r s'
  unfolding settle
  settle_done max_elapsed started_at delay s (ok v, t) (ok w) e h = (s, ground arith)
  settle_done max_elapsed started_at delay s (ok v, t) (err x) e h = cc
  settle_done max_elapsed started_at delay s (err (permanent x), t) (ok w) e h = cc
  settle_done max_elapsed started_at delay s (err (permanent x), t) (err y) e h =
      (s, inl (ground arith))
  settle_done max_elapsed started_at delay s (err (transient x), t) (ok w) e h = ground arith
  settle_done max_elapsed started_at delay s (err (transient x), t) (err y) e h =
      (s, inr (ground arith, ground arith))

  module _ (max_delay max_elapsed started_at : ℕ) where
    -- The two ways in which the loop returns.
    pub retry_loop_cases :
        (fuel delay : ℕ) (s : S) {r : Report A S}
        → retry_loop timer operation (suc fuel) max_delay max_elapsed started_at delay s ≡ some r
        → ((x : Result Error A) × (s' : S) × (settle timer operation max_elapsed started_at delay
                (operation s)
              ≡ done x s')
            × (r ≡ record { result = x; notices = []; final = s' }))
          ⊎ ((n : Notice) × (s' : S) × (r' : Report A S) × (settle timer operation max_elapsed
                  started_at delay
                  (operation s)
                ≡ again n s')
              × (retry_loop timer operation fuel max_delay max_elapsed started_at
                    (next_delay max_delay delay)
                    s'
                  ≡ some r')
              × (r ≡ note timer operation n r'))
    retry_loop_cases fuel delay s {r} h =
        elim (Round-cases (settle timer operation max_elapsed started_at delay (operation s))) [
          | inl (x, s', e) ↦
              let q =
                retry_loop-done timer operation max_delay max_elapsed started_at delay s fuel e in
              inl (x, s', e, cc)
          | inr (n, s', e) ↦
              let q =
                retry_loop-again timer operation max_delay max_elapsed started_at delay s fuel e in
              elim (Option-cases (
                retry_loop timer operation fuel max_delay max_elapsed started_at
                  (next_delay max_delay delay) s')) [
                    | inl out ↦ ground (arith, q, out)
                    | inr (r', rest) ↦ inr (n, s', r', e, rest, ground (arith, q, rest))
                  ]
        ]

    retry_loop-Ended :
        (fuel delay : ℕ) (s : S) (r : Report A S)
        → retry_loop timer operation fuel max_delay max_elapsed started_at delay s ≡ some r
        → Ended timer operation max_elapsed started_at r.result r.final
    unfolding retry_loop
    retry_loop-Ended zero delay s r h = cc
    retry_loop-Ended (suc fuel) delay s r h = elim (retry_loop_cases fuel delay s h) [
      | inl (x, s', e, shape) ↦
          rw shape (settle_done max_elapsed started_at delay s (operation s) x refl e)
      | inr (n, s', r', e, rest, shape) ↦
          rw shape (retry_loop-Ended fuel (next_delay max_delay delay) s' r' rest)
    ]

    module _ (clock : IsTimer timer) (passes : Passes timer operation) where
      total_delay_le :
          (fuel delay : ℕ) (s : S) (r : Report A S)
          → started_at ≤ timer.now s
          → retry_loop timer operation fuel max_delay max_elapsed started_at delay s ≡ some r
          → total_delay r.notices ≤ max_elapsed - (timer.now s - started_at)
      unfolding retry_loop
      total_delay_le zero delay s r t h = cc
      total_delay_le (suc fuel) delay s r t h = elim (retry_loop_cases fuel delay s h) [
        | inl (x, s', e, shape) ↦ rw shape (omega arith)
        | inr (n, s', r', e, rest, shape) ↦
            let (within, paused, slept) =
              settle_again timer operation max_elapsed started_at delay (operation s) e in
            let woke : timer.now (operation s).1 + n.delay ≤ timer.now s' =
              rw slept (clock.sleeps n.delay (operation s).1) in
            let later =
              total_delay_le fuel (next_delay max_delay delay) s' r' (omega (arith, passes.later s))
                rest in
            rw shape (omega (arith, passes.later s))
      ]

module _ {A S : Type 0} (timer : Timer S) (operation : S → Result UploadError A × S) where
  -- A retried upload succeeds only with the value that the endpoint's last answer gave, and fails
  -- only with the error of the last answer: a permanent one, or a transient one that came when the
  -- budget of `max_elapsed` was spent.
  pub retry_transient-Ended :
      (initial_delay max_delay max_elapsed : ℕ) (s : S) (r : Report A S)
      → retry_transient timer operation initial_delay max_delay max_elapsed s ≡ some r
      → Ended timer operation max_elapsed (timer.now s) r.result r.final
  unfolding retry_transient
  retry_transient-Ended initial_delay max_delay max_elapsed s r h =
      let delay = max initial_delay min_retry_delay in
      retry_loop-Ended timer operation (max max_delay delay) max_elapsed (timer.now s)
        (retry_fuel timer operation max_elapsed) delay s r h

  -- The pauses between the attempts never add up to more than the budget, given a clock that does
  -- not run backwards and a `sleep` that lasts at least as long as asked.
  pub retry_transient-total_delay :
      IsTimer timer
      → Passes timer operation
      → (initial_delay max_delay max_elapsed : ℕ) (s : S) (r : Report A S)
      → retry_transient timer operation initial_delay max_delay max_elapsed s ≡ some r
      → total_delay r.notices ≤ max_elapsed
  unfolding retry_transient
  retry_transient-total_delay clock passes initial_delay max_delay max_elapsed s r h =
      let delay = max initial_delay min_retry_delay in
      let bound =
        total_delay_le timer operation (max max_delay delay) max_elapsed (timer.now s) clock passes
          (retry_fuel timer operation max_elapsed) delay s r (omega arith) h in
      omega arith
