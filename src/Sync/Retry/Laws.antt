-- ===== src/Sync/Retry/Laws.antt =====
-- What the retry loop relies on of the clock and of the operation, and that the loop ends.
use weighing_data_sync.Prelude.{
  ℕ, zero, suc, ◌+◌, ◌-◌, ◌*◌, ◌/◌, ◌≤◌, ◌<◌, ◌≡◌, refl, min, max, some, [], arith, ◌⊎◌, inl, inr,
  option_map, ap, ◌∙◌,
}
use weighing_data_sync.Anyhow.{Error, Result, ok, err}
use weighing_data_sync.Sync.Error.{UploadError, transient, permanent}
use weighing_data_sync.Sync.Retry.{
  Timer, Notice, Report, Round, done, again, next_delay, settle, note, retry_loop, retry_transient,
  min_retry_delay, double,
}

-- `Instant` is monotonic, and `sleep` returns no sooner than asked.
pub record IsTimer {S : Type 0} (timer : Timer S) : Type 0 where
  pub sleeps : (d : ℕ) (s : S) → timer.now s + d ≤ timer.now (timer.sleep d s)

-- The clock does not run backwards while the operation is under way.
pub record Passes {A S : Type 0} (timer : Timer S) (operation : S → Result UploadError A × S)
    : Type 0 where
  pub later : (s : S) → timer.now s ≤ timer.now (operation s).1

-- A delay never falls below the least one.
pub next_delay-ge :
    (max_delay delay : ℕ)
    → min_retry_delay ≤ delay
    → delay ≤ max_delay
    → (min_retry_delay ≤ next_delay max_delay delay) × (next_delay max_delay delay ≤ max_delay)
unfolding next_delay double
next_delay-ge max_delay delay h k = ground arith

pub Round-cases :
    {A S : Type 0} (x : Round A S)
    → ((r : Result Error A) × (s : S) × (x ≡ done r s)) ⊎ ((n : Notice) × (s : S) × (x ≡ again n s))
Round-cases (done r s) = inl (r, s, refl)
Round-cases (again n s) = inr (n, s, refl)

module _ {A S : Type 0} (timer : Timer S) (operation : S → Result UploadError A × S) where
  -- The round with its premises: what `again` says of the state and of the notice.
  pub settle_again :
      (max_elapsed started_at delay : ℕ) (a : Result UploadError A × S) {n : Notice} {s' : S}
      → settle timer operation max_elapsed started_at delay a ≡ again n s'
      → (timer.now a.1 - started_at < max_elapsed)
        × (n.delay ≡ min delay (max_elapsed - (timer.now a.1 - started_at)))
        × (s' ≡ timer.sleep n.delay a.1)
  unfolding settle
  settle_again max_elapsed started_at delay (ok v, s) h = cc
  settle_again max_elapsed started_at delay (err (permanent e), s) h = cc
  settle_again max_elapsed started_at delay (err (transient e), s) h = ground arith

  module _ (max_delay max_elapsed started_at delay : ℕ) (s : S) where
    pub retry_loop-done :
        (fuel : ℕ) {r : Result Error A} {s' : S}
        → settle timer operation max_elapsed started_at delay (operation s) ≡ done r s'
        → retry_loop timer operation (suc fuel) max_delay max_elapsed started_at delay s
          ≡ some (record { result = r; notices = []; final = s' })
    unfolding retry_loop
    retry_loop-done fuel e = rw (e, retry_loop)

    pub retry_loop-again :
        (fuel : ℕ) {n : Notice} {s' : S}
        → settle timer operation max_elapsed started_at delay (operation s) ≡ again n s'
        → retry_loop timer operation (suc fuel) max_delay max_elapsed started_at delay s
          ≡ option_map (note timer operation n) (
              retry_loop timer operation fuel max_delay max_elapsed started_at
                (next_delay max_delay delay)
                s')
    unfolding retry_loop
    retry_loop-again fuel e = rw (e, retry_loop)

  module _ (clock : IsTimer timer) (passes : Passes timer operation) where
    -- A round that goes again leaves less of the budget, by a least delay or all of it.
    pub again_spends :
        (max_elapsed started_at delay : ℕ) (s : S) {n : Notice} {s' : S}
        → min_retry_delay ≤ delay
        → started_at ≤ timer.now s
        → settle timer operation max_elapsed started_at delay (operation s) ≡ again n s'
        → (started_at ≤ timer.now s')
          × (min (timer.now s - started_at + min_retry_delay) max_elapsed
              ≤ timer.now s' - started_at)
          × (timer.now s - started_at < max_elapsed)
    again_spends max_elapsed started_at delay s {n} {s'} h t e =
        let (within, paused, slept) = settle_again max_elapsed started_at delay (operation s) e in
        let woke : timer.now (operation s).1 + n.delay ≤ timer.now s' =
          rw slept (clock.sleeps n.delay (operation s).1) in
        let passed = passes.later s in (omega arith, omega arith, omega arith)

    -- With enough fuel for what is left of the budget the loop returns.
    pub retry_loop_total :
        (fuel max_delay max_elapsed started_at delay : ℕ) (s : S)
        → min_retry_delay ≤ delay
        → delay ≤ max_delay
        → started_at ≤ timer.now s
        → max_elapsed ≤ (timer.now s - started_at) + fuel * min_retry_delay
        → (r : Report A S) × (retry_loop timer operation
              (suc fuel)
              max_delay
              max_elapsed
              started_at
              delay
              s
            ≡ some r)
    retry_loop_total zero max_delay max_elapsed started_at delay s h k t b =
        elim (Round-cases (settle timer operation max_elapsed started_at delay (operation s))) [
          | inl (r, s', e) ↦ (_, retry_loop-done max_delay max_elapsed started_at delay s zero e)
          | inr (n, s', e) ↦
              absurd (omega (arith, again_spends max_elapsed started_at delay s h t e))
        ]
    retry_loop_total (suc fuel) max_delay max_elapsed started_at delay s h k t b =
        elim (Round-cases (settle timer operation max_elapsed started_at delay (operation s))) [
          | inl (r, s', e) ↦
              (_, retry_loop-done max_delay max_elapsed started_at delay s (suc fuel) e)
          | inr (n, s', e) ↦
              let (started, spent, _) = again_spends max_elapsed started_at delay s h t e in
              let (least, most) = next_delay-ge max_delay delay h k in
              let (r, rest) =
                retry_loop_total fuel max_delay max_elapsed started_at (next_delay max_delay delay)
                  s' least most started (omega arith) in
              (
                note timer operation n r,
                retry_loop-again max_delay max_elapsed started_at delay s (suc fuel) e
                    ∙ ap (option_map (note timer operation n)) rest,
              )
        ]

-- The retry loop always returns, whatever the endpoint answers and however long a call takes:
-- `retry_transient` needs no more rounds than one for each `min_retry_delay` of the budget and two,
-- given a clock that does not run backwards and a `sleep` that lasts at least as long as asked.
pub retry_transient_total :
    {A S : Type 0} (timer : Timer S) (operation : S → Result UploadError A × S)
    → IsTimer timer
    → Passes timer operation
    → (initial_delay max_delay max_elapsed : ℕ) (s : S)
    → (r : Report A S) × (retry_transient timer operation initial_delay max_delay max_elapsed s
        ≡ some r)
unfolding retry_transient
retry_transient_total timer operation clock passes initial_delay max_delay max_elapsed s =
    let delay = max initial_delay min_retry_delay in
    rw (fuel_suc max_elapsed) (
      retry_loop_total timer operation clock passes (max_elapsed / min_retry_delay + 1)
        (max max_delay delay) max_elapsed (timer.now s) delay s (omega arith) (omega arith)
        (omega arith) (omega arith))
  where
    fuel_suc : (m : ℕ) → m / min_retry_delay + 2 ≡ suc (m / min_retry_delay + 1)
    fuel_suc m = omega arith
