-- ===== src/Sync/Retry/Attempts.antt =====
-- The attempts of a retried upload, one after another, and why each was the last or was not.
use weighing_data_sync.Prelude.{
  ℕ, zero, suc, ◌-◌, ◌≤◌, ◌<◌, ◌≡◌, refl, max, some, List, [], ◌∷◌, arith, inl, inr, Bool-cases,
  leb, subst,
}
use weighing_data_sync.Anyhow.{Error, Result, ok, err}
use weighing_data_sync.Sync.Error.{UploadError, transient, permanent}
use weighing_data_sync.Sync.Retry.{
  Timer, Notice, Report, Round, done, again, next_delay, settle, retry_loop, retry_transient,
  retry_fuel, min_retry_delay,
}
use weighing_data_sync.Sync.Retry.Budget.{retry_loop_cases}

module _ {A S : Type 0} (timer : Timer S) (operation : S → Result UploadError A × S)
    (max_elapsed started_at : ℕ) where
  -- The attempts from one state on: the result, the notices and the state at the end. An attempt is
  -- the last one when it succeeds, when its error is permanent, or when the budget is spent. Only an
  -- attempt with a transient error that leaves some of the budget is followed by another, after a
  -- notice of that error and a pause.
  pub data Attempts : S → Result Error A → List Notice → S → Type 0 where
    succeeded : {s s' : S} {v : A} → operation s ≡ (ok v, s') → Attempts s (ok v) [] s'
    refused :
        {s s' : S} {e : Error} → operation s ≡ (err (permanent e), s') → Attempts s (err e) [] s'
    spent :
        {s s' : S} {e : Error}
        → operation s ≡ (err (transient e), s')
        → max_elapsed ≤ timer.now s' - started_at
        → Attempts s (err e) [] s'
    retried :
        {s s' t : S} {n : Notice} {ns : List Notice} {r : Result Error A}
        → operation s ≡ (err (transient n.error), s')
        → timer.now s' - started_at < max_elapsed
        → Attempts (timer.sleep n.delay s') r ns t
        → Attempts s r (n ∷ ns) t

  -- What one round of the loop says of its attempt.
  Attempted : S → Round A S → Type 0
  Attempted s (done r t) = Attempts s r [] t
  Attempted s (again n t) =
      (s' : S) × (operation s ≡ (err (transient n.error), s'))
      × (timer.now s' - started_at < max_elapsed)
      × (t ≡ timer.sleep n.delay s')

  settle-Attempted :
      (delay : ℕ) (s : S) (a : Result UploadError A × S)
      → operation s ≡ a
      → Attempted s (settle timer operation max_elapsed started_at delay a)
  unfolding settle Attempted
  settle-Attempted delay s (ok v, t) e = succeeded e
  settle-Attempted delay s (err (permanent x), t) e = refused e
  settle-Attempted delay s (err (transient x), t) e =
      elim (Bool-cases (leb max_elapsed (timer.now t - started_at))) [
        | inl over ↦ rw (settle, over) (spent e (ground arith))
        | inr under ↦ rw (settle, under) (t, e, ground arith, refl)
      ]

  retry_loop-Attempts :
      (max_delay fuel delay : ℕ) (s : S) (r : Report A S)
      → retry_loop timer operation fuel max_delay max_elapsed started_at delay s ≡ some r
      → Attempts s r.result r.notices r.final
  unfolding retry_loop Attempted
  retry_loop-Attempts max_delay zero delay s r h = cc
  retry_loop-Attempts max_delay (suc fuel) delay s r h =
      let round = settle-Attempted delay s (operation s) refl in
      elim (retry_loop_cases timer operation max_delay max_elapsed started_at fuel delay s h) [
        | inl (x, s', e, shape) ↦ rw shape (subst (Attempted s) e round)
        | inr (n, s', r', e, rest, shape) ↦
            let (t, failed, early, slept) = subst (Attempted s) e round in
            let later =
              retry_loop-Attempts max_delay fuel (next_delay max_delay delay) s' r' rest in
            rw shape (
              retried failed early
                (subst (λ s'. Attempts s' r'.result r'.notices r'.final) slept later))
      ]

module _ {A S : Type 0} (timer : Timer S) (operation : S → Result UploadError A × S) where
  -- The attempts of a retried upload: an attempt that succeeds or fails with a permanent error is the
  -- last one and gives the result, and so does the first transient error that comes when the budget
  -- of `max_elapsed` is spent. Every other transient error is told to `notify`, followed by the pause
  -- told with it and by the next attempt. So the notices are the retried errors in order, and no
  -- permanent error is retried.
  pub retry_transient-Attempts :
      (initial_delay max_delay max_elapsed : ℕ) (s : S) (r : Report A S)
      → retry_transient timer operation initial_delay max_delay max_elapsed s ≡ some r
      → Attempts timer operation max_elapsed (timer.now s) s r.result r.notices r.final
  unfolding retry_transient
  retry_transient-Attempts initial_delay max_delay max_elapsed s r h =
      let delay = max initial_delay min_retry_delay in
      retry_loop-Attempts timer operation max_elapsed (timer.now s) (max max_delay delay)
        (retry_fuel timer operation max_elapsed) delay s r h
