-- ===== src/Sync/Retry.antt =====
-- sync/retry.rs: `retry_transient`, exponential backoff under a time budget.
-- A duration is its number of nanoseconds. The operation, the clock and `sleep` act on a state `S`
-- that the caller chooses; `notify` is told of each failed attempt, and the notices are returned.
pub mod Laws
pub mod Budget
pub mod Attempts
pub mod Backoff
use weighing_data_sync.Prelude.{
  ℕ, zero, suc, ◌+◌, ◌-◌, ◌*◌, ◌/◌, ◌^◌, min, max, leb, if◌then◌else◌, Option, none, some,
  option_map, List, [], ◌∷◌,
}
use weighing_data_sync.Anyhow.{Error, Result, ok, err}
use weighing_data_sync.Sync.Error.{UploadError, transient, permanent}

-- `Duration::MAX`: 2^64 - 1 seconds and 999_999_999 nanoseconds.
abbrev pub max_duration : ℕ
max_duration = (2 ^ 64 - 1) * 1_000_000_000 + 999_999_999

-- `checked_mul(2)` of a duration.
pub double : ℕ → Option ℕ
double d = if leb (d * 2) max_duration then some (d * 2) else none

-- `MIN_RETRY_DELAY`, a millisecond.
abbrev pub min_retry_delay : ℕ
min_retry_delay = 1_000_000

-- `Instant::now` and `tokio::time::sleep`.
pub record Timer (S : Type 0) : Type 0 where
  pub now : S → ℕ
  pub sleep : ℕ → S → S

-- A call of `notify`.
pub record Notice : Type 0 where
  pub error : Error
  pub delay : ℕ

-- How `retry_transient` ends: its result, the notices in order, and the state.
pub record Report (A S : Type 0) : Type 0 where
  pub result : Result Error A
  pub notices : List Notice
  pub final : S

-- One round of the loop: it returns, or sleeps and goes round again.
pub data Round (A S : Type 0) : Type 0 where
  done : Result Error A → S → Round A S
  again : Notice → S → Round A S

-- `delay.checked_mul(2).unwrap_or(max_delay).min(max_delay)`.
unfoldable pub next_delay : ℕ → ℕ → ℕ
unfolding double
next_delay max_delay delay = elim (double delay) [
  | some d ↦ min d max_delay
  | none ↦ min max_delay max_delay
]

module _ {A S : Type 0} (timer : Timer S) (operation : S → Result UploadError A × S) where
  -- What the loop does with the answer of `operation`.
  unfoldable pub settle : (max_elapsed started_at delay : ℕ) → Result UploadError A × S → Round A S
  settle max_elapsed started_at delay (ok value, s) = done (ok value) s
  settle max_elapsed started_at delay (err (permanent error), s) = done (err error) s
  settle max_elapsed started_at delay (err (transient error), s) =
      let elapsed = timer.now s - started_at in
      let sleep_for = min delay (max_elapsed - elapsed) in
      if leb max_elapsed elapsed
      then done (err error) s
      else again (record { error = error; delay = sleep_for }) (timer.sleep sleep_for s)

  abbrev pub note : Notice → Report A S → Report A S
  note n r = record r { notices = n ∷ r.notices }

  -- The loop on fuel; `none` means that the fuel ran out.
  pub retry_loop : ℕ → (max_delay max_elapsed started_at delay : ℕ) → S → Option (Report A S)
  retry_loop zero max_delay max_elapsed started_at delay s = none
  retry_loop (suc fuel) max_delay max_elapsed started_at delay s =
      elim (settle max_elapsed started_at delay (operation s)) [
        | done r s' ↦ some (record { result = r; notices = []; final = s' })
        | again n s' ↦
            option_map (note n)
              (retry_loop fuel max_delay max_elapsed started_at (next_delay max_delay delay) s')
      ]

  -- Every pause but a last one takes at least `min_retry_delay`, so this many rounds are enough.
  abbrev pub retry_fuel : ℕ → ℕ
  retry_fuel max_elapsed = max_elapsed / min_retry_delay + 2

  unfoldable pub retry_transient :
      (initial_delay max_delay max_elapsed : ℕ) → S → Option (Report A S)
  unfolding retry_loop
  retry_transient initial_delay max_delay max_elapsed s =
      let delay = max initial_delay min_retry_delay in
      retry_loop (retry_fuel max_elapsed) (max max_delay delay) max_elapsed (timer.now s) delay s
