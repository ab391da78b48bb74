-- ===== src/Tests/Retry.antt =====
-- Retries against a clock.
use weighing_data_sync.Prelude.{
  ℕ, ◌+◌, ◌≤◌, ◌≡◌, refl, ltb, if◌then◌else◌, max, some, [], ◌∷◌, codes, arith,
}
use weighing_data_sync.Anyhow.{msg, Result, ok, err}
use weighing_data_sync.Sync.Error.{UploadError, transient}
use weighing_data_sync.Sync.Retry.{Report, retry_transient, settle, next_delay, min_retry_delay}
use weighing_data_sync.Sync.Retry.Laws.{Passes, retry_transient_total}
use weighing_data_sync.Sync.Retry.Budget.{total_delay, retry_transient-total_delay}
use weighing_data_sync.Sync.Retry.Attempts.{Attempts, retry_transient-Attempts}
use weighing_data_sync.Sync.Retry.Backoff.{BacksOff, retry_transient-BacksOff}
use weighing_data_sync.Tests.Sample.{clock, clock-IsTimer}

-- An endpoint that is down until 10 milliseconds have passed; a call takes a millisecond.
abbrev down : ℕ → Result UploadError (Unit {0}) × ℕ
down s = (if ltb s 10_000_000 then err (transient (msg (codes "down"))) else ok tt, s + 1_000_000)

down-Passes : Passes clock down
down-Passes = record { later = λ s. omega arith }

abbrev report : Report (Unit {0}) ℕ
report = record {
  result = ok tt;
  notices =
      record { error = msg (codes "down"); delay = 2_000_000 }
      ∷ record { error = msg (codes "down"); delay = 4_000_000 }
      ∷ record { error = msg (codes "down"); delay = 5_000_000 }
      ∷ [];
  final = 15_000_000;
}

run : retry_transient clock down 2_000_000 5_000_000 50_000_000 0 ≡ some report
unfolding retry_transient settle next_delay
run = refl

retry_transient_total_example :
    (r : Report (Unit {0}) ℕ) × (retry_transient clock down 2_000_000 5_000_000 50_000_000 0
      ≡ some r)
retry_transient_total_example =
    retry_transient_total clock down clock-IsTimer down-Passes 2_000_000 5_000_000 50_000_000 0

retry_transient-Attempts_example :
    Attempts clock down 50_000_000 0 0 (ok tt) report.notices 15_000_000
retry_transient-Attempts_example =
    retry_transient-Attempts clock down 2_000_000 5_000_000 50_000_000 0 report run

retry_transient-total_delay_example : total_delay report.notices ≤ 50_000_000
retry_transient-total_delay_example =
    retry_transient-total_delay clock down clock-IsTimer down-Passes 2_000_000 5_000_000 50_000_000
      0 report run

retry_transient-BacksOff_example :
    BacksOff
      (max 5_000_000 (max 2_000_000 min_retry_delay))
      (max 2_000_000 min_retry_delay)
      report.notices
retry_transient-BacksOff_example =
    retry_transient-BacksOff clock down clock-IsTimer down-Passes 2_000_000 5_000_000 50_000_000 0
      report (omega arith) run
