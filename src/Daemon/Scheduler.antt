-- ===== src/Daemon/Scheduler.antt =====
-- main.rs: the jobs of the scheduler, which share the engine under a lock. A job is started whenever
-- the cron expression fires, waits for the lock, runs a cycle and gives the lock back.
use weighing_data_sync.Prelude.{
  ℕ, suc, ◌+◌, ◌≤◌, ◌≡◌, refl, sym, ◌∙◌, ap, subst, inl, inr, Bool, true, false, Bool-cases,
  if◌then◌else◌, some, List, [], ◌∷◌, ◌++◌, keep, length, length-keep-append, arith,
}
use weighing_data_sync.Anyhow.{Error, Result}
use weighing_data_sync.Sync.{SyncOutcome}
use weighing_data_sync.Db.Models.{WeighingRecord}
use weighing_data_sync.Db.Store.{Holds}
use weighing_data_sync.Db.Connect.{pool_of}
use weighing_data_sync.Sync.Engine.Cycle as LocalCycle
use weighing_data_sync.Sync.Engine.Refines.{sync_once_refines}
use weighing_data_sync.Sync.SqlServerEngine.Cycle as SqlCycle
use weighing_data_sync.Sync.SqlServerEngine.Refines.{sync_once_follows}
use weighing_data_sync.Daemon.{
  Machine, AppEngine, local, sql_server, after_local, after_sql, sync_once,
}

pub data Job : Type 0 where
  waiting running : Job
  finished : Result Error SyncOutcome → Job

-- `locked` is whether the mutex is held.
pub record Schedule (S : Type 0) : Type 0 where
  pub jobs : List Job
  pub locked : Bool
  pub machine : Machine S

abbrev pub is_running : Job → Bool
is_running running = true
is_running _ = false

abbrev pub is_finished : Job → Bool
is_finished (finished r) = true
is_finished _ = false

-- How many jobs hold the lock.
abbrev pub holders : Bool → ℕ
holders true = 1
holders false = 0

module _ {Body S : Type 0} (engine : AppEngine Body S) where
  -- What can happen next.
  pub data Step : Schedule S → Schedule S → Type 0 where
    fires : (s : Schedule S) → Step s (record s { jobs = s.jobs ++ waiting ∷ [] })
    locks :
        (before after : List Job) (m : Machine S)
        → Step
            (record { jobs = before ++ waiting ∷ after; locked = false; machine = m })
            (record { jobs = before ++ running ∷ after; locked = true; machine = m })
    ends :
        (before after : List Job) (locked : Bool) (m m' : Machine S) (r : Result Error SyncOutcome)
        → sync_once engine m ≡ some (r, m')
        → Step
            (record { jobs = before ++ running ∷ after; locked = locked; machine = m })
            (record { jobs = before ++ finished r ∷ after; locked = false; machine = m' })

  -- Every state that the jobs can get into from the machine on which the scheduler starts.
  pub data Reachable (m : Machine S) : Schedule S → Type 0 where
    start : Reachable m (record { jobs = []; locked = false; machine = m })
    next : {s s' : Schedule S} → Reachable m s → Step s s' → Reachable m s'

  -- So many cycles one after another.
  pub data Runs (m : Machine S) : ℕ → Machine S → Type 0 where
    none_yet : Runs m 0 m
    another :
        {n : ℕ} {m' m'' : Machine S} {r : Result Error SyncOutcome}
        → Runs m n m'
        → sync_once engine m' ≡ some (r, m'')
        → Runs m (suc n) m''

  abbrev pub Exclusive : Machine S → Schedule S → Type 0
  Exclusive m s =
      (length (keep is_running s.jobs) ≡ holders s.locked)
      × Runs m (length (keep is_finished s.jobs)) s.machine

  -- A job in the middle of the others.
  pub length-keep-middle :
      (p : Job → Bool) (before after : List Job) (j : Job)
      → length (keep p (before ++ j ∷ after))
        ≡ length (keep p (before ++ after)) + (if p j then 1 else 0)
  length-keep-middle p before after j = elim (Bool-cases (p j)) [
    | inl holds ↦ rw holds (
        omega (
          arith,
          length-keep-append p before (j ∷ after),
          length-keep-append p before after,
          counted holds,
        ))
    | inr fails ↦ rw fails (
        omega (
          arith,
          length-keep-append p before (j ∷ after),
          length-keep-append p before after,
          skipped fails,
        ))
  ]
    where
      counted : p j ≡ true → length (keep p (j ∷ after)) ≡ suc (length (keep p after))
      counted holds = rw holds

      skipped : p j ≡ false → length (keep p (j ∷ after)) ≡ length (keep p after)
      skipped fails = rw fails

  Step-Exclusive : (m : Machine S) (s s' : Schedule S) → Exclusive m s → Step s s' → Exclusive m s'
  Step-Exclusive m s s' (one, runs) (fires _) = (
    length-keep-append is_running s.jobs (waiting ∷ []) ∙ omega (arith, one),
    subst (λ n. Runs m n s.machine)
        (sym (length-keep-append is_finished s.jobs (waiting ∷ []) ∙ omega arith)) runs,
  )
  Step-Exclusive m s s' (one, runs) (locks before after m_1) = (
    omega (
      arith,
      one,
      length-keep-middle is_running before after waiting,
      length-keep-middle is_running before after running,
    ),
    subst (λ n. Runs m n m_1)
        (length-keep-middle is_finished before after waiting
          ∙ sym (length-keep-middle is_finished before after running))
        runs,
  )
  Step-Exclusive m s s' (one, runs) (ends before after locked m_1 m_2 r returned) = (
    omega (
      arith,
      one,
      at_most_one locked,
      length-keep-middle is_running before after running,
      length-keep-middle is_running before after (finished r),
    ),
    subst (λ n. Runs m n m_2)
        (omega (
          arith,
          length-keep-middle is_finished before after running,
          length-keep-middle is_finished before after (finished r),
        ))
        (another runs returned),
  )
    where
      at_most_one : (locked : Bool) → holders locked ≤ 1
      at_most_one true = omega arith
      at_most_one false = omega arith

  pub Reachable-Exclusive : (m : Machine S) (s : Schedule S) → Reachable m s → Exclusive m s
  Reachable-Exclusive m s start = (refl, none_yet)
  Reachable-Exclusive m s (next {s = t} reach step) =
      Step-Exclusive m t s (Reachable-Exclusive m t reach) step

-- What the engine relies on: the libraries and the clock behave as documented, and what the cache
-- holds was written for records.
abbrev pub WellFormed : {Body S : Type 0} → AppEngine Body S → Machine S → Type 0
WellFormed (local e) m =
    LocalCycle.IsEngine e × ((rs : List WeighingRecord) × Holds e.codec (pool_of m.host) rs)
WellFormed (sql_server e) m = SqlCycle.IsEngine e

module _ {Body S : Type 0} where
  -- A cycle returns.
  pub sync_once_returns :
      (engine : AppEngine Body S) (m : Machine S)
      → WellFormed engine m
      → (r : Result Error SyncOutcome) × (m' : Machine S) × (sync_once engine m ≡ some (r, m'))
        × WellFormed engine m'
  unfolding sync_once
  sync_once_returns (local e) m (lawful, (rs, held)) =
      let (r, w', rs', returned, held', _) =
        sync_once_refines e lawful (record { db = pool_of m.host; outside = m.outside }) rs held in
      (r, _, ap (after_local m) returned, (lawful, (rs', held')))
  sync_once_returns (sql_server e) m lawful =
      let (r, w', returned, _) =
        sync_once_follows e lawful (record { db = m.database; outside = m.outside }) in
      (r, _, ap (after_sql m) returned, lawful)
