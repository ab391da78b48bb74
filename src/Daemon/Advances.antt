-- ===== src/Daemon/Advances.antt =====
-- The jobs of the scheduler exclude each other and never block.
use weighing_data_sync.Prelude.{
  ℕ, suc, ◌≡◌, refl, sym, ◌∙◌, ap, subst, ◌⊎◌, inl, inr, Bool, true, false, Bool-cases, not, List,
  [], ◌∷◌, ◌++◌, any, keep, length, arith,
}
use weighing_data_sync.Daemon.{Machine, AppEngine}
use weighing_data_sync.Daemon.Scheduler.{
  Job, waiting, running, finished, Schedule, is_running, is_finished, Step, locks, ends, Reachable,
  Runs, none_yet, another, holders, Exclusive, Reachable-Exclusive, length-keep-middle, WellFormed,
  sync_once_returns,
}

-- Where an element is that passes the test.
find :
    (p : Job → Bool) (jobs : List Job)
    → any p jobs ≡ true
    → (before : List Job) × (j : Job) × (after : List Job) × (jobs ≡ before ++ j ∷ after)
      × (p j ≡ true)
find p [] h = absurd cc
find p (j ∷ jobs) h = elim (Bool-cases (p j)) [
  | inl here ↦ ([], j, jobs, refl, here)
  | inr not_here ↦
      let later : any p jobs ≡ true = ground (arith, h, not_here) in
      let (before, k, after, split, found) = find p jobs later in
      (j ∷ before, k, after, ap (λ l. j ∷ l) split, found)
]

any-keep : (p : Job → Bool) (jobs : List Job) → any p jobs ≡ false → length (keep p jobs) ≡ 0
any-keep p [] h = refl
any-keep p (j ∷ jobs) h = elim (Bool-cases (p j)) [
  | inl here ↦ absurd (found here)
  | inr not_here ↦
      let later : any p jobs ≡ false = ground (arith, h, not_here) in
      rw not_here (any-keep p jobs later)
]
  where
    found : p j ≡ true → ⊥
    found here = ground (arith, h, here)

abbrev pub is_unfinished : Job → Bool
is_unfinished j = not (is_finished j)

running_job : (j : Job) → is_running j ≡ true → j ≡ running
running_job waiting h = absurd cc
running_job running h = refl
running_job (finished r) h = absurd cc

unfinished_job : (j : Job) → is_unfinished j ≡ true → (j ≡ running) ⊎ (j ≡ waiting)
unfinished_job waiting h = inr refl
unfinished_job running h = inl refl
unfinished_job (finished r) h = absurd cc

module _ {Body S : Type 0} (engine : AppEngine Body S) where
  Runs-WellFormed :
      (m : Machine S) (n : ℕ) (m' : Machine S)
      → WellFormed engine m
      → Runs engine m n m'
      → WellFormed engine m'
  Runs-WellFormed m n m' h none_yet = h
  Runs-WellFormed m n m' h (another {m' = before} runs returned) =
      let (r, after, same, kept) =
        sync_once_returns engine before (Runs-WellFormed m _ before h runs) in
      let both = sym same ∙ returned in
      let there : after ≡ m' = cc in subst (WellFormed engine) there kept

  -- A step of a job that is there.
  abbrev pub Advances : Schedule S → Type 0
  Advances s = (s' : Schedule S) × Step engine s s' × (length s'.jobs ≡ length s.jobs)

  length-middle :
      (before after : List Job) (j k : Job)
      → length (before ++ j ∷ after) ≡ length (before ++ k ∷ after)
  length-middle [] after j k = refl
  length-middle (x ∷ before) after j k = ap suc (length-middle before after j k)

  advance_running :
      (s : Schedule S) → WellFormed engine s.machine → any is_running s.jobs ≡ true → Advances s
  advance_running s h busy =
      let (before, j, after, split, found) = find is_running s.jobs busy in
      let (r, m', returned, _) = sync_once_returns engine s.machine h in
      let jobs : s.jobs ≡ before ++ running ∷ after =
        split ∙ ap (λ k. before ++ k ∷ after) (running_job j found) in
      rw jobs (
        record { jobs = before ++ finished r ∷ after; locked = false; machine = m' },
        ends before after s.locked s.machine m' r returned,
        length-middle before after (finished r) running,
      )

  advance_unlocked :
      (s : Schedule S)
      → s.locked ≡ false
      → any is_running s.jobs ≡ false
      → any is_unfinished s.jobs ≡ true
      → Advances s
  advance_unlocked s free idle left =
      let (before, j, after, split, found) = find is_unfinished s.jobs left in
      elim (unfinished_job j found) [
        | inl runs ↦ absurd (none_runs before j after split runs)
        | inr waits ↦
            let jobs : s.jobs ≡ before ++ waiting ∷ after =
              split ∙ ap (λ k. before ++ k ∷ after) waits in
            rw (jobs, free)
              (
                record { jobs = before ++ running ∷ after; locked = true; machine = s.machine },
                locks before after s.machine,
                length-middle before after running waiting,
              )
      ]
    where
      none_runs :
          (before : List Job) (j : Job) (after : List Job)
          → s.jobs ≡ before ++ j ∷ after
          → j ≡ running
          → ⊥
      none_runs before j after split runs =
          let jobs : s.jobs ≡ before ++ running ∷ after =
            split ∙ ap (λ k. before ++ k ∷ after) runs in
          omega (
            arith,
            any-keep is_running s.jobs idle,
            ap (λ l. length (keep is_running l)) jobs,
            length-keep-middle engine is_running before after running,
          )

  -- However the cron expression fires: of the jobs at most one runs a cycle, and one does exactly
  -- while the lock is held; what the machine has become is what as many cycles, one after another,
  -- leave as there are finished jobs; and while a job is unfinished, some job can take its next step,
  -- to the lock or to its end. The engine must be well-formed on the machine.
  pub scheduler_lem :
      (m : Machine S) (s : Schedule S)
      → WellFormed engine m
      → Reachable engine m s
      → Exclusive engine m s × (any is_unfinished s.jobs ≡ true → Advances s)
  scheduler_lem m s h reach =
      let (one, runs) = Reachable-Exclusive engine m s reach in
      let here = Runs-WellFormed m _ s.machine h runs in
      (
        (one, runs),
        λ left. elim (Bool-cases (any is_running s.jobs)) [
          | inl busy ↦ advance_running s here busy
          | inr idle ↦ elim (Bool-cases s.locked) [
            | inl held ↦
                let lock = ap holders held in
                absurd (omega (arith, one, lock, any-keep is_running s.jobs idle))
            | inr free ↦ advance_unlocked s free idle left
          ]
        ],
      )
