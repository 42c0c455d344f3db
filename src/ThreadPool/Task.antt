-- ===== src/ThreadPool/Task.antt =====
-- codes/apue/threadpool/main.c: `print_task`, which sleeps for a minute and is woken by signals.
use ukgoll_github_io.Prelude.{zero, suc}
use ukgoll_github_io.Prelude.{
  ℕ, ◌+◌, ◌*◌, ◌≤◌, Bool, true, false, ◌&&◌, List, [], ◌∷◌, ◌++◌, ◌==◌, if◌then◌else◌,
}

-- `struct timespec`
pub record Timespec : Type 0 where
  pub tv_sec : ℕ
  pub tv_nsec : ℕ

abbrev pub nanos : Timespec → ℕ
nanos t = t.tv_sec * 1000000000 + t.tv_nsec

-- What `nanosleep` answers: 0, or -1 with what it stores in `lp`. The number is the time that has passed.
pub data Nanosleep : Type 0 where
  completed : ℕ → Nanosleep
  interrupted : ℕ → Timespec → Nanosleep

pub data Event : Type 0 where
  register_error : Event
  sleeps : ℕ → Event
  sleep_again : Event
  task_says : Event

-- A task that has used up its fuel sleeps on.
pub data TaskRun : Type 0 where
  asleep : List Event → TaskRun
  ended : List Event → TaskRun

abbrev pub minute : Timespec
minute = record { tv_sec = 60; tv_nsec = 0 }

-- `nanosleep` answers by the number of the call and the time it is asked for.
module _ (nanosleep : ℕ → Timespec → Nanosleep) where
  -- `while (nanosleep(&op, &lp) == -1)`, from the call with the number `i`.
  unfoldable pub sleep_loop : ℕ → ℕ → Timespec → List Event → TaskRun
  sleep_loop zero i op log = asleep log
  sleep_loop (suc fuel) i op log = elim (nanosleep i op) [
    | completed t ↦ ended (log ++ (sleeps t ∷ task_says ∷ []))
    | interrupted t lp ↦
        let op' : Timespec = record { tv_sec = lp.tv_sec; tv_nsec = lp.tv_nsec } in
        let rest = sleep_loop fuel (i + 1) op' (log ++ (sleeps t ∷ sleep_again ∷ [])) in
        if (lp.tv_sec == 0) && (lp.tv_nsec == 0)
        then ended (log ++ (sleeps t ∷ sleep_again ∷ task_says ∷ []))
        else rest
  ]

  unfoldable pub print_task : ℕ → Bool → TaskRun
  unfolding sleep_loop
  print_task fuel register_ok =
      if register_ok then sleep_loop fuel 0 minute [] else ended (register_error ∷ [])

-- The time that a task has slept.
abbrev pub slept : List Event → ℕ
slept [] = 0
slept (sleeps t ∷ log) = t + slept log
slept (_ ∷ log) = slept log

-- What `nanosleep` promises of a call that asks for `op`: the time passes, or it stores what is left.
abbrev pub Documented : Timespec → Nanosleep → Type 0
Documented op (completed t) = nanos op ≤ t
Documented op (interrupted t lp) = nanos op ≤ t + nanos lp

-- No signal comes in this call.
abbrev pub is_completed : Nanosleep → Bool
is_completed (completed t) = true
is_completed (interrupted t lp) = false
