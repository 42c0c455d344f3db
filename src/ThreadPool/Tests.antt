-- ===== src/ThreadPool/Tests.antt =====
-- A run of a pool with one worker, from its creation to the exit of the worker, and the theorems at
-- its states.
use ukgoll_github_io.Prelude.{none}
use ukgoll_github_io.Prelude.{
  ℕ, zero, suc, ◌+◌, ◌≡◌, ◌≢◌, refl, true, some, List, [], ◌∷◌, get_elem?, arith,
}
use ukgoll_github_io.ThreadPool.Task.{
  Timespec, Nanosleep, completed, interrupted, sleeps, sleep_again, task_says, ended, nanos,
  print_task, sleep_loop,
}
use ukgoll_github_io.ThreadPool.Store.{null, Store, init_task, load, set_next, set_prev, write}
use ukgoll_github_io.ThreadPool.Queue.{
  add_task, link_behind, Found, no_task, take_task, unlink_tail, cut_behind, start_task,
  request_stop,
}
use ukgoll_github_io.ThreadPool.Linked.{Cell, IsQueue}
use ukgoll_github_io.ThreadPool.Refine.{cell, Changed, add_task_lem}
use ukgoll_github_io.Prelude.Tally.{tally}
use ukgoll_github_io.ThreadPool.System.{
  Worker, taken, exited, System, joining, enqueue, signal_none, stop, broadcast, lock_wait,
  lock_exit, lock_take, start, finish, created, Reach, here, later,
}
use ukgoll_github_io.ThreadPool.Release
use ukgoll_github_io.ThreadPool.Inv.{is_task, holds, queued}
use ukgoll_github_io.ThreadPool.Guarantees.{no_fault, tasks_conserved, no_lost_wakeup, all_started}
use ukgoll_github_io.ThreadPool.Create.{CreateAnswers}

-- A state with a way to it.
record Run : Type 0 where
  last : System
  reach : Reach 1 last

abbrev with_task : Run
unfolding add_task init_task link_behind set_prev set_next load write
with_task = record {
  last = _;
  reach = later (later here (enqueue 5 7 9 refl (omega arith) refl refl)) (signal_none refl refl);
}

abbrev with_started : Run
unfolding add_task init_task link_behind set_prev set_next load write take_task unlink_tail
    cut_behind start_task
with_started = record {
  last = _;
  reach =
      later (later with_task.reach (lock_take 0 5 7 9 0 0 refl refl refl))
        (start 0 5 7 9 7 9 refl refl);
}

-- The worker finds nothing to do before the task is added, and sleeps.
abbrev sleeping : Run
unfolding take_task
sleeping = record { last = _; reach = later here (lock_wait 0 refl refl) }

abbrev with_exit : Run
unfolding add_task init_task link_behind set_prev set_next load write take_task unlink_tail
    cut_behind start_task request_stop
with_exit = record {
  last = _;
  reach =
      later
        (later (later (later with_started.reach (finish 0 7 9 refl)) (stop refl refl))
          (broadcast refl))
        (lock_exit 0 refl refl);
}

-- The pool is released while the task is in its list.
abbrev with_release : Run
unfolding add_task init_task link_behind set_prev set_next load write request_stop
with_release = record {
  last = _;
  reach = later (later with_task.reach (stop refl refl)) (broadcast refl);
}

record Ending : Type 0 where
  last : System
  run : Release.Run with_release.last 2 last

abbrev taken_after : Ending
unfolding add_task init_task link_behind set_prev set_next load write request_stop take_task
    unlink_tail cut_behind start_task
taken_after = record {
  last = _;
  run =
      Release.more (Release.more Release.still (lock_take 0 5 7 9 0 0 refl refl refl))
        (start 0 5 7 9 7 9 refl refl);
}

no_fault_example :
    ((r : Found) × (s' : Store) × (take_task with_task.last.store ≡ some (r, s')) × (r ≢ no_task))
    × ((i p f x : ℕ)
        → get_elem? with_task.last.workers i ≡ some (taken p f x)
        → (s' : Store) × (start_task p with_task.last.store ≡ some ((f, x), s')))
    × ((t f x : ℕ)
        → t ≢ null
        → with_task.last.store.node t ≡ none
        → (s' : Store) × (add_task t f x with_task.last.store ≡ some (tt, s')))
    × ((s' : Store) × (request_stop with_task.last.store ≡ some (tt, s')))
unfolding with_task
no_fault_example = no_fault with_task.reach

-- Where `malloc` returns NULL, `add_task` stores through it.
no_memory : add_task null 7 9 (created 1).store ≡ none
unfolding add_task init_task link_behind set_prev set_next load write
no_memory = refl

tasks_conserved_example :
    (cs : List Cell) × IsQueue with_started.last.store cs
    × ((f x : ℕ)
        → tally (is_task f x) with_started.last.added
          ≡ tally (is_task f x) with_started.last.started
            + tally (queued f x) cs
            + tally (holds f x) with_started.last.workers)
unfolding with_started
tasks_conserved_example = tasks_conserved with_started.reach

no_lost_wakeup_example : (sleeping.last.store.pool.queue ≡ null) × (sleeping.last.main ≢ joining)
unfolding sleeping
no_lost_wakeup_example = no_lost_wakeup sleeping.reach 0 refl (λ e. cc) refl

only_exited : (i : ℕ) (w : Worker) → get_elem? (exited ∷ []) i ≡ some w → w ≡ exited
only_exited zero w e = cc
only_exited (suc i) w e = cc

all_started_example :
    (with_exit.last.store.pool.stop ≡ true)
    × (with_exit.last.store.pool.queue ≡ null)
    × ((f x : ℕ)
        → tally (is_task f x) with_exit.last.added ≡ tally (is_task f x) with_exit.last.started)
unfolding with_exit
all_started_example = all_started with_exit.reach refl only_exited

empty_store-IsQueue : IsQueue (created 1).store []
empty_store-IsQueue = record { tail = refl; head = refl; linked = tt }

add_task_lem_example :
    (s' : Store) × (add_task 5 7 9 (created 1).store ≡ some (tt, s'))
    × Changed (cell 5 7 9 ∷ []) (created 1).store s'
add_task_lem_example =
    add_task_lem 5 7 9 (created 1).store (omega arith) refl [] empty_store-IsQueue

abbrev granted : CreateAnswers
granted = record { tp = 1; threads = 2; cond_init = 0; mutex_init = 0; pthread_create = λ i. 0 }

abbrev no_mutex : CreateAnswers
no_mutex = record granted { mutex_init = 12 }

-- A signal comes in the first call, at once or when its nanoseconds have passed.
abbrev woken_once : ℕ → Timespec → Nanosleep
woken_once zero op =
    let lp : Timespec = record { tv_sec = op.tv_sec; tv_nsec = 0 } in interrupted op.tv_nsec lp
woken_once (suc i) op = completed (nanos op)

slept_in_two :
    print_task woken_once 2 true
    ≡ ended (sleeps 0 ∷ sleep_again ∷ sleeps 60000000000 ∷ task_says ∷ [])
unfolding print_task sleep_loop
slept_in_two = refl
