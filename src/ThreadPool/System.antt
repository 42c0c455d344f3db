-- ===== src/ThreadPool/System.antt =====
-- The worker threads and the main thread of threadpool/main.c, interleaved. What runs between
-- `pthread_mutex_lock` and the unlock (or the wait, or the exit) is one step.
use ukgoll_github_io.Prelude.{
  ℕ, ◌%◌, ◌^◌, ◌≡◌, ◌≢◌, false, none, some, List, [], ◌∷◌, map, get_elem?, set, replicate,
}
use ukgoll_github_io.ThreadPool.Store.{Ptr, null, Store}
use ukgoll_github_io.ThreadPool.Queue.{
  add_task, must_wait, must_exit, no_task, took, take_task, start_task, request_stop,
}
use ukgoll_github_io.Prelude.Tally.{tally}

-- Where a worker stands in `thread_pool_item`. `taken` names the function and the argument of its
-- task beside its address; `stale` goes on with an old `thread_task`.
pub data Worker : Type 0 where
  ready : Worker
  waiting : Worker
  taken : Ptr → ℕ → ℕ → Worker
  running : ℕ → ℕ → Worker
  stale : Worker
  exited : Worker

-- Where the main thread stands: between two calls, before the signal of `add_task`, before the
-- broadcast of `release_thread_poll`, or at its joins.
pub data Main : Type 0 where
  idle : Main
  signalling : Main
  stopping : Main
  joining : Main

pub record System : Type 0 where
  pub store : Store
  pub workers : List Worker
  pub main : Main
  pub added : List (ℕ × ℕ)
  pub started : List (ℕ × ℕ)

abbrev pub wake : Worker → Worker
wake waiting = ready
wake w = w

abbrev pub is_waiting : Worker → ℕ
is_waiting waiting = 1
is_waiting _ = 0

abbrev pub move : System → ℕ → Worker → System
move s i w = record s { workers = set s.workers i w }

pub data Step (s : System) : System → Type 0 where
  enqueue :
      (t f x : ℕ) {store : Store}
      → s.main ≡ idle
      → t ≢ null
      → s.store.node t ≡ none
      → add_task t f x s.store ≡ some (tt, store)
      → Step s (record s { store = store; main = signalling; added = (f, x) ∷ s.added })
  signal_one :
      (i : ℕ)
      → s.main ≡ signalling
      → get_elem? s.workers i ≡ some waiting
      → Step s (record s { workers = set s.workers i ready; main = idle })
  signal_none :
      s.main ≡ signalling → tally is_waiting s.workers ≡ 0 → Step s (record s { main = idle })
  stop :
      {store : Store}
      → s.main ≡ idle
      → request_stop s.store ≡ some (tt, store)
      → Step s (record s { store = store; main = stopping })
  broadcast : s.main ≡ stopping → Step s (record s { workers = map wake s.workers; main = joining })
  spurious : (i : ℕ) → get_elem? s.workers i ≡ some waiting → Step s (move s i ready)
  lock_wait :
      (i : ℕ) {store : Store}
      → get_elem? s.workers i ≡ some ready
      → take_task s.store ≡ some (must_wait, store)
      → Step s (record (move s i waiting) { store = store })
  lock_exit :
      (i : ℕ) {store : Store}
      → get_elem? s.workers i ≡ some ready
      → take_task s.store ≡ some (must_exit, store)
      → Step s (record (move s i exited) { store = store })
  lock_none :
      (i : ℕ) {store : Store}
      → get_elem? s.workers i ≡ some ready
      → take_task s.store ≡ some (no_task, store)
      → Step s (record (move s i stale) { store = store })
  lock_take :
      (i p f x q n : ℕ) {store : Store}
      → get_elem? s.workers i ≡ some ready
      → take_task s.store ≡ some (took p, store)
      → store.node p ≡ some (record { func = f; args = x; prev = q; next = n })
      → Step s (record (move s i (taken p f x)) { store = store })
  start :
      (i p f x g y : ℕ) {store : Store}
      → get_elem? s.workers i ≡ some (taken p f x)
      → start_task p s.store ≡ some ((g, y), store)
      → Step s (record (move s i (running g y)) { store = store; started = (g, y) ∷ s.started })
  finish : (i f x : ℕ) → get_elem? s.workers i ≡ some (running f x) → Step s (move s i ready)

-- The state that `create_thread_pool` leaves, where every thread was created.
abbrev pub created : ℕ → System
created n = record {
  store = record {
    pool = record {
      max_worker = n % 2 ^ 16;
      noact_workder = n % 2 ^ 16;
      queue = null;
      queue_tail = null;
      stop = false;
    };
    node = λ _. none;
  };
  workers = replicate n ready;
  main = idle;
  added = [];
  started = [];
}

pub data Reach (n : ℕ) : System → Type 0 where
  here : Reach n (created n)
  later : {s t : System} → Reach n s → Step s t → Reach n t
