-- ===== src/ThreadPool/Inv.antt =====
-- The invariant of the thread pool's system.
use ukgoll_github_io.Prelude.{
  ℕ, ◌+◌, ◌≤◌, ◌≡◌, ◌≢◌, ◌∙◌, ◌⊎◌, Bool, true, false, ◌&&◌, some, List, [], get_elem?, length, ◌==◌,
  if◌then◌else◌,
}
use ukgoll_github_io.ThreadPool.Store.{Ptr, null, Store}
use ukgoll_github_io.ThreadPool.Linked.{Cell, has, IsQueue}
use ukgoll_github_io.ThreadPool.Refine.{SameOutside}
use ukgoll_github_io.Prelude.Tally.{tally}
use ukgoll_github_io.ThreadPool.System.{
  Worker, ready, waiting, taken, running, stale, exited, Main, signalling, stopping, joining,
  System, is_waiting,
}

abbrev pub is_ready : Worker → ℕ
is_ready ready = 1
is_ready _ = 0

abbrev pub is_exited : Worker → ℕ
is_exited exited = 1
is_exited _ = 0

-- 1 for the task of function `f` with argument `x`.
abbrev pub is_task : ℕ → ℕ → ℕ × ℕ → ℕ
is_task f x (g, y) = if (f == g) && (x == y) then 1 else 0

abbrev pub holds : ℕ → ℕ → Worker → ℕ
holds f x (taken p g y) = is_task f x (g, y)
holds f x _ = 0

abbrev pub queued : ℕ → ℕ → Cell → ℕ
queued f x c = is_task f x (c.func, c.args)

abbrev pub signals : Main → ℕ
signals signalling = 1
signals _ = 0

abbrev pub stop_requested : Main → Bool
stop_requested stopping = true
stop_requested joining = true
stop_requested _ = false

-- A node off the list, with its function and argument.
abbrev pub HeldOk : Store → List Cell → Ptr → ℕ → ℕ → Type 0
HeldOk s cs p f x =
    (p ≢ null)
    × (has p cs ≡ false)
    × ((q : ℕ) × (n : ℕ) × (s.node p ≡ some (record { func = f; args = x; prev = q; next = n })))

-- What holds of a worker: one that holds a task points to its node, which is off the list; one that
-- waits has seen no broadcast; one that has left has seen the pool stop with an empty list.
abbrev pub WorkerOk : Store → Main → List Cell → Worker → Type 0
WorkerOk s main cs (taken p f x) = HeldOk s cs p f x
WorkerOk s main cs stale = ⊥
WorkerOk s main cs waiting = main ≢ joining
WorkerOk s main cs exited = (s.pool.stop ≡ true) × (cs ≡ [])
WorkerOk s main cs _ = Unit

pub record Inv (s : System) (cs : List Cell) : Type 0 where
  pub queue : IsQueue s.store cs
  pub workers : (i : ℕ) (w : Worker) → get_elem? s.workers i ≡ some w → WorkerOk s.store s.main cs w
  pub stop : s.store.pool.stop ≡ stop_requested s.main
  pub awake :
      (tally is_waiting s.workers ≡ 0) ⊎ (length cs ≤ tally is_ready s.workers + signals s.main)
  pub conserved :
      (f x : ℕ)
      → tally (is_task f x) s.added
        ≡ tally (is_task f x) s.started + tally (queued f x) cs + tally (holds f x) s.workers

-- The task that a worker holds survives a change of the list that it is not on.
pub held_frame :
    (s s' : Store) (cs cs' : List Cell) (p f x : ℕ)
    → SameOutside cs' s s'
    → has p cs' ≡ false
    → HeldOk s cs p f x
    → HeldOk s' cs' p f x
held_frame s s' cs cs' p f x same out (ne, _, (q, n, e)) = (ne, out, (q, n, same p out ∙ e))

-- The main thread may move on, but not past a broadcast that a waiting worker has not seen.
pub main_moves :
    (s : Store) (m m' : Main) (cs : List Cell)
    → m' ≢ joining
    → (w : Worker) → WorkerOk s m cs w
    → WorkerOk s m' cs w
main_moves s m m' cs h ready ok = ok
main_moves s m m' cs h waiting ok = h
main_moves s m m' cs h (taken p f x) ok = ok
main_moves s m m' cs h (running f x) ok = ok
main_moves s m m' cs h stale ok = ok
main_moves s m m' cs h exited ok = ok
