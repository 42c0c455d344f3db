-- ===== src/ThreadPool/Guarantees.antt =====
-- What the thread pool promises to its callers.
use ukgoll_github_io.Prelude.{
  ℕ, suc, ◌+◌, ◌≡◌, ◌≢◌, refl, ap, none, some, List, [], ◌∷◌, get_elem?, length, arith, true,
}
use ukgoll_github_io.ThreadPool.Store.{null, Store}
use ukgoll_github_io.ThreadPool.Queue.{
  add_task, Found, no_task, took, take_task, start_task, request_stop,
}
use ukgoll_github_io.ThreadPool.Linked.{Cell, IsQueue}
use ukgoll_github_io.ThreadPool.Refine.{cell, add_task_lem, take_front, start_task_lem, detached}
use ukgoll_github_io.Prelude.Tally.{tally, le-tally}
use ukgoll_github_io.ThreadPool.System.{
  Worker, waiting, taken, exited, signalling, joining, System, is_waiting, Reach,
}
use ukgoll_github_io.ThreadPool.Inv.{is_ready, is_task, holds, queued, signals}
use ukgoll_github_io.ThreadPool.Safety.{Reach-Inv, take_task_lem, Turn}

-- A task added with a fresh node to a list of tasks is the next one that a worker takes, and the
-- list is then as it was.
add_then_take :
    (t f x : ℕ) (s : Store) (cs : List Cell)
    → t ≢ null
    → s.node t ≡ none
    → IsQueue s cs
    → (s1 : Store) × (s2 : Store) × (add_task t f x s ≡ some (tt, s1))
      × (take_task s1 ≡ some (took t, s2))
      × IsQueue s2 cs
add_then_take t f x s cs ne fresh q =
    let (s1, e1, ch1) = add_task_lem t f x s ne fresh cs q in
    let (s2, e2, ch2) = take_front s1 (cell t f x) cs ch1.queue in (s1, s2, e1, e2, ch2.queue)

found_of : (s : Store) (cs : List Cell) (s' : Store) (r : Found) → Turn s cs r s' → r ≢ no_task
found_of s cs s' no_task t e = t
found_of s cs s' _ t e = cc

-- In every reachable state no operation of the pool touches a node that is not there: a worker that
-- gets the lock never goes on without a task, a worker that has taken a task calls its function with its
-- argument, `add_task` ends wherever its `malloc` returns a new address that is not NULL, and the
-- request to stop ends.
pub no_fault :
    {n : ℕ} {s : System}
    → Reach n s
    → ((r : Found) × (s' : Store) × (take_task s.store ≡ some (r, s')) × (r ≢ no_task))
      × ((i p f x : ℕ)
          → get_elem? s.workers i ≡ some (taken p f x)
          → (s' : Store) × (start_task p s.store ≡ some ((f, x), s')))
      × ((t f x : ℕ)
          → t ≢ null
          → s.store.node t ≡ none
          → (s' : Store) × (add_task t f x s.store ≡ some (tt, s')))
      × ((s' : Store) × (request_stop s.store ≡ some (tt, s')))
unfolding request_stop
no_fault {s} r =
    let (cs, inv) = Reach-Inv r in
    let (found, s', e, turn) = take_task_lem s.store cs inv.queue in
    (
      (found, s', e, found_of s.store cs s' found turn),
      λ i p f x at.
          let (ne, out, (q, m, node)) = inv.workers i (taken p f x) at in
          (
            detached p (record { func = f; args = x; prev = q; next = m }) s.store,
            start_task_lem p (record { func = f; args = x; prev = q; next = m }) s.store ne node,
          ),
      λ t f x ne fresh.
          let (s', e, ch) = add_task_lem t f x s.store ne fresh cs inv.queue in (s', e),
      (_, refl),
    )

-- In every reachable state the pool's list is well linked, and each task was added exactly as often
-- as it has been started, stands in the list or is held by a worker that is about to start it.
pub tasks_conserved :
    {n : ℕ} {s : System}
    → Reach n s
    → (cs : List Cell) × IsQueue s.store cs
      × ((f x : ℕ)
          → tally (is_task f x) s.added
            ≡ tally (is_task f x) s.started + tally (queued f x) cs + tally (holds f x) s.workers)
tasks_conserved r = let (cs, inv) = Reach-Inv r in (cs, inv.queue, inv.conserved)

empty_queue : (s : Store) (cs : List Cell) → IsQueue s cs → length cs ≡ 0 → s.pool.queue ≡ null
empty_queue s [] q e = q.head
empty_queue s (c ∷ cs) q e = absurd (omega arith)

-- No wake-up is lost: in a reachable state in which a worker waits, no worker is on its way to the
-- lock and the main thread has no signal to send, the list of tasks is empty and the pool's
-- broadcast has not been sent.
pub no_lost_wakeup :
    {n : ℕ} {s : System}
    → Reach n s
    → (i : ℕ) → get_elem? s.workers i ≡ some waiting
    → s.main ≢ signalling
    → tally is_ready s.workers ≡ 0
    → (s.store.pool.queue ≡ null) × (s.main ≢ joining)
no_lost_wakeup {s} r i at no_signal none_ready =
    let (cs, inv) = Reach-Inv r in
    (
      empty_queue s.store cs inv.queue
          (ground (arith, inv.awake, le-tally is_waiting s.workers i at, no_signals s no_signal)),
      inv.workers i waiting at,
    )
  where
    no_signals : (s : System) → s.main ≢ signalling → signals s.main ≡ 0
    no_signals s h = ground arith

tally-eq-zero :
    (m : Worker → ℕ) (ws : List Worker)
    → ((i : ℕ) (w : Worker) → get_elem? ws i ≡ some w → m w ≡ 0)
    → tally m ws ≡ 0
tally-eq-zero m [] h = refl
tally-eq-zero m (w ∷ ws) h = omega (arith, h 0 w refl, tally-eq-zero m ws (λ i v e. h (suc i) v e))

-- No task is lost at the end: in a reachable state in which there are workers and all have left, the
-- pool was told to stop and its list is empty, and every task was started as often as it was added.
pub all_started :
    {n : ℕ} {s : System}
    → Reach n s
    → get_elem? s.workers 0 ≡ some exited
    → ((i : ℕ) (w : Worker) → get_elem? s.workers i ≡ some w → w ≡ exited)
    → (s.store.pool.stop ≡ true)
      × (s.store.pool.queue ≡ null)
      × ((f x : ℕ) → tally (is_task f x) s.added ≡ tally (is_task f x) s.started)
all_started {s} r first all =
    let (cs, inv) = Reach-Inv r in
    let (on, empty) = inv.workers 0 exited first in
    (
      on,
      empty_queue s.store cs inv.queue (ap length empty),
      λ f x. omega (
        arith,
        inv.conserved f x,
        ap (tally (queued f x)) empty,
        tally-eq-zero (holds f x) s.workers (λ i w e. ap (holds f x) (all i w e)),
      ),
    )
