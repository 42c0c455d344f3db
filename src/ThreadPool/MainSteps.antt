-- ===== src/ThreadPool/MainSteps.antt =====
-- The steps of the main thread keep the invariant.
use ukgoll_github_io.Prelude.{
  ℕ, ◌≡◌, refl, ap, ◌∙◌, inl, true, false, none, some, List, ◌∷◌, map, get_elem?, set, arith,
}
use ukgoll_github_io.ThreadPool.Store.{Ptr, Store}
use ukgoll_github_io.ThreadPool.Linked.{Cell}
use ukgoll_github_io.ThreadPool.Refine.{cell, Changed, SameOutside}
use ukgoll_github_io.Prelude.Tally.{
  tally, tally-set, all-set, tally-map_eq, tally-map_zero, all-map,
}
use ukgoll_github_io.ThreadPool.System.{
  Worker, ready, waiting, taken, running, stale, exited, idle, signalling, stopping, joining,
  System, wake, is_waiting,
}
use ukgoll_github_io.ThreadPool.Inv.{
  is_ready, holds, stop_requested, WorkerOk, Inv, held_frame, main_moves,
}

module _ (s : System) (cs : List Cell) (inv : Inv s cs) where
  not_stopping : s.main ≡ idle → s.store.pool.stop ≡ false
  not_stopping e = inv.stop ∙ ap stop_requested e

  enqueue_worker :
      (t f x : ℕ) (store : Store)
      → s.main ≡ idle
      → s.store.node t ≡ none
      → SameOutside (cell t f x ∷ cs) s.store store
      → (w : Worker) → WorkerOk s.store s.main cs w
      → WorkerOk store signalling (cell t f x ∷ cs) w
  enqueue_worker t f x store at_idle fresh same ready ok = tt
  enqueue_worker t f x store at_idle fresh same (running g y) ok = tt
  enqueue_worker t f x store at_idle fresh same stale ok = ok
  enqueue_worker t f x store at_idle fresh same waiting ok = λ e. cc
  enqueue_worker t f x store at_idle fresh same exited ok =
      let on = ok.0 in let off = not_stopping at_idle in cc
  enqueue_worker t f x store at_idle fresh same (taken p g y) ok =
      let (q, n, e) = ok.2 in
      held_frame s.store store cs (cell t f x ∷ cs) p g y same (ground (arith, ok.1)) ok

  pub enqueue-Inv :
      (t f x : ℕ) (store : Store)
      → s.main ≡ idle
      → s.store.node t ≡ none
      → Changed (cell t f x ∷ cs) s.store store
      → Inv
          (record s { store = store; main = signalling; added = (f, x) ∷ s.added })
          (cell t f x ∷ cs)
  enqueue-Inv t f x store at_idle fresh ch = record {
    queue = ch.queue;
    workers = λ i w e. enqueue_worker t f x store at_idle fresh ch.outside w (inv.workers i w e);
    stop = ch.same_pool.0 ∙ not_stopping at_idle;
    awake = ground (arith, inv.awake, at_idle);
    conserved = λ g y. omega (arith, inv.conserved g y);
  }

  pub signal_one-Inv :
      (i : ℕ)
      → s.main ≡ signalling
      → get_elem? s.workers i ≡ some waiting
      → Inv (record s { workers = set s.workers i ready; main = idle }) cs
  signal_one-Inv i sig e = record {
    queue = inv.queue;
    workers =
        all-set (WorkerOk s.store s.main cs) (WorkerOk s.store idle cs) s.workers i ready
          inv.workers (main_moves s.store s.main idle cs (λ h. cc)) tt;
    stop = inv.stop ∙ ap stop_requested sig;
    awake = ground (
      arith,
      inv.awake,
      tally-set is_waiting s.workers i ready e,
      tally-set is_ready s.workers i ready e,
    );
    conserved = λ g y. omega (arith, inv.conserved g y, tally-set (holds g y) s.workers i ready e);
  }

  pub signal_none-Inv :
      s.main ≡ signalling → tally is_waiting s.workers ≡ 0 → Inv (record s { main = idle }) cs
  signal_none-Inv sig none_waits = record {
    queue = inv.queue;
    workers = λ i w e. main_moves s.store s.main idle cs (λ h. cc) w (inv.workers i w e);
    stop = inv.stop ∙ ap stop_requested sig;
    awake = inl none_waits;
    conserved = inv.conserved;
  }

  stop_worker :
      (store : Store)
      → s.main ≡ idle
      → ((a : Ptr) → store.node a ≡ s.store.node a)
      → (w : Worker) → WorkerOk s.store s.main cs w
      → WorkerOk store stopping cs w
  stop_worker store at_idle same ready ok = ok
  stop_worker store at_idle same waiting ok = λ e. cc
  stop_worker store at_idle same (taken p f x) ok =
      held_frame s.store store cs cs p f x (λ a _. same a) ok.1 ok
  stop_worker store at_idle same (running f x) ok = ok
  stop_worker store at_idle same stale ok = ok
  stop_worker store at_idle same exited ok = let on = ok.0 in let off = not_stopping at_idle in cc

  pub stop-Inv :
      s.main ≡ idle
      → Inv
          (record s {
            store = record (s.store) { pool = record (s.store.pool) { stop = true } };
            main = stopping;
          })
          cs
  stop-Inv at_idle = record {
    queue = record { tail = inv.queue.tail; head = inv.queue.head; linked = inv.queue.linked };
    workers = λ i w e.
        stop_worker (record (s.store) { pool = record (s.store.pool) { stop = true } }) at_idle
          (λ a. refl) w (inv.workers i w e);
    stop = refl;
    awake = ground (arith, inv.awake, at_idle);
    conserved = inv.conserved;
  }

  broadcast_worker :
      (w : Worker) → WorkerOk s.store s.main cs w → WorkerOk s.store joining cs (wake w)
  broadcast_worker ready ok = ok
  broadcast_worker waiting ok = tt
  broadcast_worker (taken p f x) ok = ok
  broadcast_worker (running f x) ok = ok
  broadcast_worker stale ok = ok
  broadcast_worker exited ok = ok

  none_waits : (w : Worker) → is_waiting (wake w) ≡ 0
  none_waits ready = refl
  none_waits _ = refl

  holds-wake : (f x : ℕ) (w : Worker) → holds f x (wake w) ≡ holds f x w
  holds-wake f x ready = refl
  holds-wake f x _ = refl

  pub broadcast-Inv :
      s.main ≡ stopping → Inv (record s { workers = map wake s.workers; main = joining }) cs
  broadcast-Inv at = record {
    queue = inv.queue;
    workers =
        all-map (WorkerOk s.store s.main cs) (WorkerOk s.store joining cs) wake s.workers
          inv.workers broadcast_worker;
    stop = inv.stop ∙ ap stop_requested at;
    awake = inl (tally-map_zero is_waiting wake none_waits s.workers);
    conserved = λ g y.
        omega (arith, inv.conserved g y, tally-map_eq (holds g y) wake (holds-wake g y) s.workers);
  }
