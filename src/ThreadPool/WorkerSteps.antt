-- ===== src/ThreadPool/WorkerSteps.antt =====
-- The steps of a worker keep the invariant.
use ukgoll_github_io.Prelude.{
  ℕ, ◌≡◌, ◌≢◌, ap, ◌∙◌, inl, inr, true, false, some, List, [], ◌∷◌, get_elem?, ◌==◌, arith,
  Bool-cases,
}
use ukgoll_github_io.ThreadPool.Store.{null, Pool, Store}
use ukgoll_github_io.ThreadPool.Linked.{Cell, has}
use ukgoll_github_io.ThreadPool.Refine.{
  detached, detached-IsQueue, node-detached, pool-detached, Changed, SameOutside,
}
use ukgoll_github_io.Prelude.Tally.{tally-set, all-set}
use ukgoll_github_io.ThreadPool.System.{
  Worker, ready, waiting, taken, running, stale, exited, joining, System, is_waiting, move,
}
use ukgoll_github_io.ThreadPool.Inv.{is_ready, holds, WorkerOk, Inv, held_frame}

module _ (s : System) (cs : List Cell) (inv : Inv s cs) (i : ℕ) where
  same : (w : Worker) → WorkerOk s.store s.main cs w → WorkerOk s.store s.main cs w
  same w ok = ok

  pub spurious-Inv : get_elem? s.workers i ≡ some waiting → Inv (move s i ready) cs
  spurious-Inv e = record {
    queue = inv.queue;
    workers =
        all-set (WorkerOk s.store s.main cs) (WorkerOk s.store s.main cs) s.workers i ready
          inv.workers same tt;
    stop = inv.stop;
    awake = ground (
      arith,
      inv.awake,
      tally-set is_waiting s.workers i ready e,
      tally-set is_ready s.workers i ready e,
    );
    conserved = λ g y. omega (arith, inv.conserved g y, tally-set (holds g y) s.workers i ready e);
  }

  pub finish-Inv : (f x : ℕ) → get_elem? s.workers i ≡ some (running f x) → Inv (move s i ready) cs
  finish-Inv f x e = record {
    queue = inv.queue;
    workers =
        all-set (WorkerOk s.store s.main cs) (WorkerOk s.store s.main cs) s.workers i ready
          inv.workers same tt;
    stop = inv.stop;
    awake = ground (
      arith,
      inv.awake,
      tally-set is_waiting s.workers i ready e,
      tally-set is_ready s.workers i ready e,
    );
    conserved = λ g y. omega (arith, inv.conserved g y, tally-set (holds g y) s.workers i ready e);
  }

  pub lock_wait-Inv :
      get_elem? s.workers i ≡ some ready → cs ≡ [] → s.main ≢ joining → Inv (move s i waiting) cs
  lock_wait-Inv e empty live = record {
    queue = inv.queue;
    workers =
        all-set (WorkerOk s.store s.main cs) (WorkerOk s.store s.main cs) s.workers i waiting
          inv.workers same live;
    stop = inv.stop;
    awake = inr (rw empty (omega arith));
    conserved =
        λ g y. omega (arith, inv.conserved g y, tally-set (holds g y) s.workers i waiting e);
  }

  pub lock_exit-Inv :
      get_elem? s.workers i ≡ some ready
      → cs ≡ []
      → s.store.pool.stop ≡ true
      → Inv (move s i exited) cs
  lock_exit-Inv e empty on = record {
    queue = inv.queue;
    workers =
        all-set (WorkerOk s.store s.main cs) (WorkerOk s.store s.main cs) s.workers i exited
          inv.workers same (on, empty);
    stop = inv.stop;
    awake = inr (rw empty (omega arith));
    conserved = λ g y. omega (arith, inv.conserved g y, tally-set (holds g y) s.workers i exited e);
  }

module _ (s : System) (c : Cell) (cs : List Cell) (inv : Inv s (c ∷ cs)) (i : ℕ)
    (store : Store) where
  take_worker :
      SameOutside cs s.store store
      → (w : Worker) → WorkerOk s.store s.main (c ∷ cs) w
      → WorkerOk store s.main cs w
  take_worker same ready ok = ok
  take_worker same waiting ok = ok
  take_worker same (taken p f x) ok =
      held_frame s.store store (c ∷ cs) cs p f x same (ground (arith, ok.1)) ok
  take_worker same (running f x) ok = ok
  take_worker same stale ok = ok
  take_worker same exited ok = let e = ok.1 in cc

  -- The task taken is the one that stood in front.
  took_front :
      (f x q n : ℕ)
      → SameOutside cs s.store store
      → store.node c.addr ≡ some (record { func = f; args = x; prev = q; next = n })
      → (f ≡ c.func) × (x ≡ c.args)
  took_front f x q n same e =
      let (ne, out, e', l) = inv.queue.linked in ground (arith, same c.addr out)

  pub lock_take-Inv :
      (f x q n : ℕ)
      → get_elem? s.workers i ≡ some ready
      → Changed cs s.store store
      → store.node c.addr ≡ some (record { func = f; args = x; prev = q; next = n })
      → Inv (record (move s i (taken c.addr f x)) { store = store }) cs
  lock_take-Inv f x q n e ch node = record {
    queue = ch.queue;
    workers =
        all-set (WorkerOk s.store s.main (c ∷ cs)) (WorkerOk store s.main cs) s.workers i
          (taken c.addr f x) inv.workers (take_worker ch.outside)
          (inv.queue.linked.0, inv.queue.linked.1, (q, n, node));
    stop = ch.same_pool.0 ∙ inv.stop;
    awake = ground (
      arith,
      inv.awake,
      tally-set is_waiting s.workers i (taken c.addr f x) e,
      tally-set is_ready s.workers i (taken c.addr f x) e,
    );
    conserved = λ g y.
        let (same_f, same_x) = took_front f x q n ch.outside node in
        ground (arith, inv.conserved g y, tally-set (holds g y) s.workers i (taken c.addr f x) e);
  }

module _ (s : System) (cs : List Cell) (inv : Inv s cs) (i p f x q n : ℕ) where
  abbrev pub cut : Store
  cut = detached p (record { func = f; args = x; prev = q; next = n }) s.store

  start_worker :
      s.store.node p ≡ some (record { func = f; args = x; prev = q; next = n })
      → (w : Worker) → WorkerOk s.store s.main cs w
      → WorkerOk cut s.main cs w
  start_worker e ready ok = ok
  start_worker e waiting ok = ok
  start_worker e (taken a g y) (ne, out, (r, m, e')) = (
    ne,
    out,
    elim (Bool-cases (a == p)) [
      | inl hit ↦ (null, n, node-detached p _ s.store a ∙ rw hit (ground arith))
      | inr miss ↦ (r, m, node-detached p _ s.store a ∙ rw miss e')
    ],
  )
  start_worker e (running g y) ok = ok
  start_worker e stale ok = ok
  start_worker e exited ok = (ap (λ (b : Pool). b.stop) (pool-detached p _ s.store) ∙ ok.0, ok.1)

  pub start-Inv :
      get_elem? s.workers i ≡ some (taken p f x)
      → s.store.node p ≡ some (record { func = f; args = x; prev = q; next = n })
      → has p cs ≡ false
      → Inv (record (move s i (running f x)) { store = cut; started = (f, x) ∷ s.started }) cs
  start-Inv e node out = record {
    queue = detached-IsQueue p _ s.store cs out inv.queue;
    workers =
        all-set (WorkerOk s.store s.main cs) (WorkerOk cut s.main cs) s.workers i (running f x)
          inv.workers (start_worker node) tt;
    stop = ap (λ (b : Pool). b.stop) (pool-detached p _ s.store) ∙ inv.stop;
    awake = ground (
      arith,
      inv.awake,
      tally-set is_waiting s.workers i (running f x) e,
      tally-set is_ready s.workers i (running f x) e,
    );
    conserved =
        λ g y. omega (arith, inv.conserved g y, tally-set (holds g y) s.workers i (running f x) e);
  }
