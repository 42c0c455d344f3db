-- ===== src/ThreadPool/Safety.antt =====
-- What holds in every state that the thread pool can reach.
use ukgoll_github_io.Prelude.{
  ℕ, zero, suc, ◌≡◌, ◌≢◌, refl, ap, sym, subst, ◌∙◌, inl, Bool, true, false, Option, none, some,
  List, [], ◌∷◌, get_elem?, length, replicate, if◌then◌else◌, arith,
}
use ukgoll_github_io.ThreadPool.Store.{null, Task, Store}
use ukgoll_github_io.ThreadPool.Queue.{
  add_task, Found, must_wait, must_exit, no_task, took, take_task, start_task, request_stop,
}
use ukgoll_github_io.ThreadPool.Linked.{Cell, IsQueue}
use ukgoll_github_io.ThreadPool.Refine.{
  cell, Changed, add_task_lem, take_empty, take_front, detached, start_task_lem,
}
use ukgoll_github_io.Prelude.Tally.{tally}
use ukgoll_github_io.ThreadPool.System.{
  Worker, ready, waiting, taken, running, exited, idle, stopping, joining, System, is_waiting, move,
  Step, enqueue, signal_one, signal_none, stop, broadcast, spurious, lock_wait, lock_exit,
  lock_none, lock_take, start, finish, created, Reach, here, later,
}
use ukgoll_github_io.ThreadPool.Inv.{holds, stop_requested, WorkerOk, Inv}
use ukgoll_github_io.ThreadPool.MainSteps.{
  enqueue-Inv, signal_one-Inv, signal_none-Inv, stop-Inv, broadcast-Inv,
}
use ukgoll_github_io.ThreadPool.WorkerSteps.{
  spurious-Inv, finish-Inv, lock_wait-Inv, lock_exit-Inv, lock_take-Inv, start-Inv,
}

-- What each outcome of a worker's turn at the lock says of the list of tasks, before and after.
abbrev pub Turn : Store → List Cell → Found → Store → Type 0
Turn s cs must_wait s' = (cs ≡ []) × (s.pool.stop ≡ false) × (s' ≡ s)
Turn s cs must_exit s' = (cs ≡ []) × (s.pool.stop ≡ true) × (s' ≡ s)
Turn s cs no_task s' = ⊥
Turn s cs (took p) s' =
    (c : Cell) × (rest : List Cell) × (cs ≡ c ∷ rest) × (p ≡ c.addr) × Changed rest s s'

one_store :
    {r : Option (Found × Store)} {a b : Found} {s t : Store}
    → r ≡ some (a, s)
    → r ≡ some (b, t)
    → (b ≡ a) × (t ≡ s)
one_store e f = (cc, cc)

empty-Turn :
    (s : Store) (b : Bool) → s.pool.stop ≡ b → Turn s [] (if b then must_exit else must_wait) s
empty-Turn s true e = (refl, e, refl)
empty-Turn s false e = (refl, e, refl)

-- When the pool's list holds the tasks `cs`, the newest first, a worker's turn at the lock does not
-- fault, and: it waits only if there is no task and the pool does not stop, it leaves only if there
-- is no task and the pool stops, both without a change; otherwise it takes the newest task, and the
-- list holds the others in the same order, every node off that list and every other field of the
-- pool being as before. It never goes on without a task.
pub take_task_lem :
    (s : Store) (cs : List Cell)
    → IsQueue s cs
    → (r : Found) × (s' : Store) × (take_task s ≡ some (r, s')) × Turn s cs r s'
take_task_lem s [] q =
    (if s.pool.stop then must_exit else must_wait, s, take_empty s q, empty-Turn s s.pool.stop refl)
take_task_lem s (c ∷ cs) q =
    let (s', e, ch) = take_front s c cs q in (took c.addr, s', e, (c, cs, refl, refl, ch))

pub Turn-of :
    (s : Store) (cs : List Cell) (r : Found) (s' : Store)
    → IsQueue s cs
    → take_task s ≡ some (r, s')
    → Turn s cs r s'
Turn-of s cs r s' q e =
    let (r0, s0, e0, t) = take_task_lem s cs q in
    let (er, es) = one_store e0 e in
    subst (λ x. Turn s cs x s') (sym er) (subst (λ x. Turn s cs r0 x) (sym es) t)

pub not_joining :
    (s : System) (cs : List Cell) → Inv s cs → s.store.pool.stop ≡ false → s.main ≢ joining
not_joining s cs inv off e = let on = inv.stop ∙ ap stop_requested e in cc

added_store :
    (t f x : ℕ) (s : Store) (cs : List Cell) (s' : Store)
    → t ≢ null
    → s.node t ≡ none
    → IsQueue s cs
    → add_task t f x s ≡ some (tt, s')
    → Changed (cell t f x ∷ cs) s s'
added_store t f x s cs s' ne fresh q e =
    let (s0, e0, ch) = add_task_lem t f x s ne fresh cs q in
    let same : s0 ≡ s' = cc in subst (Changed (cell t f x ∷ cs) s) same ch

stopped_store :
    (s s' : Store)
    → request_stop s ≡ some (tt, s')
    → record s { pool = record (s.pool) { stop = true } } ≡ s'
unfolding request_stop
stopped_store s s' e = cc

take_step :
    (s : System) (cs : List Cell) (i p f x q n : ℕ) (store : Store)
    → Inv s cs
    → get_elem? s.workers i ≡ some ready
    → Turn s.store cs (took p) store
    → store.node p ≡ some (record { func = f; args = x; prev = q; next = n })
    → (cs' : List Cell) × Inv (record (move s i (taken p f x)) { store = store }) cs'
      × (length cs ≡ suc (length cs'))
take_step s cs i p f x q n store inv at (c, rest, split, same, ch) node = (
  rest,
  subst (λ a. Inv (record (move s i (taken a f x)) { store = store }) rest) (sym same)
      (lock_take-Inv s c rest (subst (Inv s) split inv) i store f x q n at ch (
        subst (λ a. store.node a ≡ some (record { func = f; args = x; prev = q; next = n })) same
          node)),
  ap length split,
)

start_step :
    (s : System) (cs : List Cell) (i p f x g y : ℕ) (store : Store)
    → Inv s cs
    → get_elem? s.workers i ≡ some (taken p f x)
    → start_task p s.store ≡ some ((g, y), store)
    → (f ≡ g)
      × (x ≡ y)
      × Inv (record (move s i (running f x)) { store = store; started = (f, x) ∷ s.started }) cs
start_step s cs i p f x g y store inv at e =
    let (ne, out, (q, n, node)) = inv.workers i (taken p f x) at in
    let d : Task = record { func = f; args = x; prev = q; next = n } in
    let e0 = start_task_lem p d s.store ne node in
    let same : detached p d s.store ≡ store = cc in
    let same_f : f ≡ g = cc in
    let same_x : x ≡ y = cc in
    (
      same_f,
      same_x,
      subst
          (λ st.
            Inv (record (move s i (running f x)) { store = st; started = (f, x) ∷ s.started }) cs)
          same (start-Inv s cs inv i p f x q n at node out),
    )

-- What a step does to the length of the list of tasks.
abbrev pub Sized : {s t : System} → Step s t → ℕ → ℕ → Type 0
Sized (enqueue t f x at ne fresh e) m n = n ≡ suc m
Sized (lock_take i p f x q l at e node) m n = m ≡ suc n
Sized _ m n = m ≡ n

-- A step from a state that meets the invariant leads to one that does, with the list of tasks that
-- is left.
pub Step-Inv :
    (s : System) (cs : List Cell) {t : System}
    → Inv s cs
    → (st : Step s t) → (cs' : List Cell) × Inv t cs' × Sized st (length cs) (length cs')
Step-Inv s cs inv (enqueue t f x {store} at ne fresh e) = (
  cell t f x ∷ cs,
  enqueue-Inv s cs inv t f x store at fresh
      (added_store t f x s.store cs store ne fresh inv.queue e),
  refl,
)
Step-Inv s cs inv (signal_one i at e) = (cs, signal_one-Inv s cs inv i at e, refl)
Step-Inv s cs inv (signal_none at e) = (cs, signal_none-Inv s cs inv at e, refl)
Step-Inv s cs inv (stop {store} at e) = (
  cs,
  subst (λ st. Inv (record s { store = st; main = stopping }) cs) (stopped_store s.store store e)
      (stop-Inv s cs inv at),
  refl,
)
Step-Inv s cs inv (broadcast at) = (cs, broadcast-Inv s cs inv at, refl)
Step-Inv s cs inv (spurious i e) = (cs, spurious-Inv s cs inv i e, refl)
Step-Inv s cs inv (lock_wait i {store} at e) =
    let (empty, off, same) = Turn-of s.store cs must_wait store inv.queue e in
    (
      cs,
      subst (λ st. Inv (record (move s i waiting) { store = st }) cs) (sym same)
          (lock_wait-Inv s cs inv i at empty (not_joining s cs inv off)),
      refl,
    )
Step-Inv s cs inv (lock_exit i {store} at e) =
    let (empty, on, same) = Turn-of s.store cs must_exit store inv.queue e in
    (
      cs,
      subst (λ st. Inv (record (move s i exited) { store = st }) cs) (sym same)
          (lock_exit-Inv s cs inv i at empty on),
      refl,
    )
Step-Inv s cs inv (lock_none i {store} at e) = absurd (Turn-of s.store cs no_task store inv.queue e)
Step-Inv s cs inv (lock_take i p f x q n {store} at e node) =
    take_step s cs i p f x q n store inv at (Turn-of s.store cs (took p) store inv.queue e) node
Step-Inv s cs inv (start i p f x g y {store} at e) =
    let (same_f, same_x, inv') = start_step s cs i p f x g y store inv at e in
    (
      cs,
      subst
          (λ h.
            Inv (record (move s i (running h y)) { store = store; started = (h, y) ∷ s.started })
              cs)
          same_f
          (subst
            (λ z.
              Inv (record (move s i (running f z)) { store = store; started = (f, z) ∷ s.started })
                cs)
            same_x inv'),
      refl,
    )
Step-Inv s cs inv (finish i f x at) = (cs, finish-Inv s cs inv i f x at, refl)

tally-replicate : (m : Worker → ℕ) (n : ℕ) → m ready ≡ 0 → tally m (replicate n ready) ≡ 0
tally-replicate m zero e = refl
tally-replicate m (suc n) e = omega (arith, e, tally-replicate m n e)

worker-replicate :
    (P : Worker → Type 0) (n i : ℕ) (w : Worker)
    → P ready
    → get_elem? (replicate n ready) i ≡ some w
    → P w
worker-replicate P zero i w p e = cc
worker-replicate P (suc n) zero w p e = let q : ready ≡ w = cc in subst P q p
worker-replicate P (suc n) (suc i) w p e = worker-replicate P n i w p e

created-Inv : (n : ℕ) → Inv (created n) []
created-Inv n = record {
  queue = record { tail = refl; head = refl; linked = tt };
  workers = λ i w e. worker-replicate (WorkerOk (created n).store idle []) n i w tt e;
  stop = refl;
  awake = inl (tally-replicate is_waiting n refl);
  conserved = λ f x. omega (arith, tally-replicate (holds f x) n refl);
}

pub Reach-Inv : {n : ℕ} {s : System} → Reach n s → (cs : List Cell) × Inv s cs
Reach-Inv {n} here = ([], created-Inv n)
Reach-Inv (later {s} r st) =
    let (cs, inv) = Reach-Inv r in let (cs', inv', _) = Step-Inv s cs inv st in (cs', inv')
