-- ===== src/ThreadPool/Store.antt =====
-- The shared memory of the thread pool: the struct ThreadPool, and the Task nodes by address.
use ukgoll_github_io.Prelude.{ℕ, Bool, Option, none, some, ◌==◌, if◌then◌else◌}

abbrev pub Ptr : Type 0
Ptr = ℕ

abbrev pub null : Ptr
null = 0

-- `Task`; a function and its argument are known by number.
pub record Task : Type 0 where
  pub func : ℕ
  pub args : ℕ
  pub prev : Ptr
  pub next : Ptr

abbrev pub task : ℕ → ℕ → Ptr → Ptr → Task
task f x p n = record { func = f; args = x; prev = p; next = n }

-- `ThreadPool`, less the mutex and the condition variable; `threads` holds the identifiers.
pub record Pool : Type 0 where
  pub max_worker : ℕ
  pub noact_workder : ℕ
  pub queue : Ptr
  pub queue_tail : Ptr
  pub stop : Bool

pub record Store : Type 0 where
  pub pool : Pool
  pub node : Ptr → Option Task

-- `none` is an access through a pointer to no task.
abbrev pub Cmd : Type 0 → Type 0
Cmd A = Store → Option (A × Store)

abbrev pub pure : {A : Type 0} → A → Cmd A
pure a s = some (a, s)

abbrev pub and_then : {A B : Type 0} → Option (A × Store) → (A → Cmd B) → Option (B × Store)
and_then none f = none
and_then (some (a, s)) f = f a s

infixl 5 ◌>>=◌ ◌>>◌
abbrev pub ◌>>=◌ : {A B : Type 0} → Cmd A → (A → Cmd B) → Cmd B
m >>= f = λ s. and_then (m s) f

abbrev pub ◌>>◌ : {A B : Type 0} → Cmd A → Cmd B → Cmd B
m >> k = m >>= λ _. k

abbrev pub get_pool : Cmd Pool
get_pool s = some (s.pool, s)

abbrev pub put_pool : Pool → Cmd (Unit {0})
put_pool p s = some (tt, record s { pool = p })

unfoldable pub write : (Ptr → Option Task) → Ptr → Task → Ptr → Option Task
write h p t a = if a == p then some t else h a

-- The first stores through what `malloc` returned: a fault if that is NULL.
unfoldable pub init_task : Ptr → Task → Cmd (Unit {0})
init_task p t s = if p == null then none else some (tt, record s { node = write s.node p t })

-- `*p`
unfoldable pub load : Ptr → Cmd Task
load p s = if p == null then none else elim (s.node p) [ none ↦ none | some t ↦ some (t, s) ]

-- `p->next = q`
unfoldable pub set_next : Ptr → Ptr → Cmd (Unit {0})
unfolding load
set_next p q = do
  t ← load p
  λ s. some (tt, record s { node = write s.node p (record t { next = q }) })

-- `p->prev = q`
unfoldable pub set_prev : Ptr → Ptr → Cmd (Unit {0})
unfolding load
set_prev p q = do
  t ← load p
  λ s. some (tt, record s { node = write s.node p (record t { prev = q }) })
