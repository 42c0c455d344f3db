-- ===== src/ThreadPool/Create.antt =====
-- `create_thread_pool` and the joins of `release_thread_poll` in threadpool/main.c.
use ukgoll_github_io.Prelude.{
  ℕ, zero, suc, ◌+◌, ◌%◌, ◌^◌, ◌≡◌, ◌≢◌, ◌↔◌, ◌⊎◌, refl, Bool, false, Option, none, some, List, [],
  ◌∷◌, ◌==◌, if◌then◌else◌, length, arith, ap, sym, ◌∙◌,
}
use ukgoll_github_io.ThreadPool.Store.{Ptr, null, Pool}

-- What the calls of `create_thread_pool` answer: the addresses from `malloc`, and error numbers.
pub record CreateAnswers : Type 0 where
  pub tp : Ptr
  pub threads : Ptr
  pub cond_init : ℕ
  pub mutex_init : ℕ
  pub pthread_create : ℕ → ℕ

-- The pool that is returned, the blocks that were freed, and for each thread asked for whether it
-- was created.
pub record Creation : Type 0 where
  pub result : Option Pool
  pub freed : List Ptr
  pub created : List Bool

-- `for (int i = 0; i < max_worker; i++)`: an error is printed, and the loop goes on.
unfoldable pub create_from : (ℕ → ℕ) → ℕ → ℕ → List Bool
create_from err i zero = []
create_from err i (suc n) = (err i == 0) ∷ create_from err (i + 1) n

abbrev fail : List Ptr → Creation
fail freed = record { result = none; freed = freed; created = [] }

-- `max_worker` is an `int`, and is stored in fields of type `uint16_t`.
unfoldable pub new_pool : ℕ → Pool
new_pool n = record {
  max_worker = n % 2 ^ 16;
  noact_workder = n % 2 ^ 16;
  queue = null;
  queue_tail = null;
  stop = false;
}

unfoldable pub create_thread_pool : CreateAnswers → ℕ → Creation
create_thread_pool a n =
    if a.tp == null
    then fail []
    else if a.threads == null
    then fail (null ∷ a.tp ∷ [])
    else if a.cond_init == 0
    then if a.mutex_init == 0
      then record {
        result = some (new_pool n);
        freed = [];
        created = create_from a.pthread_create 0 n;
      }
      else fail (a.tp ∷ [])
    else fail (a.tp ∷ [])

-- `for (int i = 0; i < tp->max_worker; i++) pthread_join(tp->threads[i], NULL)`: the threads that
-- are joined.
unfoldable pub joined_from : ℕ → ℕ → List ℕ
joined_from i zero = []
joined_from i (suc n) = i ∷ joined_from (i + 1) n

abbrev pub joined : Pool → List ℕ
joined tp = joined_from 0 tp.max_worker

length-create_from : (err : ℕ → ℕ) (i n : ℕ) → length (create_from err i n) ≡ n
unfolding create_from
length-create_from err i zero = refl
length-create_from err i (suc n) = omega (arith, length-create_from err (i + 1) n)

length-joined_from : (i n : ℕ) → length (joined_from i n) ≡ n
unfolding joined_from
length-joined_from i zero = refl
length-joined_from i (suc n) = omega (arith, length-joined_from (i + 1) n)

-- A pool is returned exactly if both allocations and both initialisations succeed, whatever becomes
-- of the threads, and it is then the new pool: empty, not stopping, of `n % 65536` workers.
pub create_thread_pool_iff :
    (a : CreateAnswers) (n : ℕ) (p : Pool)
    → ((create_thread_pool a n).result ≡ some p) ↔ (
        (a.tp ≢ null)
        × (a.threads ≢ null)
        × (a.cond_init ≡ 0)
        × (a.mutex_init ≡ 0)
        × (new_pool n ≡ p))
unfolding create_thread_pool
create_thread_pool_iff a n p = (λ e. ground arith, λ e. ground arith)

-- Where a pool is returned, a thread was asked for `n` times, and release joins `n` modulo 65536.
joined_mod :
    (a : CreateAnswers) (n : ℕ) (p : Pool)
    → (create_thread_pool a n).result ≡ some p
    → (length (create_thread_pool a n).created ≡ n) × (length (joined p) ≡ n % 2 ^ 16)
unfolding create_thread_pool new_pool
joined_mod a n p e =
    let (h, k, l, m, same) = (create_thread_pool_iff a n p).0 e in
    (
      ground (arith, length-create_from a.pthread_create 0 n),
      length-joined_from 0 p.max_worker ∙ ap (λ (q : Pool). q.max_worker) (sym same),
    )

-- When an initialisation fails, the array of thread identifiers is not freed.
create_leaks :
    (a : CreateAnswers) (n : ℕ)
    → a.tp ≢ null
    → a.threads ≢ null
    → a.threads ≢ a.tp
    → (a.cond_init ≢ 0) ⊎ (a.mutex_init ≢ 0)
    → ((create_thread_pool a n).result ≡ none) × ((create_thread_pool a n).freed ≡ a.tp ∷ [])
unfolding create_thread_pool
create_leaks a n h k d e = ground arith
