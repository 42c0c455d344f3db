-- ===== src/ThreadPool/Queue.antt =====
-- The operations of the thread pool on its list of tasks.
use ukgoll_github_io.Prelude.{ℕ, true, not, ◌&&◌, ◌==◌, if◌then◌else◌}
use ukgoll_github_io.ThreadPool.Store.{
  Ptr, null, task, Cmd, pure, ◌>>=◌, ◌>>◌, get_pool, put_pool, init_task, load, set_next, set_prev,
}

-- `task->prev = tp->queue_tail; tp->queue_tail->next = task; tp->queue_tail = task;`
unfoldable pub link_behind : Ptr → Cmd (Unit {0})
link_behind t = do
  tp ← get_pool
  set_prev t tp.queue_tail
  set_next tp.queue_tail t
  put_pool (record tp { queue_tail = t })

-- `add_task` up to the unlock; `t` is what `malloc` returned. The signal follows it.
unfoldable pub add_task : (t : Ptr) → ℕ → ℕ → Cmd (Unit {0})
add_task t f x = do
  init_task t (task f x null null)
  tp ← get_pool
  if tp.queue_tail == null
      then put_pool (record tp { queue = t; queue_tail = t })
      else link_behind t

-- What a worker finds when it holds the lock at the test of its inner loop.
pub data Found : Type 0 where
  must_wait : Found
  must_exit : Found
  no_task : Found
  took : Ptr → Found

-- `if (rtp->queue_tail) rtp->queue_tail->next = NULL; else rtp->queue = NULL;`
unfoldable pub cut_behind : Ptr → Cmd (Unit {0})
cut_behind q = do
  tp ← get_pool
  if q == null then put_pool (record tp { queue = null }) else set_next q null

-- The block that takes `queue_tail` off the list.
unfoldable pub unlink_tail : Cmd Found
unlink_tail = do
  tp ← get_pool
  t ← load tp.queue_tail
  put_pool (record tp { queue_tail = t.prev })
  cut_behind t.prev
  pure (took tp.queue_tail)

-- `thread_pool_item` from the lock to the wait, the exit or the unlock. On `no_task` the worker goes
-- on with the value that `thread_task` had before.
unfoldable pub take_task : Cmd Found
take_task = do
  tp ← get_pool
  if (tp.queue == null) && not tp.stop
      then pure must_wait
      else if tp.stop && (tp.queue == null)
      then pure must_exit
      else if not (tp.queue_tail == null)
      then unlink_tail
      else pure no_task

-- After the unlock: `thread_task->prev = NULL`, and the call that is made.
unfoldable pub start_task : Ptr → Cmd (ℕ × ℕ)
start_task t = do set_prev t null; d ← load t; pure (d.func, d.args)

-- `release_thread_poll` up to the unlock.
unfoldable pub request_stop : Cmd (Unit {0})
request_stop = do tp ← get_pool; put_pool (record tp { stop = true })
