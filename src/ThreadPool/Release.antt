-- ===== src/ThreadPool/Release.antt =====
-- codes/apue/threadpool/main.c: `release_thread_poll` at its joins, while the workers go on.
use ukgoll_github_io.Prelude.{ℕ, suc, ◌+◌, ◌*◌, ◌≡◌, some, List, get_elem?, length}
use ukgoll_github_io.ThreadPool.Store.{Store}
use ukgoll_github_io.ThreadPool.Linked.{Cell, Linked}
use ukgoll_github_io.Prelude.Tally.{tally}
use ukgoll_github_io.ThreadPool.System.{Worker, taken, running, exited, System, Step}
use ukgoll_github_io.ThreadPool.Inv.{Inv}

-- A bound on the steps of a worker, where there is no more task.
abbrev pub rank : Worker → ℕ
rank (taken p f x) = 3
rank (running f x) = 2
rank exited = 0
rank _ = 1

abbrev pub steps_left : List Cell → System → ℕ
steps_left cs s = 3 * length cs + tally rank s.workers

-- So many steps from one state to another.
pub data Run (s : System) : ℕ → System → Type 0 where
  still : Run s 0 s
  more : {m : ℕ} {t u : System} → Run s m t → Step t u → Run s (suc m) u

-- Every worker has left.
abbrev pub AllExited : List Worker → Type 0
AllExited ws = (i : ℕ) (w : Worker) → get_elem? ws i ≡ some w → w ≡ exited
