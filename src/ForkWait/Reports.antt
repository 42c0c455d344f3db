-- ===== src/ForkWait/Reports.antt =====
-- codes/apue/process/fork_wait.c: what the parent prints of its child.
use ukgoll_github_io.Prelude.{ℕ, ◌%◌, ◌^◌, ◌≡◌, refl, ap, Option, none, some, [], ◌∷◌}
use ukgoll_github_io.ForkWait.Program.{
  Ending, exits, signaled, WaitStatus, Message, exited_normally, signal_accepted, fork_error,
  wait_error, waited_for, Func, child, fork_wait_status, parent_waits, test_fws,
}

-- How a child ended, as it is printed.
abbrev pub report : Ending → Message
report (exits n) = exited_normally (n % 2 ^ 8)
report (signaled n core) = signal_accepted n core

module _ {S : Type 0} (status : WaitStatus S) where
  fork_wait_status-status_of :
      (e : Ending) → fork_wait_status status (status.status_of e) ≡ report e ∷ []
  unfolding fork_wait_status
  fork_wait_status-status_of (exits n) =
      rw (status.exits-wifexited n, status.exits-wexitstatus n) refl
  fork_wait_status-status_of (signaled n core) =
      rw
        (
          status.signaled-wifexited n core,
          status.signaled-wifsignaled n core,
          status.signaled-wtermsig n core,
          status.signaled-wcoredump n core,
        )
        refl

  -- Where the fork succeeds the parent prints the child's pid and how the child ended: the low eight bits
  -- of what it exits with, or the signal, with the core file. The child exits with the status that is
  -- wanted and does not call the function; where none is wanted, with 17 if the function returns.
  test_fws_lem :
      (garbage : S) (pid : ℕ) (func : Option Func) (want : Option ℕ)
      → test_fws status garbage (some pid) func want
        ≡ waited_for (some pid) ∷ report (child func want) ∷ []
  unfolding test_fws parent_waits
  test_fws_lem garbage pid func want =
      ap (λ l. waited_for (some pid) ∷ l) (fork_wait_status-status_of (child func want))

  -- Where the fork fails, the parent goes on and prints, behind the two errors, what the macros make of
  -- a status that was never stored.
  pub failed_fork_decodes :
      (garbage : S) (func : Option Func) (want : Option ℕ)
      → test_fws status garbage none func want
        ≡ fork_error ∷ wait_error ∷ waited_for none ∷ fork_wait_status status garbage
  unfolding test_fws parent_waits
  failed_fork_decodes garbage func want = refl
