-- ===== src/ForkWait/Program.antt =====
-- codes/apue/process/fork_wait.c: how a child ended, as its parent sees it.
use ukgoll_github_io.Prelude.{
  ℕ, ◌%◌, ◌^◌, ◌≡◌, Bool, true, false, if◌then◌else◌, Option, none, some, List, [], ◌∷◌, ◌++◌,
}

-- How a child leaves: with `exit` of a number, or by a signal, with or without a core file.
pub data Ending : Type 0 where
  exits : ℕ → Ending
  signaled : ℕ → Bool → Ending

-- The status that `wait` stores and the macros of <sys/wait.h>, with what they say of a child that has
-- ended: `exit` keeps the low eight bits.
pub record WaitStatus (S : Type 0) : Type 0 where
  pub status_of : Ending → S
  pub wifexited : S → Bool
  pub wexitstatus : S → ℕ
  pub wifsignaled : S → Bool
  pub wtermsig : S → ℕ
  pub wcoredump : S → Bool
  pub wifstopped : S → Bool
  pub wstopsig : S → ℕ
  pub wifcontinued : S → Bool
  pub exits-wifexited : (n : ℕ) → wifexited (status_of (exits n)) ≡ true
  pub exits-wexitstatus : (n : ℕ) → wexitstatus (status_of (exits n)) ≡ n % 2 ^ 8
  pub signaled-wifexited : (n : ℕ) (core : Bool) → wifexited (status_of (signaled n core)) ≡ false
  pub signaled-wifsignaled :
      (n : ℕ) (core : Bool) → wifsignaled (status_of (signaled n core)) ≡ true
  pub signaled-wtermsig : (n : ℕ) (core : Bool) → wtermsig (status_of (signaled n core)) ≡ n
  pub signaled-wcoredump : (n : ℕ) (core : Bool) → wcoredump (status_of (signaled n core)) ≡ core

pub data Message : Type 0 where
  exited_normally : ℕ → Message
  signal_accepted : ℕ → Bool → Message
  stopped : ℕ → Message
  continued : Message
  fork_error : Message
  wait_error : Message
  waited_for : Option ℕ → Message

-- What `func` does in the child: it returns, or a signal ends the child.
pub data Func : Type 0 where
  returns : Func
  killed : ℕ → Bool → Func

-- The child's branch of `test_fws`: `want` is `none` for -1, `func` is `none` for NULL.
unfoldable pub child : Option Func → Option ℕ → Ending
child func (some want) = exits want
child none none = exits 17
child (some returns) none = exits 17
child (some (killed sig core)) none = signaled sig core

module _ {S : Type 0} (status : WaitStatus S) where
  unfoldable pub fork_wait_status : S → List Message
  fork_wait_status s =
      if status.wifexited s
      then exited_normally (status.wexitstatus s) ∷ []
      else if status.wifsignaled s
      then signal_accepted (status.wtermsig s) (status.wcoredump s) ∷ []
      else if status.wifstopped s
      then stopped (status.wstopsig s) ∷ []
      else if status.wifcontinued s
      then continued ∷ []
      else []

  -- The parent, from `wait` on. `garbage` is what `exit_status` holds before the call.
  unfoldable pub parent_waits : S → Option (ℕ × S) → List Message
  unfolding fork_wait_status
  parent_waits garbage none = wait_error ∷ waited_for none ∷ fork_wait_status garbage
  parent_waits garbage (some (pid, s)) = waited_for (some pid) ∷ fork_wait_status s

  -- What the parent prints in `test_fws`. `fork` gives the child's pid or fails, and then `wait` fails too,
  -- since there is no child.
  unfoldable pub test_fws : S → Option ℕ → Option Func → Option ℕ → List Message
  unfolding child parent_waits
  test_fws garbage none func want = fork_error ∷ parent_waits garbage none
  test_fws garbage (some pid) func want =
      parent_waits garbage (some (pid, status.status_of (child func want)))

  -- The child that `abort` ends and the one that divides by zero, by the signals 6 and 8.
  unfoldable pub main : S → Option ℕ → Option ℕ → Option ℕ → Func → Func → List Message
  unfolding test_fws
  main garbage fork1 fork2 fork3 abort test_divide_zero =
      test_fws garbage fork1 none (some 32832)
      ++ (test_fws garbage fork2 (some abort) none
          ++ test_fws garbage fork3 (some test_divide_zero) none)
