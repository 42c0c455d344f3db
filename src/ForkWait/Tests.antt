-- ===== src/ForkWait/Tests.antt =====
-- Runs of fork_wait.c over a plain kind of status, and the theorem at one.
use ukgoll_github_io.Prelude.{◌%◌, ◌^◌, ◌≡◌, refl, Bool, true, false, some, ℕ, [], ◌∷◌}
use ukgoll_github_io.ForkWait.Program.{
  Ending, exits, signaled, WaitStatus, exited_normally, signal_accepted, waited_for, killed, main,
}

abbrev stored : Ending → Ending
stored (exits n) = exits (n % 2 ^ 8)
stored (signaled n core) = signaled n core

abbrev is_exit : Ending → Bool
is_exit (exits n) = true
is_exit _ = false

abbrev is_signal : Ending → Bool
is_signal (signaled n core) = true
is_signal _ = false

abbrev number : Ending → ℕ
number (exits n) = n
number (signaled n core) = n

abbrev has_core : Ending → Bool
has_core (exits n) = false
has_core (signaled n core) = core

plain : WaitStatus Ending
plain = record {
  status_of = stored;
  wifexited = is_exit;
  wexitstatus = number;
  wifsignaled = is_signal;
  wtermsig = number;
  wcoredump = has_core;
  wifstopped = λ s. false;
  wstopsig = number;
  wifcontinued = λ s. false;
  exits-wifexited = λ n. refl;
  exits-wexitstatus = λ n. refl;
  signaled-wifexited = λ n core. refl;
  signaled-wifsignaled = λ n core. refl;
  signaled-wtermsig = λ n core. refl;
  signaled-wcoredump = λ n core. refl;
}

-- The runs that the comment in the program shows.
shown :
    main plain (exits 0) (some 171751) (some 171752) (some 171754) (killed 6 true) (killed 8 true)
    ≡ waited_for (some 171751)
      ∷ exited_normally 64
      ∷ waited_for (some 171752)
      ∷ signal_accepted 6 true
      ∷ waited_for (some 171754)
      ∷ signal_accepted 8 true
      ∷ []
unfolding main plain
shown = refl
