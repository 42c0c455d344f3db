-- ===== src/PollServer/Tests.antt =====
-- Runs of poll-server.c, and the theorems at them.
use ukgoll_github_io.Prelude.{ℕ, ◌≡◌, refl, false, none, some, List, [], ◌∷◌, ◌==◌}
use ukgoll_github_io.PollServer.Server.{
  Revents, accepted, read_from, wrote, closed, Answers, PollResult, ready, echo, on_ready,
  after_poll, round, initial,
}
use ukgoll_github_io.PollServer.Rounds.{Inv, run, run_loses_none}

abbrev quiet : ℕ → Revents
quiet i = record { pollin = false; pollhup = false }

abbrev only : ℕ → ℕ → Revents
only k i = record { pollin = i == k; pollhup = false }

-- The client 7 comes, sends three bytes with a 0 among them, and hangs up.
abbrev session : List (Answers × PollResult)
session =
    (record { accept = some 7; read = λ j. [] }, ready (only 0))
    ∷ (record { accept = none; read = λ j. 5 ∷ 0 ∷ 6 ∷ [] }, ready (only 1))
    ∷ (record { accept = none; read = λ j. [] }, ready (only 1))
    ∷ []

session_calls :
    (run session (initial quiet)).calls
    ≡ closed 7 ∷ read_from 7 ∷ wrote 7 (5 ∷ []) ∷ read_from 7 ∷ accepted 7 ∷ []
unfolding initial round on_ready after_poll echo
session_calls = refl

run_loses_none_example : Inv (run session (initial quiet))
run_loses_none_example = run_loses_none quiet session
