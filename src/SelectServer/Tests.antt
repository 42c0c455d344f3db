-- ===== src/SelectServer/Tests.antt =====
-- Runs of select-server.c, and the theorems at them.
use ukgoll_github_io.Prelude.{
  ℕ, ◌+◌, ◌*◌, ◌≡◌, ◌≤◌, refl, true, ◌||◌, some, [], ◌∷◌, ◌==◌, if◌then◌else◌, arith,
}
use ukgoll_github_io.SelectServer.Server.{
  FdSet, fd_put, accepted, Select, Answers, serve, ready, go_on, round, initial,
}
use ukgoll_github_io.SelectServer.Inv.{Inv, reads, closes, at_end}
use ukgoll_github_io.SelectServer.Serve.{ready_client, round_serves_once}
use ukgoll_github_io.SelectServer.Runs.{Run, start, next}

-- `accept` returns 1023; the client 1023 has hung up.
abbrev answers : Answers
answers = record { accept = some 1023; read = λ j. if j == 1023 then [] else 7 ∷ [] }

abbrev only : ℕ → FdSet
only i j = i == j

-- The listener is 3, and the client 4 is there.
abbrev one_client : Select
one_client = record { maxfd = 5; cache = λ j. (j == 3) || (j == 4); calls = accepted 4 ∷ [] }

abbrev after_accept : Select
after_accept = record {
  maxfd = 1024;
  cache = fd_put 1023 true (initial 3).cache;
  calls = accepted 1023 ∷ [];
}

round_serves_once_example :
    (s' : Select) × (round 3 answers 3 (ready 1 (only 4)) one_client ≡ go_on s')
    × Inv 3 s'
    × (5 ≤ s'.maxfd)
    × ((j : ℕ) → reads j s'.calls ≡ reads j one_client.calls + ready_client 3 answers (only 4) j)
    × ((j : ℕ)
        → closes j s'.calls
          ≡ closes j one_client.calls + ready_client 3 answers (only 4) j * at_end (answers.read j))
round_serves_once_example =
    round_serves_once 3 answers (only 4) 3 1 one_client
      (record {
        listens = refl;
        range = λ j e. ground (arith, e);
        balance = λ j d. ground (arith, d);
      })
      (omega arith) (omega arith) (record { counted = refl; asked = λ j e. ground (arith, e) })
      (ground arith)

one_accept : Run 3 after_accept
unfolding initial fd_put round serve
one_accept =
    next answers (only 3) 1 start (record { counted = refl; asked = λ j e. ground (arith, e) })
      (ground arith) refl
