-- ===== src/HttpServer/Routine.antt =====
-- `client_routine` of main.c between two switches, and `poll_delete`.
use ukgoll_github_io.Prelude.{Bool, if◌then◌else◌, none, some, List, [], ◌∷◌}
use ukgoll_github_io.HttpServer.Poll.{Backend}
use ukgoll_github_io.HttpServer.State.{
  Conn, free_sa, closed, read_from, wrote, Server, Errno, log, eagain, eintr, other,
}

pub data ReadResult : Type 0 where
  got : ReadResult
  end_of_file : ReadResult
  read_fails : Errno → ReadResult

-- What the calls answer until the routine switches back: `read`, whether `write` returns more than 0,
-- and whether the system call of `poll_delete` succeeds.
pub record Replies : Type 0 where
  pub reads : List ReadResult
  pub write_ok : Bool
  pub delete_ok : Bool

-- `aco_yield`, `aco_exit`, or neither with these answers.
pub data Switch (K : Type 0) : Type 0 where
  yields : Server K → Switch K
  exits : Server K → Switch K
  reading_on : Switch K

module _ {K : Type 0} (backend : Backend K) where
  -- `poll_delete`
  unfoldable pub poll_delete : Bool → Conn → Server K → Server K
  poll_delete ok c s = elim (backend.remove ok c.fd s.kernel) [
    | none ↦ s
    | some k ↦ record s { kernel = k; calls = closed c.fd ∷ free_sa c.sa ∷ s.calls }
  ]

  -- The branch for EAGAIN.
  unfoldable pub respond : Replies → Conn → Server K → Switch K
  unfolding poll_delete
  respond a c s =
      let s' = log s (wrote c.fd) in
      if a.write_ok then yields s' else exits (poll_delete a.delete_ok c s')

  -- `while (1)`, from the start or from the return of `aco_yield`.
  unfoldable pub client_routine : Replies → Conn → List ReadResult → Server K → Switch K
  unfolding respond
  client_routine a c [] s = reading_on
  client_routine a c (got ∷ rs) s = client_routine a c rs (log s (read_from c.fd))
  client_routine a c (end_of_file ∷ rs) s =
      exits (poll_delete a.delete_ok c (log s (read_from c.fd)))
  client_routine a c (read_fails eagain ∷ rs) s = respond a c (log s (read_from c.fd))
  client_routine a c (read_fails eintr ∷ rs) s = client_routine a c rs (log s (read_from c.fd))
  client_routine a c (read_fails other ∷ rs) s =
      exits (poll_delete a.delete_ok c (log s (read_from c.fd)))
