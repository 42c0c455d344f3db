-- ===== src/HttpServer/Accept.antt =====
-- `handle_accept` of main.c.
use ukgoll_github_io.Prelude.{
  ℕ, Bool, false, not, ltb, ◌==◌, if◌then◌else◌, Option, none, some, List, [], ◌∷◌,
}
use ukgoll_github_io.HttpServer.Poll.{Ptr, null, eread, Backend}
use ukgoll_github_io.HttpServer.State.{
  malloc_sa, free_sa, malloc_conn, free_conn, accepted, created, Server, Result, done, running,
  store, log, Errno, is_eagain, is_eintr, set_non_blocking,
}

pub data AcceptResult : Type 0 where
  got_client : ℕ → AcceptResult
  accept_fails : Errno → AcceptResult

-- What the calls of one turn answer: the two `malloc`, `accept`, `fcntl`, `aco_create` and the call of
-- `poll_add`.
pub record Attempt : Type 0 where
  pub sa : Ptr
  pub block : Ptr
  pub accept : AcceptResult
  pub fcntl : Option ℕ
  pub routine : Ptr
  pub add_ok : Bool

-- How a turn ends: the next one, or `break` or `return`.
pub data Turn (K : Type 0) : Type 0 where
  next : Server K → Turn K
  leave : Server K → Turn K

module _ {K : Type 0} (backend : Backend K) where
  abbrev pub drop_conn : Ptr → Server K → Server K
  drop_conn p s = record s { conns = store p none s.conns; calls = free_conn p ∷ s.calls }

  -- `poll_add`; where it fails, that is only logged.
  unfoldable pub watch : Bool → ℕ → Ptr → Server K → Server K
  watch ok fd p s = elim (backend.add ok fd eread p s.kernel) [
    | none ↦ s
    | some k ↦ record s { kernel = k }
  ]

  -- From `aco_create` on.
  unfoldable pub start_routine : Attempt → ℕ → Server K → Turn K
  unfolding watch
  start_routine a fd s =
      if a.routine == null
      then leave (drop_conn a.block s)
      else next (
          watch a.add_ok fd a.block (record s {
            conns =
                store a.block (some (record { fd = fd; routine = a.routine; sa = a.sa })) s.conns;
            routines = store a.routine (some (record { arg = a.block; is_end = false })) s.routines;
            calls = created a.routine ∷ s.calls;
          }))

  -- Where `accept` has returned a descriptor.
  unfoldable pub on_client : Attempt → ℕ → Server K → Turn K
  unfolding start_routine
  on_client a fd s =
      if ltb (set_non_blocking a.fcntl) 0
      then leave (drop_conn a.block s)
      else start_routine a fd (record s {
        conns = store a.block (some (record { fd = fd; routine = null; sa = a.sa })) s.conns;
      })

  -- Where it has returned -1. The second test is never reached with EINTR.
  unfoldable pub on_failure : Attempt → Errno → Server K → Turn K
  on_failure a e s =
      if not (is_eagain e)
      then leave (drop_conn a.block (log s (free_sa a.sa)))
      else if is_eintr e
      then next s
      else leave s

  unfoldable pub on_accept : Attempt → AcceptResult → Server K → Turn K
  unfolding on_client on_failure
  on_accept a (got_client fd) s = on_client a fd (log s (accepted fd))
  on_accept a (accept_fails e) s = on_failure a e s

  -- A turn of `while (1)`. The fields of a block from `malloc` are not read before they are set.
  unfoldable pub accept_once : Attempt → Server K → Turn K
  unfolding on_accept
  accept_once a s =
      let s1 = log s (malloc_sa a.sa) in
      let s2 = record s1 {
        conns = store a.block (some (record { fd = 0; routine = null; sa = null })) s1.conns;
        calls = malloc_conn a.block ∷ s1.calls;
      } in
      if a.sa == null
      then leave s
      else if a.block == null
      then leave s1
      else on_accept a a.accept s2

  unfoldable pub handle_accept : List Attempt → Server K → Result (Server K)
  unfolding accept_once
  handle_accept [] s = running
  handle_accept (a ∷ rest) s = elim (accept_once a s) [
    | next s' ↦ handle_accept rest s'
    | leave s' ↦ done s'
  ]
