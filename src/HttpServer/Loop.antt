-- ===== src/HttpServer/Loop.antt =====
-- The loop over the events in `main`.
use ukgoll_github_io.Prelude.{ℕ, Bool, ◌&&◌, ◌==◌, if◌then◌else◌, none, List, [], ◌∷◌}
use ukgoll_github_io.HttpServer.Poll.{Ptr, Backend}
use ukgoll_github_io.HttpServer.State.{
  free_conn, destroyed, Server, Result, done, running, fault, ◌>>=◌, load, store,
}
use ukgoll_github_io.HttpServer.Accept.{Attempt, handle_accept}
use ukgoll_github_io.HttpServer.Routine.{Replies, Switch, yields, exits, reading_on, client_routine}

-- A struct kevent: `ident`, `filter & EVFILT_READ`, `udata`.
pub record Event : Type 0 where
  pub ident : ℕ
  pub readable : Bool
  pub udata : Ptr

-- What the calls answer while an event is handled.
pub record Answers : Type 0 where
  pub attempts : List Attempt
  pub replies : Replies

module _ {K : Type 0} (backend : Backend K) where
  -- `aco_destroy` and `free`, once `is_end` is set.
  unfoldable pub release : Ptr → Ptr → Server K → Server K
  release p r s = record s {
    conns = store p none s.conns;
    routines = store r none s.routines;
    calls = free_conn p ∷ destroyed r ∷ s.calls;
  }

  unfoldable pub after_switch : Ptr → Ptr → Switch K → Result (Server K)
  unfolding release
  after_switch p r (yields s) = done s
  after_switch p r (exits s) = done (release p r s)
  after_switch p r reading_on = running

  -- `aco_resume(conn->routine)`, and what follows it; the routine finds its connection by its argument.
  unfoldable pub resume : Replies → Ptr → Server K → Result (Server K)
  unfolding after_switch client_routine
  resume a p s = do
    c ← load (s.conns p)
    r ← load (s.routines c.routine)
    d ← load (s.conns r.arg)
    if r.is_end then fault else after_switch p c.routine (client_routine backend a d a.reads s)

  -- A turn of the loop over the events.
  unfoldable pub on_event : ℕ → Answers → Event → Server K → Result (Server K)
  unfolding resume handle_accept
  on_event s_fd a e s =
      if (e.ident == s_fd) && e.readable
      then handle_accept backend a.attempts s
      else if e.readable
      then resume a.replies e.udata s
      else done s

  -- `for(int i=0;i<ret;i++)`
  unfoldable pub on_events : ℕ → List (Answers × Event) → Server K → Result (Server K)
  unfolding on_event
  on_events s_fd [] s = done s
  on_events s_fd ((a, e) ∷ es) s = on_event s_fd a e s >>= λ s'. on_events s_fd es s'
