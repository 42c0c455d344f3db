-- ===== src/HttpServer/Setup.antt =====
-- `poll_init` of the two back ends, which differ in the call that makes the queue only, and `main` up
-- to its loop.
use ukgoll_github_io.Prelude.{
  ℕ, ◌≡◌, ◌↔◌, ◌⊎◌, Bool, true, false, not, ltb, ◌==◌, if◌then◌else◌, Option, none, some, arith,
}
use ukgoll_github_io.HttpServer.Poll.{Ptr, null}
use ukgoll_github_io.HttpServer.State.{set_non_blocking}

-- `poll_t`; the static one starts with zeros.
pub record PollLoop : Type 0 where
  pub fd : Option ℕ
  pub main_co : Ptr
  pub s_stack : Ptr

abbrev pub default_loop : PollLoop
default_loop = record { fd = some 0; main_co = null; s_stack = null }

-- What the calls answer before the loop of `main`.
pub record SetupAnswers : Type 0 where
  pub queue : Option ℕ
  pub main_co : Ptr
  pub s_stack : Ptr
  pub socket : Option ℕ
  pub fcntl : Option ℕ
  pub bind_ok : Bool
  pub listen_ok : Bool
  pub kevent_ok : Bool

-- Whether it returns 0, and the loop that it leaves.
unfoldable pub poll_init : SetupAnswers → PollLoop → Bool × PollLoop
poll_init a l = elim (a.queue) [
  | none ↦ (false, record l { fd = none })
  | some fd ↦
      let l1 = record l { fd = some fd } in
      let l2 = record l1 { main_co = a.main_co } in
      if a.main_co == null
      then (false, l1)
      else if a.s_stack == null
      then (false, l2)
      else (true, record l2 { s_stack = a.s_stack })
]

-- `main` reaches its loop, or goes to `error`, where the shared stack is destroyed if it is there, and
-- `aco_destroy` is called on a routine.
pub data Start : Type 0 where
  serving : ℕ → PollLoop → Start
  stopped : (stack_destroyed : Bool) (routine : Ptr) → Start

unfoldable pub on_error : PollLoop → Start
on_error l = stopped (not (l.s_stack == null)) l.main_co

-- From `set_non_blocking` on.
unfoldable pub listen_on : SetupAnswers → PollLoop → ℕ → Start
unfolding on_error
listen_on a l s_fd =
    if ltb (set_non_blocking a.fcntl) 0
    then on_error l
    else if not a.bind_ok
    then on_error l
    else if not a.listen_ok
    then on_error l
    else if not a.kevent_ok
    then on_error l
    else serving s_fd l

unfoldable pub start : SetupAnswers → Start
unfolding poll_init listen_on
start a =
    let (ok, l) = poll_init a default_loop in
    if not ok
    then on_error l
    else elim (a.socket) [ none ↦ on_error l | some fd ↦ listen_on a l fd ]

-- `main` reaches its loop exactly if the queue, the routine, the stack and the socket are made and
-- `bind`, `listen` and `kevent` succeed, be the socket non-blocking or not; and the routine that is
-- destroyed at `error` is NULL exactly if the queue or the routine was not made.
start_lem :
    (a : SetupAnswers) (q s_fd : ℕ)
    → ((start a ≡ serving s_fd (record { fd = some q; main_co = a.main_co; s_stack = a.s_stack }))
        ↔ ((a.queue ≡ some q)
            × ((a.main_co == null) ≡ false)
            × ((a.s_stack == null) ≡ false)
            × (a.socket ≡ some s_fd)
            × (a.bind_ok ≡ true)
            × (a.listen_ok ≡ true)
            × (a.kevent_ok ≡ true)))
      × ((start a ≡ stopped false null) ↔ ((a.queue ≡ none) ⊎ (a.main_co ≡ null)))
unfolding start set_non_blocking
start_lem a q s_fd = (
  (λ e. ground (arith, e), λ h. ground (arith, h)),
  (λ e. ground (arith, e), λ h. ground (arith, h)),
)
