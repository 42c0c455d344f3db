-- ===== src/SelectServer/Server.antt =====
-- The loop of select-server.c. An fd_set is a function to Bool; what the calls answer is an input.
use ukgoll_github_io.Prelude.{
  ℕ, zero, suc, ◌+◌, ◌-◌, Bool, true, false, not, ◌&&◌, Option, none, some, List, [], ◌∷◌, ltb, leb,
  ◌==◌, if◌then◌else◌,
}

abbrev pub FdSet : Type 0
FdSet = ℕ → Bool

-- `FD_SET` and `FD_CLR`
unfoldable pub fd_put : ℕ → Bool → FdSet → FdSet
fd_put i b s j = if i == j then b else s j

pub data Call : Type 0 where
  accepted : ℕ → Call
  accept_failed : Call
  read_from : ℕ → Call
  wrote : ℕ → List ℕ → Call
  shut_rd : ℕ → Call
  closed : ℕ → Call

-- The variables of the loop: `maxfd`, `readfd_cache`, and the calls made, the last one first.
pub record Select : Type 0 where
  pub maxfd : ℕ
  pub cache : FdSet
  pub calls : List Call

-- What `accept` returns (`none` for -1), and `read` on each descriptor (`[]` for 0 or -1).
pub record Answers : Type 0 where
  pub accept : Option ℕ
  pub read : ℕ → List ℕ

abbrev pub log : Select → Call → Select
log s k = record s { calls = k ∷ s.calls }

abbrev pub fd_setsize : ℕ
fd_setsize = 1024

-- `for (int j …; j < maxfd; j++)`, `n` rounds from `j` on: the new `new_maxfd`.
unfoldable pub scan_max : FdSet → ℕ → ℕ → ℕ → ℕ
scan_max set j zero new_maxfd = new_maxfd
scan_max set j (suc n) new_maxfd = scan_max set (j + 1) n (if set j then j + 1 else new_maxfd)

-- `sfd`, the descriptor that listens, does not change.
module _ (sfd : ℕ) where
  -- The branch `if (i == sfd)`.
  unfoldable pub on_listener : Option ℕ → Select → Select
  on_listener none s = log s accept_failed
  on_listener (some cfd) s = record (log s (accepted cfd)) {
    cache = fd_put cfd true s.cache;
    maxfd = if leb s.maxfd cfd then cfd + 1 else s.maxfd;
  }

  -- The value of `maxfd` after the client `i` has gone.
  unfoldable pub shrink : ℕ → Select → ℕ
  unfolding scan_max
  shrink i s =
      if i == s.maxfd - 1
      then scan_max s.cache (sfd + 1) (s.maxfd - (sfd + 1)) (sfd + 1)
      else s.maxfd

  unfoldable pub on_bytes : ℕ → List ℕ → Select → Select
  unfolding shrink
  on_bytes i [] s = record (log s (closed i)) { maxfd = shrink i s; cache = fd_put i false s.cache }
  on_bytes i (b ∷ bs) s = log (log s (wrote i (b ∷ bs))) (shut_rd i)

  -- The branch `else`.
  unfoldable pub on_client : (ℕ → List ℕ) → ℕ → Select → Select
  unfolding on_bytes
  on_client read i s = on_bytes i (read i) (log s (read_from i))

  -- The block `if (FD_ISSET(i, &readfd))` less the count.
  unfoldable pub visit : Answers → ℕ → Select → Select
  unfolding on_listener on_client
  visit a i s = if i == sfd then on_listener a.accept s else on_client a.read i s

  -- The loop over the descriptors, on fuel, with `ret` left to find.
  unfoldable pub serve : Answers → FdSet → ℕ → ℕ → ℕ → Select → Option Select
  unfolding visit
  serve a readfd zero i ret s = none
  serve a readfd (suc fuel) i ret s =
      let rest =
        serve a readfd fuel (i + 1) (if readfd i then ret - 1 else ret)
          (if readfd i then visit a i s else s) in
      if ltb i s.maxfd && not (ret == 0) then rest else some s

  -- What `select` answers.
  pub data Selected : Type 0 where
    ready : ℕ → FdSet → Selected
    timed_out : Selected
    interrupted : Selected
    failed : Selected

  -- How a round of `for (;;)` ends: the next one, `break`, or `exit(EXIT_FAILURE)`.
  pub data Outcome : Type 0 where
    go_on : Select → Outcome
    break_loop : Outcome
    exit_failure : Outcome
    out_of_fuel : Outcome

  unfoldable pub served : Option Select → Outcome
  served none = out_of_fuel
  served (some s) = go_on s

  unfoldable pub on_selected : Answers → ℕ → Selected → Select → Outcome
  unfolding served serve
  on_selected a fuel (ready ret readfd) s = served (serve a readfd fuel sfd ret s)
  on_selected a fuel timed_out s = go_on s
  on_selected a fuel interrupted s = go_on s
  on_selected a fuel failed s = break_loop

  -- A round of `for (;;)`.
  unfoldable pub round : Answers → ℕ → Selected → Select → Outcome
  unfolding on_selected
  round a fuel r s = if leb fd_setsize s.maxfd then exit_failure else on_selected a fuel r s

  -- The variables before the loop.
  unfoldable pub initial : Select
  initial = record { maxfd = sfd + 1; cache = fd_put sfd true (λ _. false); calls = [] }
