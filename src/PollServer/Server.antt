-- ===== src/PollServer/Server.antt =====
-- The loop of poll-server.c. What the calls answer is an input.
use ukgoll_github_io.Prelude.{
  ℕ, zero, suc, ◌+◌, ◌-◌, Bool, false, ◌||◌, Option, none, some, List, [], ◌∷◌, ◌++◌, ltb, leb,
  ◌==◌, if◌then◌else◌, length, take, replicate,
}

-- `PollSize`, and the size of `buf`.
abbrev pub poll_size : ℕ
poll_size = 1024

abbrev pub buf_size : ℕ
buf_size = 256

-- `revents & POLLIN` and `revents & POLLHUP`
pub record Revents : Type 0 where
  pub pollin : Bool
  pub pollhup : Bool

-- A struct pollfd; `none` stands for -1. Where there is a descriptor, `events` is POLLIN.
pub data PollFd : Type 0 where
  pollfd : (fd : Option ℕ) (revents : Revents) → PollFd

-- `overrun` is a call of `strlen` that runs past the end of `buf`. What the log has after it is not
-- what C promises.
pub data Call : Type 0 where
  accepted : ℕ → Call
  accept_failed : Call
  read_from : ℕ → Call
  wrote : ℕ → List ℕ → Call
  overrun : ℕ → Call
  closed : ℕ → Call

-- `clientPoll[0].revents`, `clientPoll` from 1 on, `nfds`, and the calls made, the last one first.
pub record Server : Type 0 where
  pub listening : Revents
  pub clients : List PollFd
  pub nfds : ℕ
  pub calls : List Call

abbrev pub log : Server → Call → Server
log s k = record s { calls = k ∷ s.calls }

abbrev one_more : Option ℕ → Option ℕ
one_more none = none
one_more (some n) = some (suc n)

-- `strlen`, or `none` where no byte of the array is 0.
unfoldable pub strlen : List ℕ → Option ℕ
strlen [] = none
strlen (b ∷ bs) = if b == 0 then some 0 else one_more (strlen bs)

-- `char buf[256] = {0}` after `read` stored its bytes.
abbrev pub buf_after : List ℕ → List ℕ
buf_after bytes = bytes ++ replicate (buf_size - length bytes) 0

unfoldable pub write_call : ℕ → List ℕ → Option ℕ → Call
write_call d buf none = overrun d
write_call d buf (some n) = wrote d (take n buf)

-- `write(tfd, buf, strlen(buf))`
unfoldable pub echo : ℕ → List ℕ → Call
unfolding strlen write_call
echo d bytes = write_call d (buf_after bytes) (strlen (buf_after bytes))

-- The block that follows `read`, which returned `[]` for 0 or -1.
unfoldable pub on_bytes : Revents → ℕ → List ℕ → List Call → PollFd × List Call
unfolding echo
on_bytes r d [] l = (pollfd none r, closed d ∷ l)
on_bytes r d (b ∷ bs) l = (pollfd (some d) r, echo d (b ∷ bs) ∷ l)

-- One turn of the loop over the clients.
unfoldable pub visit : (ℕ → List ℕ) → PollFd → List Call → PollFd × List Call
unfolding on_bytes
visit read (pollfd none r) l = (pollfd none r, l)
visit read (pollfd (some d) r) l =
    if r.pollin || r.pollhup
    then on_bytes r d (read d) (read_from d ∷ l)
    else (pollfd (some d) r, l)

-- `for (int i = 1; i < nfds; i++)`, from `i` on.
unfoldable pub serve : (ℕ → List ℕ) → ℕ → ℕ → List PollFd → List Call → List PollFd × List Call
unfolding visit
serve read nfds i [] l = ([], l)
serve read nfds i (p ∷ ps) l =
    let (p', l') = visit read p l in
    let (ps', l'') = serve read nfds (i + 1) ps l' in
    if ltb i nfds then (p' ∷ ps', l'') else (p ∷ ps, l)

abbrev behind : PollFd → Option (ℕ × List PollFd) → Option (ℕ × List PollFd)
behind p none = none
behind p (some (i, ps)) = some (i, p ∷ ps)

-- `for (i = 1; i < PollSize; i++)`, from `i` on: the first free place.
unfoldable pub place : ℕ → ℕ → List PollFd → Option (ℕ × List PollFd)
place cfd i [] = none
place cfd i (pollfd none r ∷ ps) = some (i, pollfd (some cfd) r ∷ ps)
place cfd i (pollfd (some d) r ∷ ps) = behind (pollfd (some d) r) (place cfd (i + 1) ps)

-- What becomes of the new connection.
unfoldable pub on_place : ℕ → Option (ℕ × List PollFd) → Server → Server
on_place cfd none s = log s (closed cfd)
on_place cfd (some (i, ps)) s = record s {
  clients = ps;
  nfds = if leb s.nfds i then i + 1 else s.nfds;
}

unfoldable pub on_accept : ℕ → Server → Server
unfolding on_place place
on_accept cfd s = on_place cfd (place cfd 1 s.clients) (log s (accepted cfd))

unfoldable pub serve_clients : (ℕ → List ℕ) → Server → Server
unfolding serve
serve_clients read s =
    let (ps, l) = serve read s.nfds 1 s.clients s.calls in record s { clients = ps; calls = l }

-- `poll` sets `revents` of the first `nfds` entries, and to 0 where there is no descriptor.
abbrev pub polled : Revents → PollFd → PollFd
polled r (pollfd none _) = pollfd none (record { pollin = false; pollhup = false })
polled r (pollfd (some d) _) = pollfd (some d) r

unfoldable pub set_revents : (ℕ → Revents) → ℕ → ℕ → List PollFd → List PollFd
set_revents f nfds i [] = []
set_revents f nfds i (p ∷ ps) =
    (if ltb i nfds then polled (f i) p else p) ∷ set_revents f nfds (i + 1) ps

pub data PollResult : Type 0 where
  ready : (ℕ → Revents) → PollResult
  timed_out : PollResult
  interrupted : PollResult
  failed : PollResult

-- What `accept` returns (`none` for -1), and `read` on each descriptor.
pub record Answers : Type 0 where
  pub accept : Option ℕ
  pub read : ℕ → List ℕ

-- After `poll` has returned a positive number; where `accept` fails, no client is served.
unfoldable pub on_ready : Answers → Server → Server
unfolding on_accept serve_clients
on_ready a s =
    if s.listening.pollin
    then elim (a.accept) [
      | none ↦ log s accept_failed
      | some cfd ↦ serve_clients a.read (on_accept cfd s)
    ]
    else serve_clients a.read s

unfoldable pub after_poll : (ℕ → Revents) → Server → Server
unfolding set_revents
after_poll f s = record s { listening = f 0; clients = set_revents f s.nfds 1 s.clients }

-- A round of `for (;;)`; `none` is `break`.
unfoldable pub round : Answers → PollResult → Server → Option Server
unfolding on_ready after_poll
round a (ready f) s = some (on_ready a (after_poll f s))
round a timed_out s = some s
round a interrupted s = some s
round a failed s = none

-- `clientPoll[i].fd = -1` for `n` entries from `i` on; `revents` stays what the memory holds.
unfoldable pub free_places : (garbage : ℕ → Revents) → ℕ → ℕ → List PollFd
free_places garbage i zero = []
free_places garbage i (suc n) = pollfd none (garbage i) ∷ free_places garbage (i + 1) n

-- The variables before the loop.
unfoldable pub initial : (garbage : ℕ → Revents) → Server
unfolding free_places
initial garbage = record {
  listening = garbage 0;
  clients = free_places garbage 1 (poll_size - 1);
  nfds = 1;
  calls = [];
}
