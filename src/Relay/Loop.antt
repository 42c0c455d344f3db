-- ===== src/Relay/Loop.antt =====
-- The body of the loop of no_blocking_tcp_client.c, block by block.
use ukgoll_github_io.Prelude.{
  ℕ, ◌+◌, ◌-◌, true, false, not, ◌&&◌, ◌||◌, List, [], ◌∷◌, ltb, ◌==◌, if◌then◌else◌,
}
use ukgoll_github_io.Relay.Buffer.{tcp_recv_buf, tcp_send_buf, pending, contents, fill, drain}
use ukgoll_github_io.Relay.State.{
  ReadResult, got, read_block, read_error, WriteResult, took, write_block, write_error, read_stdin,
  read_socket, write_socket, write_stdout, get_so_error, shutdown_wr, close_socket, Flags, no_flags,
  PollSet, PollResult, poll_eintr, poll_error, poll_timeout, ready, Answers, Client, log, Outcome,
  go_on, next_round, break_loop, exit_failure, ◌>>=◌,
}

-- The `events` of the three descriptors at the head of the loop.
unfoldable pub interests : Client → PollSet
interests c =
    if c.connecting
    then record {
      stdin = no_flags;
      socket = record { pollin = true; pollout = true };
      stdout = no_flags;
    }
    else record {
      stdin = record { pollin = not c.stdineof && ltb c.to.stop tcp_recv_buf; pollout = false };
      socket = record {
        pollin = ltb c.fr.stop tcp_send_buf;
        pollout = not (c.to.start == c.to.stop);
      };
      stdout = record { pollin = false; pollout = not (c.fr.start == c.fr.stop) };
    }

unfoldable pub stdin_answer : ReadResult → Client → Outcome
stdin_answer read_block c = go_on c
stdin_answer read_error c = exit_failure c
stdin_answer (got []) c =
    let c' = record c { stdineof = true } in
    go_on (if c.to.start == c.to.stop then log c' shutdown_wr else c')
stdin_answer (got (x ∷ xs)) c = go_on (record c { to = fill c.to (x ∷ xs); can_write_fd = true })

-- The block `if (fds[0].revents & POLLIN)`.
unfoldable pub on_stdin : Flags → (ℕ → ReadResult) → Client → Outcome
on_stdin revents read c =
    let room = tcp_recv_buf - c.to.stop in
    if revents.pollin
    then stdin_answer (read room) (log c (read_stdin room (read room)))
    else go_on c

-- The branch `if (cn == -1)`; `err` is what SO_ERROR gives.
unfoldable pub on_connect : ℕ → Client → Outcome
on_connect err c =
    if err == 0
    then go_on (record (log c get_so_error) { connecting = false })
    else exit_failure (log (log c get_so_error) close_socket)

unfoldable pub socket_read_answer : ReadResult → Client → Outcome
socket_read_answer read_block c = go_on c
socket_read_answer read_error c = exit_failure c
socket_read_answer (got []) c = break_loop (if c.stdineof then c else log c close_socket)
socket_read_answer (got (x ∷ xs)) c =
    go_on (record c { fr = fill c.fr (x ∷ xs); can_write_out = true })

-- The branch `if (fds[1].revents & POLLIN)`.
unfoldable pub on_socket_read : (ℕ → ReadResult) → Client → Outcome
on_socket_read read c =
    let room = tcp_send_buf - c.fr.stop in
    socket_read_answer (read room) (log c (read_socket room (read room)))

unfoldable pub socket_write_answer : WriteResult → Client → Outcome
socket_write_answer write_block c = go_on c
socket_write_answer write_error c = exit_failure c
socket_write_answer (took wn) c =
    let c' = record c { to = drain c.to wn } in
    go_on (if (c.to.start + wn == c.to.stop) && c.stdineof then log c' shutdown_wr else c')

-- The branch `else if (can_write_fd || (fds[1].revents & POLLOUT))`.
unfoldable pub on_socket_write : (ℕ → WriteResult) → Client → Outcome
on_socket_write write c =
    let count = pending c.to in
    if ltb 0 count
    then socket_write_answer (write count) (log c (write_socket (contents c.to) (write count)))
    else go_on c

-- The block `if (can_write_fd || (fds[1].revents & (POLLIN | POLLOUT)))`.
unfoldable pub on_socket : Flags → ℕ → (ℕ → ReadResult) → (ℕ → WriteResult) → Client → Outcome
on_socket revents err read write c =
    if c.can_write_fd || (revents.pollin || revents.pollout)
    then if c.connecting
      then on_connect err c
      else if revents.pollin
      then on_socket_read read c
      else if c.can_write_fd || revents.pollout
      then on_socket_write write c
      else go_on c
    else go_on c

unfoldable pub stdout_answer : WriteResult → Client → Outcome
stdout_answer write_block c = go_on c
stdout_answer write_error c = exit_failure c
stdout_answer (took wn) c = go_on (record c { fr = drain c.fr wn })

-- The block `if (can_write_out || fds[2].revents & POLLOUT)`.
unfoldable pub on_stdout : Flags → (ℕ → WriteResult) → Client → Outcome
on_stdout revents write c =
    let count = pending c.fr in
    if c.can_write_out || revents.pollout
    then if ltb 0 count
      then stdout_answer (write count) (log c (write_stdout (contents c.fr) (write count)))
      else next_round c
    else go_on c

-- The three blocks of a round in which `poll` returned a count.
unfoldable pub on_ready : PollSet → Answers → Client → Outcome
on_ready p a c =
    on_stdin p.stdin a.stdin_read c
    >>= on_socket p.socket a.so_error a.socket_read a.socket_write
    >>= on_stdout p.stdout a.stdout_write

unfoldable pub on_poll : PollResult → Answers → Client → Outcome
on_poll poll_eintr a c = go_on c
on_poll poll_error a c = break_loop c
on_poll poll_timeout a c = go_on c
on_poll (ready p) a c = on_ready p a c

-- `can_write_fd = 0, can_write_out = 0`
abbrev pub new_round : Client → Client
new_round c = record c { can_write_fd = false; can_write_out = false }

-- The body of the loop.
unfoldable pub round : Answers → Client → Outcome
round a c = on_poll (a.polled (interests c)) a (new_round c)

-- What follows a round: the next one, or the `close(fd)` behind the loop.
unfoldable pub after_round : (Client → Outcome) → Outcome → Outcome
after_round loop (go_on c) = loop c
after_round loop (next_round c) = loop c
after_round loop (break_loop c) = break_loop (log c close_socket)
after_round loop (exit_failure c) = exit_failure c

-- The loop, for as many rounds as there are answers.
unfoldable pub relay : List Answers → Client → Outcome
unfolding after_round
relay [] c = go_on c
relay (a ∷ rest) c = after_round (relay rest) (round a c)
