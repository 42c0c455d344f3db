-- ===== src/Relay/State.antt =====
-- The variables of the loop of no_blocking_tcp_client.c, its system calls, and what they answer.
use ukgoll_github_io.Prelude.{ℕ, Bool, false, List, [], ◌∷◌, replicate}
use ukgoll_github_io.Relay.Buffer.{Buffer, tcp_recv_buf, tcp_send_buf}

-- What `read` answers: the bytes (none at the end of file), or -1 with EWOULDBLOCK, or another -1.
pub data ReadResult : Type 0 where
  got : List ℕ → ReadResult
  read_block : ReadResult
  read_error : ReadResult

-- What `write` answers: the count, or -1 with EWOULDBLOCK, or another -1.
pub data WriteResult : Type 0 where
  took : ℕ → WriteResult
  write_block : WriteResult
  write_error : WriteResult

-- A system call of the loop: the count that a `read` asks for with what it answers, the bytes that
-- a `write` is given with what it answers.
pub data Call : Type 0 where
  read_stdin : ℕ → ReadResult → Call
  read_socket : ℕ → ReadResult → Call
  write_socket : List ℕ → WriteResult → Call
  write_stdout : List ℕ → WriteResult → Call
  get_so_error : Call
  shutdown_wr : Call
  close_socket : Call

-- The bits POLLIN and POLLOUT of `events` and `revents`.
pub record Flags : Type 0 where
  pub pollin : Bool
  pub pollout : Bool

abbrev pub no_flags : Flags
no_flags = record { pollin = false; pollout = false }

-- `fds[0]`, `fds[1]` and `fds[2]`.
pub record PollSet : Type 0 where
  pub stdin : Flags
  pub socket : Flags
  pub stdout : Flags

-- What `poll` answers.
pub data PollResult : Type 0 where
  poll_eintr : PollResult
  poll_error : PollResult
  poll_timeout : PollResult
  ready : PollSet → PollResult

-- What the system answers in one round, for each call that the round may make.
pub record Answers : Type 0 where
  pub polled : PollSet → PollResult
  pub stdin_read : ℕ → ReadResult
  pub so_error : ℕ
  pub socket_read : ℕ → ReadResult
  pub socket_write : ℕ → WriteResult
  pub stdout_write : ℕ → WriteResult

-- The variables of the loop; `connecting` is `cn == -1`. `calls` is the log, the last call first.
pub record Client : Type 0 where
  pub connecting : Bool
  pub stdineof : Bool
  pub can_write_fd : Bool
  pub can_write_out : Bool
  pub to : Buffer
  pub fr : Buffer
  pub calls : List Call

-- The variables before the loop, where `connect` returned 0, or -1 with EINPROGRESS.
unfoldable pub initial : Bool → Client
initial connecting = record {
  connecting = connecting;
  stdineof = false;
  can_write_fd = false;
  can_write_out = false;
  to = record { mem = replicate tcp_recv_buf 0; start = 0; stop = 0 };
  fr = record { mem = replicate tcp_send_buf 0; start = 0; stop = 0 };
  calls = [];
}

abbrev pub log : Client → Call → Client
log c k = record c { calls = k ∷ c.calls }

-- How a part of the loop's body ends: it goes on, by `continue`, by `break`, or in
-- `exit(EXIT_FAILURE)`.
pub data Outcome : Type 0 where
  go_on : Client → Outcome
  next_round : Client → Outcome
  break_loop : Client → Outcome
  exit_failure : Client → Outcome

infixl 5 ◌>>=◌
abbrev pub ◌>>=◌ : Outcome → (Client → Outcome) → Outcome
go_on c >>= f = f c
next_round c >>= f = next_round c
break_loop c >>= f = break_loop c
exit_failure c >>= f = exit_failure c

-- The variables when a part ends, however it ends.
abbrev pub last : Outcome → Client
last (go_on c) = c
last (next_round c) = c
last (break_loop c) = c
last (exit_failure c) = c
