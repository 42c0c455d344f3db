-- ===== src/TcpClient/Client.antt =====
-- The loop of tcp-client.c. What the calls answer is an input.
use ukgoll_github_io.Prelude.{
  ℕ, Bool, true, false, ◌&&◌, Option, none, some, List, [], ◌∷◌, ◌++◌, ◌==◌, if◌then◌else◌,
  overwrite, replicate,
}

-- `sizeof(sendline)`
abbrev pub line_size : ℕ
line_size = 256

pub data Call : Type 0 where
  received : List ℕ → Call
  got_line : List ℕ → Call
  wrote : List ℕ → Call
  closed : Call

-- `sendline`, `stdineof`, and the calls made, the last one first.
pub record Client : Type 0 where
  pub sendline : List ℕ
  pub stdineof : Bool
  pub calls : List Call

abbrev pub log : Client → Call → Client
log c k = record c { calls = k ∷ c.calls }

-- What `read` returns: bytes, none of them for 0, or -1.
pub data ReadResult : Type 0 where
  got : List ℕ → ReadResult
  read_error : ReadResult

-- What `write` returns: more than 0, or not, and then whether errno is EINTR.
pub data WriteResult : Type 0 where
  sent : WriteResult
  not_sent : (eintr : Bool) → WriteResult

-- The answers of a round: `FD_ISSET` of the socket and of standard input, `read`, `fgets` (`none` for
-- NULL) and `write`.
pub record Answers : Type 0 where
  pub socket_set : Bool
  pub stdin_set : Bool
  pub read : ReadResult
  pub fgets : Option (List ℕ)
  pub write : WriteResult

pub data Selected : Type 0 where
  ready : Answers → Selected
  timed_out : Selected
  interrupted : Selected
  failed : Selected

-- The next turn, `break`, or `eexit`.
pub data Outcome : Type 0 where
  go_on : Client → Outcome
  break_loop : Client → Outcome
  exit_failure : Client → Outcome

-- `strcmp(recvline, "end\n") == 0`, where the bytes are followed by 0.
unfoldable pub is_end : List ℕ → Bool
is_end (a ∷ b ∷ c ∷ d ∷ []) = (a == 101) && (b == 110) && (c == 100) && (d == 10)
is_end (a ∷ b ∷ c ∷ d ∷ e ∷ _) = (a == 101) && (b == 110) && (c == 100) && (d == 10) && (e == 0)
is_end _ = false

-- `testing` is `argc == 2 && strcmp(argv[1], "test") == 0`.
module _ (testing : Bool) where
  -- The block `if (FD_ISSET(fd, &readfd))`.
  unfoldable pub on_read : ReadResult → Client → Outcome
  unfolding is_end
  on_read read_error c = exit_failure c
  on_read (got []) c = break_loop (log c (received []))
  on_read (got (b ∷ bs)) c =
      let c' = log c (received (b ∷ bs)) in
      if is_end (b ∷ bs) && c.stdineof
      then break_loop c'
      else if testing
      then break_loop c'
      else go_on c'

  unfoldable pub on_written : WriteResult → Client → Outcome
  on_written sent c = go_on c
  on_written (not_sent true) c = break_loop c
  on_written (not_sent false) c = go_on c

  -- `fgets` stores the line and a 0; `write` is given the whole array.
  unfoldable pub on_line : Option (List ℕ) → WriteResult → Client → Outcome
  unfolding on_written
  on_line none w c = go_on (record c { stdineof = true })
  on_line (some line) w c =
      let buf = overwrite c.sendline 0 (line ++ (0 ∷ [])) in
      on_written w (record c { sendline = buf; calls = wrote buf ∷ got_line line ∷ c.calls })

  -- The block `if (FD_ISSET(STDIN_FILENO, &readfd))`, where the turn has come so far.
  unfoldable pub then_stdin : Answers → Outcome → Outcome
  unfolding on_line
  then_stdin a (go_on c) = if a.stdin_set then on_line a.fgets a.write c else go_on c
  then_stdin a (break_loop c) = break_loop c
  then_stdin a (exit_failure c) = exit_failure c

  -- A turn of `for (;;)`.
  unfoldable pub round : Selected → Client → Outcome
  unfolding then_stdin on_read
  round (ready a) c = then_stdin a (if a.socket_set then on_read a.read c else go_on c)
  round timed_out c = go_on c
  round interrupted c = go_on c
  round failed c = break_loop c

  -- The turns up to a `break`, and the `close` after it.
  unfoldable pub run : List Selected → Client → Outcome
  unfolding round
  run [] c = go_on c
  run (s ∷ ss) c = elim (round s c) [
    | go_on c' ↦ run ss c'
    | break_loop c' ↦ break_loop (log c' closed)
    | exit_failure c' ↦ exit_failure c'
  ]

-- The variables before the loop.
abbrev pub initial : Client
initial = record { sendline = replicate line_size 0; stdineof = false; calls = [] }
