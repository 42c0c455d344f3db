-- ===== src/Relay/Log.antt =====
-- What the log of the relay says: the bytes that went each way, the counts of its reads, and the
-- shutdowns. The last call stands first.
use ukgoll_github_io.Prelude.{
  ℕ, ◌+◌, ◌≤◌, ◌≡◌, true, List, [], ◌∷◌, ◌++◌, ltb, if◌then◌else◌, length, take,
}
use ukgoll_github_io.Relay.State.{
  got, took, Call, read_stdin, read_socket, write_socket, write_stdout, shutdown_wr, close_socket,
  ReadResult, WriteResult, PollSet, Answers, ready,
}

abbrev pub bytes_of : ReadResult → List ℕ
bytes_of (got bs) = bs
bytes_of _ = []

abbrev pub taken : WriteResult → List ℕ → List ℕ
taken (took wn) bs = take wn bs
taken _ bs = []

-- The bytes that came from standard input.
abbrev pub stdin_bytes : List Call → List ℕ
stdin_bytes [] = []
stdin_bytes (read_stdin n r ∷ l) = stdin_bytes l ++ bytes_of r
stdin_bytes (_ ∷ l) = stdin_bytes l

-- The bytes that the socket took.
abbrev pub sent_bytes : List Call → List ℕ
sent_bytes [] = []
sent_bytes (write_socket bs r ∷ l) = sent_bytes l ++ taken r bs
sent_bytes (_ ∷ l) = sent_bytes l

-- The bytes that came from the socket.
abbrev pub socket_bytes : List Call → List ℕ
socket_bytes [] = []
socket_bytes (read_socket n r ∷ l) = socket_bytes l ++ bytes_of r
socket_bytes (_ ∷ l) = socket_bytes l

-- The bytes that standard output took.
abbrev pub out_bytes : List Call → List ℕ
out_bytes [] = []
out_bytes (write_stdout bs r ∷ l) = out_bytes l ++ taken r bs
out_bytes (_ ∷ l) = out_bytes l

-- How often the sending side was shut down.
abbrev pub shutdowns : List Call → ℕ
shutdowns [] = 0
shutdowns (shutdown_wr ∷ l) = shutdowns l + 1
shutdowns (_ ∷ l) = shutdowns l

-- How often the socket was closed.
abbrev pub closes : List Call → ℕ
closes [] = 0
closes (close_socket ∷ l) = closes l + 1
closes (_ ∷ l) = closes l

-- How many writes to the socket came after a shutdown.
abbrev pub late_writes : List Call → ℕ
late_writes [] = 0
late_writes (write_socket bs r ∷ l) = late_writes l + (if ltb 0 (shutdowns l) then 1 else 0)
late_writes (_ ∷ l) = late_writes l

-- How many reads asked for no byte at all.
abbrev pub empty_reads : List Call → ℕ
empty_reads [] = 0
empty_reads (read_stdin n r ∷ l) = empty_reads l + (if ltb 0 n then 0 else 1)
empty_reads (read_socket n r ∷ l) = empty_reads l + (if ltb 0 n then 0 else 1)
empty_reads (_ ∷ l) = empty_reads l

-- `poll` reports only what it was asked for.
pub record Asked (p q : PollSet) : Type 0 where
  pub stdin_in : q.stdin.pollin ≡ true → p.stdin.pollin ≡ true
  pub socket_in : q.socket.pollin ≡ true → p.socket.pollin ≡ true
  pub socket_out : q.socket.pollout ≡ true → p.socket.pollout ≡ true
  pub stdout_out : q.stdout.pollout ≡ true → p.stdout.pollout ≡ true

-- The calls answer as POSIX says: no more bytes than were asked for or given, and no event that was
-- not asked for.
pub record IsHonest (a : Answers) : Type 0 where
  pub poll : (p q : PollSet) → a.polled p ≡ ready q → Asked p q
  pub stdin_read : (n : ℕ) (bs : List ℕ) → a.stdin_read n ≡ got bs → length bs ≤ n
  pub socket_read : (n : ℕ) (bs : List ℕ) → a.socket_read n ≡ got bs → length bs ≤ n
  pub socket_write : (n wn : ℕ) → a.socket_write n ≡ took wn → wn ≤ n
  pub stdout_write : (n wn : ℕ) → a.stdout_write n ≡ took wn → wn ≤ n
