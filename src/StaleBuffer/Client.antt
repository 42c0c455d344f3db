-- ===== src/StaleBuffer/Client.antt =====
-- codes/apue/kqueue_server/client.cpp: sends a greeting and prints what comes back.
use ukgoll_github_io.Prelude.{
  ℕ, Bool, not, Option, none, some, List, [], ◌∷◌, ◌++◌, ◌==◌, if◌then◌else◌, length, ltb,
  overwrite,
}
use ukgoll_github_io.Prelude.CString.{until_zero}

-- The lines of the program, and its calls on the socket. `overrun` is a string function that runs past
-- the end of `recvline`.
pub data Event : Type 0 where
  usage : Event
  socket_error : Event
  create_success : Event
  server_ip_error : Event
  server_ip_success : Event
  connect_error : Event
  connect_success : Event
  send : List ℕ → Event
  send_start : Event
  send_end : List ℕ → Event
  n_is : ℕ → Event
  fputs : List ℕ → Event
  fputs_error : Event
  server_closed : Event
  read_error : Event
  close : Event
  close_success : Event
  overrun : Event

pub data Outcome : Type 0 where
  waiting : List Event → Outcome
  exit_1 : List Event → Outcome
  returned_0 : List Event → Outcome

-- What `read` answers. With bytes, whether `fputs` then succeeds.
pub data ReadResult : Type 0 where
  got : ℕ → List ℕ → Bool → ReadResult
  end_of_file : ReadResult
  failed : ReadResult

-- The answers of the calls.
pub record Answers : Type 0 where
  pub socket_ok : Bool
  pub inet_pton_ok : Bool
  pub connect_ok : Bool
  pub reads : List ReadResult

-- `"Hello, Server!"`
abbrev pub greeting : List ℕ
greeting = 72 ∷ 101 ∷ 108 ∷ 108 ∷ 111 ∷ 44 ∷ 32 ∷ 83 ∷ 101 ∷ 114 ∷ 118 ∷ 101 ∷ 114 ∷ 33 ∷ []

-- A string function of `recvline`.
abbrev pub with_string : (List ℕ → Event) → Option (List ℕ) → Event
with_string f none = overrun
with_string f (some s) = f s

-- `recvline` behind `read` and the 0 that is stored after it.
abbrev pub store : List ℕ → List ℕ → List ℕ
store recvline bytes =
    let n = length bytes in
    overwrite (overwrite recvline 0 bytes) (if ltb n 256 then n else 255) (0 ∷ [])

abbrev pub close_client : List Event → Outcome
close_client log = returned_0 (log ++ (close ∷ close_success ∷ []))

-- `while ((n = read(socketfd, recvline, 256)) > 0)`, and what follows. A loop that has used up its
-- answers waits.
unfoldable pub loop : List ReadResult → List ℕ → List Event → Outcome
unfolding until_zero
loop [] recvline log = waiting log
loop (end_of_file ∷ rs) recvline log = close_client (log ++ (server_closed ∷ []))
loop (failed ∷ rs) recvline log = close_client (log ++ (read_error ∷ []))
loop (got b bs fputs_ok ∷ rs) recvline log =
    let recvline' = store recvline (b ∷ bs) in
    let log' = log ++ (n_is (length (b ∷ bs)) ∷ with_string fputs (until_zero recvline') ∷ []) in
    let rest = loop rs recvline' log' in
    if fputs_ok then rest else close_client (log' ++ (fputs_error ∷ []))

-- `recvline` is not initialised: it is given.
unfoldable pub converse : List ReadResult → List ℕ → List Event → Outcome
unfolding loop until_zero
converse rs recvline log =
    let recvline' = overwrite recvline 0 (greeting ++ (0 ∷ [])) in
    let hello = until_zero recvline' in
    loop rs recvline'
      (log ++ (with_string send hello ∷ send_start ∷ with_string send_end hello ∷ []))

unfoldable pub main : ℕ → List ℕ → Answers → Outcome
unfolding converse
main argc recvline answers =
    if not (argc == 2)
    then exit_1 (usage ∷ [])
    else if not answers.socket_ok
    then exit_1 (socket_error ∷ [])
    else if not answers.inet_pton_ok
    then exit_1 (create_success ∷ server_ip_error ∷ close ∷ [])
    else if not answers.connect_ok
    then exit_1 (create_success ∷ server_ip_success ∷ connect_error ∷ close ∷ [])
    else converse answers.reads recvline (create_success ∷ server_ip_success ∷ connect_success ∷ [])
