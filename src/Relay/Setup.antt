-- ===== src/Relay/Setup.antt =====
-- no_blocking_tcp_client.c before its loop and after its end, with `set_no_blocking` and `set_blocking` of
-- codes/apue/utils.c: which descriptors block.
use ukgoll_github_io.Prelude.{
  ℕ, Bool, true, false, not, ◌&&◌, ◌==◌, if◌then◌else◌, Option, none, some,
}

-- The status flags of an open file: the bit O_NONBLOCK, and the others.
pub record FileFlags : Type 0 where
  pub nonblock : Bool
  pub others : ℕ

-- The open files of the system. Two descriptors may have one open file, as standard input and standard
-- output of a terminal.
abbrev pub Files : Type 0
Files = ℕ → FileFlags

abbrev pub with_nonblock : Bool → ℕ → Files → Files
with_nonblock b f files g =
    if g == f then record { nonblock = b; others = (files f).others } else files g

-- The answers of the two calls of `fcntl`: whether they succeed.
pub record Fcntl : Type 0 where
  pub get_ok : Bool
  pub set_ok : Bool

-- `none` for -1.
unfoldable pub set_no_blocking : Fcntl → ℕ → Files → Option Files
set_no_blocking a f files =
    if not a.get_ok then none else if not a.set_ok then none else some (with_nonblock true f files)

unfoldable pub set_blocking : Fcntl → ℕ → Files → Option Files
set_blocking a f files =
    if not a.get_ok then none else if not a.set_ok then none else some (with_nonblock false f files)

-- `on_exit`, which `exit` and the return of `main` call; where it fails, the files as they then are.
unfoldable pub on_exit : Fcntl → Fcntl → ℕ → ℕ → Files → Files
unfolding set_blocking
on_exit a b stdin stdout files = elim (set_blocking a stdin files) [
  | none ↦ files
  | some files' ↦ elim (set_blocking b stdout files') [ none ↦ files' | some files'' ↦ files'' ]
]

-- What `inet_pton` and `connect` answer.
pub data Parsed : Type 0 where
  address : Parsed
  invalid : Parsed
  parse_error : Parsed

pub data Connected : Type 0 where
  connected : Connected
  in_progress : Connected
  connect_error : Connected

-- What the calls before the loop answer; the socket's open file is `socket`, -1 is `none`, `port` is what
-- `atoi` makes of the second argument.
pub record RelaySetup : Type 0 where
  pub argc : ℕ
  pub socket : Option ℕ
  pub port : ℕ
  pub inet_pton : Parsed
  pub recv_buf_ok : Bool
  pub send_buf_ok : Bool
  pub stdin_fcntl : Fcntl
  pub socket_fcntl : Fcntl
  pub stdout_fcntl : Fcntl
  pub connect : Connected

-- `main` up to the loop, with the files: the loop, with whether `cn` is 0, or an exit.
pub data Prepared : Type 0 where
  loop : ℕ → Bool → Files → Prepared
  exits : Files → Prepared

unfoldable pub connect_answer : Connected → ℕ → Files → Prepared
connect_answer connected socket files = loop socket true files
connect_answer in_progress socket files = loop socket false files
connect_answer connect_error socket files = exits files

-- The three calls of `set_no_blocking`, and `connect`.
unfoldable pub no_block : RelaySetup → ℕ → ℕ → ℕ → Files → Prepared
unfolding set_no_blocking connect_answer
no_block a stdin stdout socket files = elim (set_no_blocking a.stdin_fcntl stdin files) [
  | none ↦ exits files
  | some files1 ↦ elim (set_no_blocking a.socket_fcntl socket files1) [
    | none ↦ exits files1
    | some files2 ↦ elim (set_no_blocking a.stdout_fcntl stdout files2) [
      | none ↦ exits files2
      | some files3 ↦ connect_answer a.connect socket files3
    ]
  ]
]

unfoldable pub with_socket : RelaySetup → ℕ → ℕ → ℕ → Files → Prepared
unfolding no_block
with_socket a stdin stdout socket files = if a.port == 0 then exits files else elim (a.inet_pton) [
  | parse_error ↦ exits files
  | invalid ↦ exits files
  | address ↦
      if a.recv_buf_ok && a.send_buf_ok then no_block a stdin stdout socket files else exits files
]

unfoldable pub prepare : RelaySetup → ℕ → ℕ → Files → Prepared
unfolding with_socket
prepare a stdin stdout files = if not (a.argc == 3) then exits files else elim (a.socket) [
  | none ↦ exits files
  | some socket ↦ with_socket a stdin stdout socket files
]
