-- ===== src/CopyFile/Program.antt =====
-- codes/apue/timec/splice_copy_file.c: the copy with read and write, and the copy with splice.
use ukgoll_github_io.Prelude.{
  ℕ, Bool, true, false, not, Option, none, some, List, [], ◌∷◌, ◌++◌, ◌==◌, if◌then◌else◌, length,
  take, drop, min,
}

pub data Fd : Type 0 where
  fd1 : Fd
  fd2 : Fd
  pipeline_read : Fd
  pipeline_write : Fd

pub data Message : Type 0 where
  usage : Message
  usage_read_write : Message
  usage_splice : Message
  open_error : Message
  pipe_error : Message
  copy_error : Message
  copied_successfully : Message

-- The bytes of the first file that are not read yet, those in the pipe, those in the second file; what
-- was printed and what was closed, the latest first.
pub record Copy : Type 0 where
  pub source : List ℕ
  pub pipe : List ℕ
  pub target : List ℕ
  pub printed : List Message
  pub closed : List Fd

pub data Outcome : Type 0 where
  running : Copy → Outcome
  returned : Copy → Outcome
  exit_failure : Copy → Outcome

-- The answers of one turn of a loop, `none` for -1: how many bytes the system is ready to move in (the
-- `read`, or the first `splice`) and out (the `write`, or the second `splice`).
pub record Turn : Type 0 where
  pub moved_in : Option ℕ
  pub moved_out : Option ℕ

-- The answers of the calls before the loop: whether they succeed.
pub record Opens : Type 0 where
  pub fd1_ok : Bool
  pub fd2_ok : Bool
  pub pipe_ok : Bool

unfoldable pub print : Message → Copy → Copy
print m c = record c { printed = m ∷ c.printed }

abbrev pub buf_size : ℕ
buf_size = 256

-- The bytes that a call moves: what the system is ready for, what is asked for, what is there.
unfoldable pub moved : ℕ → ℕ → List ℕ → ℕ
moved ready asked bytes = min ready (min asked (length bytes))

-- `write(fd2, buf, n)`; its answer is not looked at.
unfoldable pub write_buf : Option ℕ → List ℕ → List ℕ → List ℕ
unfolding moved
write_buf none buf target = target
write_buf (some w) buf target = target ++ take (moved w (length buf) buf) buf

-- A turn of the loop of `copy_file_read_write` in which `read` gave `n` bytes.
unfoldable pub read_write_turn : ℕ → Option ℕ → Copy → Copy
unfolding write_buf
read_write_turn n out c = record c {
  source = drop n c.source;
  target = write_buf out (take n c.source) c.target;
}

-- `splice(pipeline[0], NULL, fd2, NULL, n, …)`; its answer is not looked at.
unfoldable pub splice_out : ℕ → Option ℕ → Copy → Copy
unfolding moved
splice_out n none c = c
splice_out n (some w) c =
    let m = moved w n c.pipe in
    record c { pipe = drop m c.pipe; target = c.target ++ take m c.pipe }

-- A turn of the loop of `copy_file_splice` in which the first `splice` moved `n` bytes.
unfoldable pub splice_turn : ℕ → Option ℕ → Copy → Copy
unfolding splice_out
splice_turn n out c =
    splice_out n out (record c { source = drop n c.source; pipe = c.pipe ++ take n c.source })

-- What follows a loop: `failed` for `n == -1`.
unfoldable pub finish : List Fd → Bool → Copy → Outcome
unfolding print
finish fds failed c =
    let c' = print copied_successfully (if failed then print copy_error c else c) in
    returned (record c' { closed = fds ++ c.closed })

-- `while ((n = …) > 0)` with the body of the loop, and what follows it.
unfoldable pub copy_loop : (ℕ → Option ℕ → Copy → Copy) → List Fd → List Turn → Copy → Outcome
unfolding finish moved
copy_loop body fds [] c = running c
copy_loop body fds (t ∷ ts) c = elim (t.moved_in) [
  | none ↦ finish fds true c
  | some ready ↦
      let n = moved ready buf_size c.source in
      let rest = copy_loop body fds ts (body n t.moved_out c) in
      if n == 0 then finish fds false c else rest
]

abbrev pub read_write_fds : List Fd
read_write_fds = fd2 ∷ fd1 ∷ []

abbrev pub splice_fds : List Fd
splice_fds = pipeline_write ∷ pipeline_read ∷ read_write_fds

unfoldable pub copy_file_read_write : Opens → List Turn → Copy → Outcome
unfolding copy_loop print read_write_turn
copy_file_read_write o ts c =
    let c' = print usage_read_write c in
    if not o.fd1_ok
    then exit_failure (print open_error c')
    else if not o.fd2_ok
    then exit_failure (print open_error c')
    else copy_loop read_write_turn read_write_fds ts c'

unfoldable pub copy_file_splice : Opens → List Turn → Copy → Outcome
unfolding copy_loop print splice_turn
copy_file_splice o ts c =
    let c' = print usage_splice c in
    if not o.fd1_ok
    then exit_failure (print open_error c')
    else if not o.fd2_ok
    then exit_failure (print open_error c')
    else if not o.pipe_ok
    then exit_failure (print pipe_error c')
    else copy_loop splice_turn splice_fds ts c'

-- What `argv[3]` is.
pub data Mode : Type 0 where
  rw_mode : Mode
  sp_mode : Mode
  other_mode : Mode

unfoldable pub main : ℕ → Mode → Opens → List Turn → Copy → Outcome
unfolding copy_file_read_write copy_file_splice print
main argc mode o ts c = if not (argc == 4) then exit_failure (print usage c) else elim mode [
  | rw_mode ↦ copy_file_read_write o ts c
  | sp_mode ↦ copy_file_splice o ts c
  | other_mode ↦ returned c
]

-- Before the program starts: the bytes of the first file.
unfoldable pub initial : List ℕ → Copy
initial bytes = record { source = bytes; pipe = []; target = []; printed = []; closed = [] }
