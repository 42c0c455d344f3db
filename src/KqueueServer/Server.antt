-- ===== src/KqueueServer/Server.antt =====
-- The setup and the loop of no_block_server.c. What the calls answer is an input.
use ukgoll_github_io.Prelude.{
  ℕ, ◌-◌, ◌^◌, Bool, false, not, ◌&&◌, Option, none, some, List, [], ◌∷◌, ltb, ◌==◌, if◌then◌else◌,
}

-- A block that `malloc` returned; 0 is NULL.
abbrev pub Ptr : Type 0
Ptr = ℕ

abbrev pub null : Ptr
null = 0

pub data Call : Type 0 where
  allocated : Ptr → Call
  freed : Ptr → Call
  accepted : ℕ → Call
  non_blocking : ℕ → Bool → Call
  registered : ℕ → Ptr → Call
  deleted : ℕ → Call
  closed : ℕ → Call
  read_from : ℕ → Call
  wrote : ℕ → ℕ → Call

-- The calls made, the last one first.
abbrev pub Log : Type 0
Log = List Call

-- What `fcntl` answers to F_GETFL and to F_SETFL.
pub record Fcntl : Type 0 where
  pub getfl_ok : Bool
  pub setfl_ok : Bool

-- `set_non_blocking`; the log says whether the flag was set.
unfoldable pub set_non_blocking : Fcntl → ℕ → Log → Log
set_non_blocking f fd l =
    if f.getfl_ok then non_blocking fd f.setfl_ok ∷ l else non_blocking fd false ∷ l

-- The calls before the loop: whether they succeed.
pub record Setup : Type 0 where
  pub kqueue_ok : Bool
  pub socket : Option ℕ
  pub fcntl : Fcntl
  pub bind_ok : Bool
  pub listen_ok : Bool
  pub kevent_ok : Bool

-- `main` before the loop: `listen_fd`, and the log, or `none` for `eexit`.
unfoldable pub setup_socket : Setup → ℕ → Option (ℕ × Log)
unfolding set_non_blocking
setup_socket a fd =
    if not a.bind_ok
    then none
    else if not a.listen_ok
    then none
    else if not a.kevent_ok
    then none
    else some (fd, registered fd null ∷ set_non_blocking a.fcntl fd [])

unfoldable pub setup : Setup → Option (ℕ × Log)
unfolding setup_socket
setup a =
    if not a.kqueue_ok then none else elim (a.socket) [ none ↦ none | some fd ↦ setup_socket a fd ]

-- `delete_kevent`: the new `udata` of the event.
unfoldable pub delete_kevent : ℕ → Ptr → Log → Ptr × Log
delete_kevent ident udata l =
    if udata == null then (udata, l) else (null, freed udata ∷ closed ident ∷ deleted ident ∷ l)

-- A connection that `accept` returns, with what `fcntl` and `kevent` answer for it.
pub record Connection : Type 0 where
  pub fd : ℕ
  pub fcntl : Fcntl
  pub kevent_ok : Bool

-- `while ((client_fd = accept(…)) > 0)`, for the connections that are there.
unfoldable pub accept_loop : Ptr → List Connection → Log → Log
unfolding set_non_blocking
accept_loop p [] l = l
accept_loop p (c ∷ cs) l =
    let l' = set_non_blocking c.fcntl c.fd (accepted c.fd ∷ l) in
    accept_loop p cs
      (if not c.kevent_ok then freed p ∷ closed c.fd ∷ l' else registered c.fd p ∷ l')

-- The branch for the listener; `p` is what `malloc` returned.
unfoldable pub on_listener : Ptr → List Connection → Log → Log
unfolding accept_loop
on_listener p cs l = if p == null then l else accept_loop p cs (allocated p ∷ l)

-- What `read` returns: some bytes, 0, or -1 with EAGAIN or another error.
pub data ReadResult : Type 0 where
  got : (n : ℕ) → ReadResult
  end_of_file : ReadResult
  again : ReadResult
  read_error : ReadResult

-- `bytes_read` is a `size_t`, so -1 becomes the greatest of them.
abbrev pub bytes_read : ReadResult → ℕ
bytes_read (got n) = n
bytes_read end_of_file = 0
bytes_read again = 2 ^ 64 - 1
bytes_read read_error = 2 ^ 64 - 1

-- How the loop over `read` ends: by `break`, with the event's `udata`, or not with these results.
pub data Ended : Type 0 where
  left : Ptr → Log → Ended
  reading : Log → Ended

-- `while (1)` over `read`.
unfoldable pub read_loop : ℕ → Ptr → List ReadResult → Log → Ended
unfolding delete_kevent
read_loop fd udata [] l = reading l
read_loop fd udata (r ∷ rs) l =
    let n = bytes_read r in
    let l' = read_from fd ∷ l in
    let rest = read_loop fd udata rs (wrote fd n ∷ l') in
    if ltb 0 n
    then rest
    else if n == 0
    then left (delete_kevent fd udata l').0 (delete_kevent fd udata l').1
    else left udata l'

-- A struct kevent: `filter & EVFILT_READ`, `data < 0`, `flags & EV_EOF`.
pub record Event : Type 0 where
  pub ident : ℕ
  pub readable : Bool
  pub negative : Bool
  pub eof : Bool
  pub udata : Ptr

-- What the calls answer while an event is handled.
pub record Answers : Type 0 where
  pub block : Ptr
  pub connections : List Connection
  pub reads : List ReadResult

-- How the handling of an event ends; `stuck` is a loop over `read` that has not ended.
pub data Handled : Type 0 where
  go_on : Log → Handled
  exit_failure : Log → Handled
  stuck : Log → Handled

-- The block `if (item.flags & EV_EOF)`.
unfoldable pub on_eof : Event → Ended → Handled
unfolding delete_kevent
on_eof e (reading l) = stuck l
on_eof e (left udata l) = go_on (if e.eof then (delete_kevent e.ident udata l).1 else l)

-- One turn of the loop over the events.
unfoldable pub on_event : ℕ → Answers → Event → Log → Handled
unfolding on_listener on_eof read_loop
on_event listen_fd a e l =
    if (e.ident == listen_fd) && e.readable
    then go_on (on_listener a.block a.connections l)
    else if not e.readable
    then on_eof e (left e.udata l)
    else if e.negative
    then exit_failure l
    else on_eof e (read_loop e.ident e.udata a.reads l)
