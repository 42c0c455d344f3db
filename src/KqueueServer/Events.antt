-- ===== src/KqueueServer/Events.antt =====
-- What the handling of events in no_block_server.c does.
use ukgoll_github_io.Prelude.{
  ℕ, ◌+◌, ◌≡◌, ◌≢◌, refl, ◌↔◌, Bool, true, false, ◌||◌, some, List, [], ◌∷◌, ltb, ◌==◌, length,
  arith, Bool-cases, inl, inr,
}
use ukgoll_github_io.KqueueServer.Server.{
  Ptr, null, read_from, wrote, registered, Log, set_non_blocking, Setup, setup_socket, setup,
  delete_kevent, ReadResult, bytes_read, left, reading, read_loop, Event, Answers, go_on, stuck,
  on_eof, on_event,
}
use ukgoll_github_io.KqueueServer.Log.{is, allocs, frees, closes, writes}

-- Whether one of the results is 0.
abbrev pub ends : List ReadResult → Bool
ends [] = false
ends (r ∷ rs) = (bytes_read r == 0) || ends rs

-- `delete_kevent` closes the descriptor and frees the block, once.
delete_lem :
    (fd : ℕ) (udata : Ptr) (l : Log)
    → udata ≢ null
    → (delete_kevent fd udata l).0 ≡ null
      × ((j : ℕ) → closes j (delete_kevent fd udata l).1 ≡ closes j l + is fd j)
      × ((p : Ptr) → frees p (delete_kevent fd udata l).1 ≡ frees p l + is udata p)
      × ((p : Ptr) → allocs p (delete_kevent fd udata l).1 ≡ allocs p l)
unfolding delete_kevent
delete_lem fd udata l u = elim (Bool-cases (udata == null)) [
  | inl z ↦ absurd (ground arith)
  | inr z ↦ rw z (refl, λ j. refl, λ p. refl, λ p. refl)
]

-- What has changed when a client is gone.
record Gone (fd : ℕ) (udata : Ptr) (l l' : Log) : Type 0 where
  closed_once : (j : ℕ) → closes j l' ≡ closes j l + is fd j
  freed_once : (p : Ptr) → frees p l' ≡ frees p l + is udata p
  same_allocs : (p : Ptr) → allocs p l' ≡ allocs p l

-- The loop over `read` is left where a result is 0.
read_loop-ends :
    (fd : ℕ) (udata : Ptr) (rs : List ReadResult) (l : Log)
    → udata ≢ null
    → ends rs ≡ true
    → (l' : Log) × (read_loop fd udata rs l ≡ left null l') × Gone fd udata l l'
unfolding read_loop
read_loop-ends fd udata [] l u e = cc
read_loop-ends fd udata (r ∷ rs) l u e = elim (Bool-cases (bytes_read r == 0)) [
  | inl z ↦
      let pos : ltb 0 (bytes_read r) ≡ false = ground (arith, z) in
      let (n, c, f, a) = delete_lem fd udata (read_from fd ∷ l) u in
      (
        (delete_kevent fd udata (read_from fd ∷ l)).1,
        rw (pos, z, n) refl,
        record { closed_once = c; freed_once = f; same_allocs = a },
      )
  | inr z ↦
      let pos : ltb 0 (bytes_read r) ≡ true = ground (arith, z) in
      let more : ends rs ≡ true = rw z at e in
      let (l', q, g) =
        read_loop-ends fd udata rs (wrote fd (bytes_read r) ∷ read_from fd ∷ l) u more in
      (
        l',
        rw pos q,
        record {
          closed_once = g.closed_once;
          freed_once = g.freed_once;
          same_allocs = g.same_allocs;
        },
      )
]

-- With other results it goes on, with one `write` for each.
read_loop_goes_on :
    (fd : ℕ) (udata : Ptr) (rs : List ReadResult) (l : Log)
    → ends rs ≡ false
    → (l' : Log) × (read_loop fd udata rs l ≡ reading l') × (writes fd l' ≡ writes fd l + length rs)
unfolding read_loop
read_loop_goes_on fd udata [] l e = (l, refl, omega arith)
read_loop_goes_on fd udata (r ∷ rs) l e = elim (Bool-cases (bytes_read r == 0)) [
  | inl z ↦ absurd (ground (arith, z, e))
  | inr z ↦
      let pos : ltb 0 (bytes_read r) ≡ true = ground (arith, z) in
      let more : ends rs ≡ false = rw z at e in
      let (l', q, w) =
        read_loop_goes_on fd udata rs (wrote fd (bytes_read r) ∷ read_from fd ∷ l) more in
      (l', rw pos q, ground (arith, w))
]

-- The handling of an event of a client whose address block is there, on the readable filter and
-- without an error, where some result of `read` is 0: it ends, and whether or not EV_EOF is set, the
-- descriptor has been closed once and the block freed once, and no other.
pub client_gone_once :
    (listen_fd : ℕ) (a : Answers) (e : Event) (l : Log)
    → e.ident ≢ listen_fd
    → e.readable ≡ true
    → e.negative ≡ false
    → e.udata ≢ null
    → ends a.reads ≡ true
    → (l' : Log) × (on_event listen_fd a e l ≡ go_on l')
      × ((j : ℕ) → closes j l' ≡ closes j l + is e.ident j)
      × ((p : Ptr) → frees p l' ≡ frees p l + is e.udata p)
      × ((p : Ptr) → allocs p l' ≡ allocs p l)
unfolding on_event on_eof delete_kevent
client_gone_once listen_fd a e l d r n u h =
    let other : (e.ident == listen_fd) ≡ false = ground (arith, d) in
    let (l', q, g) = read_loop-ends e.ident e.udata a.reads l u h in
    (
      l',
      elim (Bool-cases (e.eof)) [
        | inl f ↦ rw (other, r, n, q, f) refl
        | inr f ↦ rw (other, r, n, q, f) refl
      ],
      g.closed_once,
      g.freed_once,
      g.same_allocs,
    )

-- For such an event, where no result of `read` is 0, be it that `read` fails with EAGAIN: the loop
-- over `read` does not end, and calls `write` after each result.
pub quiet_client_stuck :
    (listen_fd : ℕ) (a : Answers) (e : Event) (l : Log)
    → e.ident ≢ listen_fd
    → e.readable ≡ true
    → e.negative ≡ false
    → ends a.reads ≡ false
    → (l' : Log) × (on_event listen_fd a e l ≡ stuck l')
      × (writes e.ident l' ≡ writes e.ident l + length a.reads)
unfolding on_event on_eof
quiet_client_stuck listen_fd a e l d r n h =
    let other : (e.ident == listen_fd) ≡ false = ground (arith, d) in
    let (l', q, w) = read_loop_goes_on e.ident e.udata a.reads l h in
    (l', rw (other, r, n, q) refl, w)

-- `main` reaches the loop exactly if the six calls before it succeed; the listener is registered then.
setup_iff :
    (a : Setup) (fd : ℕ)
    → ((l : Log) × (setup a ≡ some (fd, registered fd null ∷ l))) ↔ (
        (a.kqueue_ok ≡ true)
        × (a.socket ≡ some fd)
        × (a.bind_ok ≡ true)
        × (a.listen_ok ≡ true)
        × (a.kevent_ok ≡ true))
unfolding setup setup_socket
setup_iff a fd = (
  λ (l, e). ground (arith, e),
  λ (k, s, b, n, v). (set_non_blocking a.fcntl fd [], rw (k, s, b, n, v) refl),
)
