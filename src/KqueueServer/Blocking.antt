-- ===== src/KqueueServer/Blocking.antt =====
-- codes/apue/kqueue_server/server.c: the server with blocking descriptors.
use ukgoll_github_io.Prelude.{
  ℕ, ◌+◌, ◌≡◌, ◌≢◌, refl, Bool, true, false, not, ◌&&◌, Option, none, some, List, [], ◌∷◌, leb,
  ◌==◌, if◌then◌else◌, length, arith, Bool-cases, inl, inr, ◌↔◌,
}
use ukgoll_github_io.KqueueServer.Server.{
  Ptr, null, allocated, freed, accepted, registered, deleted, closed, read_from, wrote, Log,
  ReadResult, bytes_read, Event, Handled, go_on, exit_failure, stuck,
}
use ukgoll_github_io.KqueueServer.Log.{is, allocs, frees, closes, writes}
use ukgoll_github_io.KqueueServer.Events.{ends}

-- The calls before the loop: whether they succeed.
pub record BlockingSetup : Type 0 where
  pub kqueue_ok : Bool
  pub socket : Option ℕ
  pub bind_ok : Bool
  pub listen_ok : Bool
  pub kevent_ok : Bool

-- `main` before the loop: `listen_fd`, or `none` for `eexit`.
unfoldable pub blocking_setup : BlockingSetup → Option ℕ
blocking_setup a = if not a.kqueue_ok then none else elim (a.socket) [
  | none ↦ none
  | some fd ↦ if a.bind_ok && a.listen_ok && a.kevent_ok then some fd else none
]

-- What the calls answer while an event is handled.
pub record Replies : Type 0 where
  pub block : Ptr
  pub accept : Option ℕ
  pub kevent_ok : Bool
  pub reads : List ReadResult

-- The branch for an event with EV_EOF that is not on the readable filter.
unfoldable pub on_hang_up : ℕ → Bool → Event → Log → Handled
on_hang_up listen_fd kevent_ok e l =
    if e.ident == listen_fd
    then exit_failure l
    else if not kevent_ok
    then exit_failure l
    else go_on (freed e.udata ∷ closed e.ident ∷ deleted e.ident ∷ l)

-- The branch for the listener, once `malloc` has returned a block.
unfoldable pub on_connection : Bool → Ptr → Option ℕ → Log → Handled
on_connection kevent_ok p none l = exit_failure l
on_connection kevent_ok p (some fd) l =
    if not kevent_ok
    then exit_failure (accepted fd ∷ l)
    else go_on (registered fd p ∷ accepted fd ∷ l)

-- `while ((bytes_read = read(…)) >= 0)`
unfoldable pub read_all : ℕ → Ptr → List ReadResult → Log → Handled
read_all fd udata [] l = stuck l
read_all fd udata (r ∷ rs) l =
    let n = bytes_read r in
    let rest = read_all fd udata rs (wrote fd n ∷ read_from fd ∷ l) in
    if leb 0 n
    then (if n == 0 then go_on (freed udata ∷ closed fd ∷ deleted fd ∷ read_from fd ∷ l) else rest)
    else go_on (read_from fd ∷ l)

-- One turn of the loop over the events.
unfoldable pub on_item : ℕ → Replies → Event → Log → Handled
unfolding on_hang_up on_connection read_all
on_item listen_fd a e l =
    if not e.readable && e.eof
    then on_hang_up listen_fd a.kevent_ok e l
    else if (e.ident == listen_fd) && e.readable
    then (if a.block == null
        then exit_failure l
        else on_connection a.kevent_ok a.block a.accept (allocated a.block ∷ l))
    else if e.readable
    then read_all e.ident e.udata a.reads l
    else go_on l

read_all_ended :
    (fd : ℕ) (udata : Ptr) (rs : List ReadResult) (l : Log)
    → ends rs ≡ true
    → (l' : Log) × (read_all fd udata rs l ≡ go_on l')
      × ((j : ℕ) → closes j l' ≡ closes j l + is fd j)
      × ((p : Ptr) → frees p l' ≡ frees p l + is udata p)
      × ((p : Ptr) → allocs p l' ≡ allocs p l)
unfolding read_all
read_all_ended fd udata [] l e = cc
read_all_ended fd udata (r ∷ rs) l e = elim (Bool-cases (bytes_read r == 0)) [
  | inl z ↦
      let pos : leb 0 (bytes_read r) ≡ true = ground arith in
      (
        freed udata ∷ closed fd ∷ deleted fd ∷ read_from fd ∷ l,
        rw (pos, z) refl,
        λ j. refl,
        λ p. refl,
        λ p. refl,
      )
  | inr z ↦
      let pos : leb 0 (bytes_read r) ≡ true = ground arith in
      let (l', q, c, f, a) =
        read_all_ended fd udata rs (wrote fd (bytes_read r) ∷ read_from fd ∷ l) (rw z at e) in
      (l', rw (pos, z) q, c, f, a)
]

-- An event of the listener with a block from `malloc`, where `accept` and `kevent` succeed, and after
-- it a readable event of that client, where some result of `read` is 0: both are handled, the block is
-- allocated once and freed once, and the client is closed once. So here the blocks are not shared.
own_block :
    (listen_fd fd : ℕ) (a b : Replies) (e e' : Event) (l : Log)
    → e.ident ≡ listen_fd
    → e.readable ≡ true
    → a.block ≢ null
    → a.accept ≡ some fd
    → a.kevent_ok ≡ true
    → fd ≢ listen_fd
    → e'.ident ≡ fd
    → e'.readable ≡ true
    → e'.udata ≡ a.block
    → ends b.reads ≡ true
    → (l1 l2 : Log) × (on_item listen_fd a e l ≡ go_on l1)
      × (on_item listen_fd b e' l1 ≡ go_on l2)
      × (allocs a.block l2 ≡ allocs a.block l + 1)
      × (frees a.block l2 ≡ frees a.block l + 1)
      × (closes fd l2 ≡ closes fd l + 1)
unfolding on_item on_connection
own_block listen_fd fd a b e e' l i r n s k d i' r' u h =
    let l1 : Log = registered fd a.block ∷ accepted fd ∷ allocated a.block ∷ l in
    let (l2, q, c, f, al) = read_all_ended e'.ident e'.udata b.reads l1 h in
    let listener : (e.ident == listen_fd) ≡ true = ground (arith, i) in
    let client : (e'.ident == listen_fd) ≡ false = ground (arith, d, i') in
    let real : (a.block == null) ≡ false = ground (arith, n) in
    (
      l1,
      l2,
      simp (listener, r, real, s, k) refl,
      simp (client, r', q) refl,
      ground (arith, al a.block),
      ground (arith, f a.block, u),
      ground (arith, c fd, i'),
    )

read_all_goes_on :
    (fd : ℕ) (udata : Ptr) (rs : List ReadResult) (l : Log)
    → ends rs ≡ false
    → (l' : Log) × (read_all fd udata rs l ≡ stuck l') × (writes fd l' ≡ writes fd l + length rs)
unfolding read_all
read_all_goes_on fd udata [] l e = (l, refl, omega arith)
read_all_goes_on fd udata (r ∷ rs) l e = elim (Bool-cases (bytes_read r == 0)) [
  | inl z ↦ absurd (ground (arith, z, e))
  | inr z ↦
      let pos : leb 0 (bytes_read r) ≡ true = ground arith in
      let (l', q, w) =
        read_all_goes_on fd udata rs (wrote fd (bytes_read r) ∷ read_from fd ∷ l) (rw z at e) in
      (l', rw (pos, z) q, ground (arith, w))
]

-- A readable event of a client, where no result of `read` is 0, be it that each `read` fails: the loop
-- over `read` does not end, and calls `write` after each result.
failing_client_stuck :
    (listen_fd : ℕ) (a : Replies) (e : Event) (l : Log)
    → e.ident ≢ listen_fd
    → e.readable ≡ true
    → ends a.reads ≡ false
    → (l' : Log) × (on_item listen_fd a e l ≡ stuck l')
      × (writes e.ident l' ≡ writes e.ident l + length a.reads)
unfolding on_item
failing_client_stuck listen_fd a e l d r h =
    let other : (e.ident == listen_fd) ≡ false = ground (arith, d) in
    let (l', q, w) = read_all_goes_on e.ident e.udata a.reads l h in
    (l', simp (other, r, q) refl, w)

-- `main` reaches the loop with a listener exactly if the five calls before it succeed.
blocking_setup_iff :
    (a : BlockingSetup) (fd : ℕ)
    → (blocking_setup a ≡ some fd) ↔ (
        (a.kqueue_ok ≡ true)
        × (a.socket ≡ some fd)
        × (a.bind_ok ≡ true)
        × (a.listen_ok ≡ true)
        × (a.kevent_ok ≡ true))
unfolding blocking_setup
blocking_setup_iff a fd = (λ e. ground (arith, e), λ (k, s, b, n, v). rw (k, s, b, n, v) refl)
