-- ===== src/KqueueServer/Burst.antt =====
-- The address block that the connections of one event share in no_block_server.c.
use ukgoll_github_io.Prelude.{
  ℕ, ◌+◌, ◌≡◌, ◌≢◌, refl, true, false, List, [], ◌∷◌, ◌==◌, if◌then◌else◌, length, arith,
  Bool-cases, inl, inr,
}
use ukgoll_github_io.Prelude.Tally.{tally}
use ukgoll_github_io.KqueueServer.Server.{
  Ptr, null, accepted, freed, closed, allocated, registered, Fcntl, Log, set_non_blocking,
  Connection, accept_loop, on_listener, end_of_file, Event, Answers, Handled, go_on, exit_failure,
  stuck, on_event,
}
use ukgoll_github_io.KqueueServer.Log.{allocs, frees}
use ukgoll_github_io.KqueueServer.Events.{client_gone_once}

-- The event of a client that has hung up, and what the calls answer.
abbrev pub hang_up : ℕ → Ptr → Event
hang_up fd p = record { ident = fd; readable = true; negative = false; eof = true; udata = p }

abbrev pub at_end : Answers
at_end = record { block = null; connections = []; reads = end_of_file ∷ [] }

abbrev and_then : Handled → (Log → Handled) → Handled
and_then (go_on l) f = f l
and_then (exit_failure l) f = exit_failure l
and_then (stuck l) f = stuck l

-- The connections that were registered hang up one after the other.
abbrev pub hang_ups : ℕ → Ptr → List Connection → Log → Handled
hang_ups listen_fd p [] l = go_on l
hang_ups listen_fd p (c ∷ cs) l =
    if c.kevent_ok
    then and_then (on_event listen_fd at_end (hang_up c.fd p) l) (λ l'. hang_ups listen_fd p cs l')
    else hang_ups listen_fd p cs l

abbrev pub Others : ℕ → List Connection → Type 0
Others listen_fd [] = Unit
Others listen_fd (c ∷ cs) = (c.fd ≢ listen_fd) × Others listen_fd cs

abbrev refused : Connection → ℕ
refused c = if c.kevent_ok then 0 else 1

abbrev taken : Connection → ℕ
taken c = if c.kevent_ok then 1 else 0

non_blocking_counts :
    (f : Fcntl) (fd : ℕ) (p : Ptr) (l : Log)
    → (frees p (set_non_blocking f fd l) ≡ frees p l)
      × (allocs p (set_non_blocking f fd l) ≡ allocs p l)
unfolding set_non_blocking
non_blocking_counts f fd p l = elim (Bool-cases (f.getfl_ok)) [
  | inl e ↦ rw e (refl, refl)
  | inr e ↦ rw e (refl, refl)
]

accept_loop_lem :
    (p : Ptr) (cs : List Connection) (l : Log)
    → (frees p (accept_loop p cs l) ≡ frees p l + tally refused cs)
      × (allocs p (accept_loop p cs l) ≡ allocs p l)
unfolding accept_loop
accept_loop_lem p [] l = omega arith
accept_loop_lem p (c ∷ cs) l =
    let l' : Log = set_non_blocking c.fcntl c.fd (accepted c.fd ∷ l) in
    let (f, a) = non_blocking_counts c.fcntl c.fd p (accepted c.fd ∷ l) in
    elim (Bool-cases (c.kevent_ok)) [
      | inl k ↦ simp k (omega (arith, accept_loop_lem p cs (registered c.fd p ∷ l'), f, a))
      | inr k ↦ simp k (ground (arith, accept_loop_lem p cs (freed p ∷ closed c.fd ∷ l'), f, a))
    ]

hang_ups_lem :
    (listen_fd : ℕ) (p : Ptr) (cs : List Connection) (l : Log)
    → p ≢ null
    → Others listen_fd cs
    → (l' : Log) × (hang_ups listen_fd p cs l ≡ go_on l')
      × (frees p l' ≡ frees p l + tally taken cs)
      × (allocs p l' ≡ allocs p l)
hang_ups_lem listen_fd p [] l n o = (l, refl, omega arith, refl)
hang_ups_lem listen_fd p (c ∷ cs) l n o = elim (Bool-cases (c.kevent_ok)) [
  | inl k ↦
      let (l1, q, cl, f, a) =
        client_gone_once listen_fd at_end (hang_up c.fd p) l o.0 refl refl n refl in
      let (l', q', f', a') = hang_ups_lem listen_fd p cs l1 n o.1 in
      (l', simp (k, q) q', simp k (ground (arith, f', f p)), omega (arith, a', a p))
  | inr k ↦
      let (l', q', f', a') = hang_ups_lem listen_fd p cs l n o.1 in
      (l', simp k q', simp k (omega (arith, f')), a')
]

-- Where `malloc` returns a block, `accept` then returns any connections with other descriptors than
-- the listener's, and those that were registered hang up one after the other: each event is handled,
-- the block has been allocated once, and it has been freed as often as there were connections, so
-- once only if there was one.
pub block_freed_per_connection :
    (listen_fd : ℕ) (p : Ptr) (cs : List Connection) (l : Log)
    → p ≢ null
    → Others listen_fd cs
    → (l' : Log) × (hang_ups listen_fd p cs (on_listener p cs l) ≡ go_on l')
      × (frees p l' ≡ frees p l + length cs)
      × (allocs p l' ≡ allocs p l + 1)
unfolding on_listener
block_freed_per_connection listen_fd p cs l n o =
    let some_block : (p == null) ≡ false = ground (arith, n) in
    let (f, a) = accept_loop_lem p cs (allocated p ∷ l) in
    let (l', q, f', a') = hang_ups_lem listen_fd p cs (accept_loop p cs (allocated p ∷ l)) n o in
    (l', rw some_block q, omega (arith, f, f', split cs), ground (arith, a, a'))
  where
    split : (cs : List Connection) → tally refused cs + tally taken cs ≡ length cs
    split [] = refl
    split (c ∷ cs) = ground (arith, split cs)
