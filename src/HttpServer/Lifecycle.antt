-- ===== src/HttpServer/Lifecycle.antt =====
-- What becomes of the memory and the descriptors of a connection in main.c.
use ukgoll_github_io.Prelude.{zero, suc, replicate}
use ukgoll_github_io.Prelude.{
  ℕ, ◌+◌, ◌≡◌, refl, ap, ◌∙◌, Bool, true, false, ltb, ◌==◌, none, some, List, [], ◌∷◌, ◌++◌, arith,
  length,
}
use ukgoll_github_io.HttpServer.Poll.{Ptr, null, Backend}
use ukgoll_github_io.HttpServer.State.{
  Conn, Call, malloc_sa, free_sa, malloc_conn, free_conn, accepted, closed, read_from, created,
  destroyed, Server, done, fault, eagain, eintr, other, set_non_blocking,
}
use ukgoll_github_io.HttpServer.Accept.{
  got_client, accept_fails, Attempt, Turn, next, leave, watch, accept_once, handle_accept,
}
use ukgoll_github_io.HttpServer.Routine.{
  ReadResult, got, end_of_file, read_fails, Replies, exits, poll_delete, client_routine,
}
use ukgoll_github_io.HttpServer.Loop.{release, resume}
use ukgoll_github_io.HttpServer.Inv.{Alive, store_self}

-- How many address blocks and connections were allocated and freed, and how many descriptors were
-- accepted and closed.
pub record Tallies : Type 0 where
  pub sa_made : ℕ
  pub sa_freed : ℕ
  pub conns_made : ℕ
  pub conns_freed : ℕ
  pub opened : ℕ
  pub shut : ℕ

abbrev count : Call → Tallies → Tallies
count (malloc_sa p) t = record t { sa_made = t.sa_made + 1 }
count (free_sa p) t = record t { sa_freed = t.sa_freed + 1 }
count (malloc_conn p) t = record t { conns_made = t.conns_made + 1 }
count (free_conn p) t = record t { conns_freed = t.conns_freed + 1 }
count (accepted fd) t = record t { opened = t.opened + 1 }
count (closed fd) t = record t { shut = t.shut + 1 }
count _ t = t

abbrev pub tallies : List Call → Tallies
tallies [] = record {
  sa_made = 0;
  sa_freed = 0;
  conns_made = 0;
  conns_freed = 0;
  opened = 0;
  shut = 0;
}
tallies (c ∷ l) = count c (tallies l)

-- Turns in which nothing fails, before one in which `accept` has nothing more.
abbrev pub AllServed : List Attempt → Type 0
AllServed [] = Unit
AllServed (a ∷ l) =
    ((a.sa == null) ≡ false)
    × ((a.block == null) ≡ false)
    × ((fd : ℕ) × (a.accept ≡ got_client fd))
    × ((a.routine == null) ≡ false)
    × AllServed l

abbrev pub Empties : Attempt → Type 0
Empties a =
    ((a.sa == null) ≡ false) × ((a.block == null) ≡ false) × (a.accept ≡ accept_fails eagain)

-- So many reads of a descriptor.
abbrev pub reads_of : ℕ → ℕ → List Call
reads_of n fd = replicate n (read_from fd)

reads_of-cons :
    (n fd : ℕ) (l : List Call) → reads_of n fd ++ (read_from fd ∷ l) ≡ reads_of (suc n) fd ++ l
reads_of-cons zero fd l = refl
reads_of-cons (suc n) fd l = ap (λ x. read_from fd ∷ x) (reads_of-cons n fd l)

tallies-reads_of : (n fd : ℕ) (l : List Call) → tallies (reads_of n fd ++ l) ≡ tallies l
tallies-reads_of zero fd l = refl
tallies-reads_of (suc n) fd l = tallies-reads_of n fd l

module _ {K : Type 0} (backend : Backend K) where
  watch-calls :
      (ok : Bool) (fd : ℕ) (p : Ptr) (s : Server K) → (watch backend ok fd p s).calls ≡ s.calls
  unfolding watch
  watch-calls ok fd p s = ground arith

  abbrev after_turn : Turn K → Server K
  after_turn (next s) = s
  after_turn (leave s) = s

  served_once :
      (a : Attempt) (s : Server K) (fd : ℕ)
      → (a.sa == null) ≡ false
      → (a.block == null) ≡ false
      → a.accept ≡ got_client fd
      → (a.routine == null) ≡ false
      → (accept_once backend a s ≡ next (after_turn (accept_once backend a s)))
        × ((after_turn (accept_once backend a s)).calls
            ≡ created a.routine ∷ accepted fd ∷ malloc_conn a.block ∷ malloc_sa a.sa ∷ s.calls)
  unfolding accept_once set_non_blocking
  served_once a s fd x y e r =
      let never : ltb (set_non_blocking a.fcntl) 0 ≡ false = ground arith in
      (simp (x, y, e, never, r) refl, simp (x, y, e, never, r) (watch-calls a.add_ok fd a.block _))

  emptied :
      (a : Attempt) (s : Server K)
      → Empties a
      → (accept_once backend a s ≡ leave (after_turn (accept_once backend a s)))
        × ((after_turn (accept_once backend a s)).calls
            ≡ malloc_conn a.block ∷ malloc_sa a.sa ∷ s.calls)
  unfolding accept_once
  emptied a s (x, y, e) = (simp (x, y, e) refl, simp (x, y, e) refl)

  -- Where no call fails until `accept` has no more connections: `handle_accept` ends, and has allocated
  -- one address block and one connection more than it has accepted descriptors, and freed none.
  handle_accept_leaks :
      (l : List Attempt) (a : Attempt) (s : Server K)
      → AllServed l
      → Empties a
      → (s' : Server K) × (handle_accept backend (l ++ (a ∷ [])) s ≡ done s')
        × (tallies s'.calls ≡ (
            let t = tallies s.calls in
            record t {
              sa_made = t.sa_made + length l + 1;
              conns_made = t.conns_made + length l + 1;
              opened = t.opened + length l;
            }))
  unfolding handle_accept
  handle_accept_leaks [] a s h e =
      let (q, c) = emptied a s e in
      (after_turn (accept_once backend a s), rw (q, handle_accept) refl, rw c (ground arith))
  handle_accept_leaks (b ∷ l) a s h e =
      let (q, c) = served_once b s h.2.0 h.0 h.1 h.2.1 h.3 in
      let (s', r, t) = handle_accept_leaks l a (after_turn (accept_once backend b s)) h.4 e in
      (s', rw (q, handle_accept) r, t ∙ rw c (ground arith))

  -- The reads end in the end of the client, and not in EAGAIN.
  abbrev pub hangs_up : List ReadResult → Bool
  hangs_up [] = false
  hangs_up (got ∷ rs) = hangs_up rs
  hangs_up (read_fails eintr ∷ rs) = hangs_up rs
  hangs_up (read_fails eagain ∷ rs) = false
  hangs_up (end_of_file ∷ rs) = true
  hangs_up (read_fails other ∷ rs) = true

  -- The routine of such a client ends with `poll_delete`, after some reads of its descriptor.
  hang_up_exits :
      (a : Replies) (c : Conn) (rs : List ReadResult) (s : Server K) (l : List Call)
      → hangs_up rs ≡ true
      → (n : ℕ) × (client_routine backend a c rs (record s { calls = l })
          ≡ exits (poll_delete backend a.delete_ok c (record s { calls = reads_of n c.fd ++ l })))
  unfolding client_routine
  hang_up_exits a c [] s l h = cc
  hang_up_exits a c (got ∷ rs) s l h =
      let (n, e) = hang_up_exits a c rs s (read_from c.fd ∷ l) h in
      (
        suc n,
        e
            ∙ ap (λ x. exits (poll_delete backend a.delete_ok c (record s { calls = x })))
                (reads_of-cons n c.fd l),
      )
  hang_up_exits a c (read_fails eintr ∷ rs) s l h =
      let (n, e) = hang_up_exits a c rs s (read_from c.fd ∷ l) h in
      (
        suc n,
        e
            ∙ ap (λ x. exits (poll_delete backend a.delete_ok c (record s { calls = x })))
                (reads_of-cons n c.fd l),
      )
  hang_up_exits a c (read_fails eagain ∷ rs) s l h = cc
  hang_up_exits a c (end_of_file ∷ rs) s l h = (1, refl)
  hang_up_exits a c (read_fails other ∷ rs) s l h = (1, refl)

  deleted_calls :
      (ok : Bool) (c : Conn) (s : Server K)
      → ok ≡ true
      → (poll_delete backend ok c s).calls ≡ closed c.fd ∷ free_sa c.sa ∷ s.calls
  unfolding poll_delete
  deleted_calls ok c s d =
      let (k, removed, view) = backend.remove-succeeds c.fd s.kernel in
      rw (d, removed, poll_delete) refl

  not_deleted : (ok : Bool) (c : Conn) (s : Server K) → ok ≡ false → poll_delete backend ok c s ≡ s
  unfolding poll_delete
  not_deleted ok c s d = rw (d, backend.remove-fails c.fd s.kernel, poll_delete) refl

  resume_freed :
      (a : Replies) (p : Ptr) (s : Server K) → s.conns p ≡ none → resume backend a p s ≡ fault
  unfolding resume
  resume_freed a p s e = rw e refl

  module _ (a : Replies) (fd : ℕ) (p : Ptr) (s : Server K) (l : Alive s fd p)
      (h : hangs_up a.reads ≡ true) where
    hang_up_resumed :
        let c : Conn = record { fd = fd; routine = l.routine; sa = l.sa } in
        (n : ℕ) × (resume backend a p s
          ≡ done (
              release backend p l.routine (
                poll_delete backend a.delete_ok c (record s { calls = reads_of n fd ++ s.calls }))))
    unfolding resume
    hang_up_resumed =
        let c : Conn = record { fd = fd; routine = l.routine; sa = l.sa } in
        let (n, q) = hang_up_exits a c a.reads s s.calls h in
        (n, rw (l.conn_at, l.routine_at, l.conn_at, q) refl)

    -- Where a live client hangs up and the call that deletes its registration succeeds: after some reads
    -- of its own descriptor exactly these calls are made, in this order: its own address block is freed,
    -- its own descriptor closed, its own routine destroyed and its own connection freed; and the
    -- connection and the routine are allocated no more.
    pub hang_up_frees :
        a.delete_ok ≡ true
        → (s' : Server K) × (n : ℕ) × (resume backend a p s ≡ done s')
          × (s'.calls
              ≡ free_conn p ∷ destroyed l.routine ∷ closed fd ∷ free_sa l.sa ∷ reads_of n fd
                ++ s.calls)
          × (s'.conns p ≡ none)
          × (s'.routines l.routine ≡ none)
    unfolding release poll_delete
    hang_up_frees d =
        let (n, q) = hang_up_resumed in
        let c : Conn = record { fd = fd; routine = l.routine; sa = l.sa } in
        let s1 : Server K = record s { calls = reads_of n fd ++ s.calls } in
        let gone : Server K = poll_delete backend a.delete_ok c s1 in
        (
          release backend p l.routine gone,
          n,
          q,
          ap (λ x. free_conn p ∷ destroyed l.routine ∷ x) (deleted_calls a.delete_ok c s1 d),
          store_self p none gone.conns,
          store_self l.routine none gone.routines,
        )

    -- Where it is registered and that call fails: its connection is freed all the same, but its address
    -- block is not freed and its descriptor not closed; its events still come with the connection, and
    -- handling the next one is a fault.
    failed_delete_faults :
        a.delete_ok ≡ false
        → backend.reading s.kernel fd ≡ some p
        → (s' : Server K) × (resume backend a p s ≡ done s')
          × (tallies s'.calls
              ≡ (let t = tallies s.calls in record t { conns_freed = t.conns_freed + 1 }))
          × (backend.reading s'.kernel fd ≡ some p)
          × (resume backend a p s' ≡ fault)
    unfolding release
    failed_delete_faults d r =
        let (n, q) = hang_up_resumed in
        let s1 : Server K = record s { calls = reads_of n fd ++ s.calls } in
        let s' : Server K = release backend p l.routine s1 in
        (
          s',
          q ∙ ap (λ x. done (release backend p l.routine x)) (not_deleted a.delete_ok _ s1 d),
          ap (λ (t : Tallies). record t { conns_freed = t.conns_freed + 1 })
              (tallies-reads_of n fd s.calls),
          r,
          resume_freed a p s' (store_self p none s.conns),
        )
