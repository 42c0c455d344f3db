-- ===== src/PollServer/Rounds.antt =====
-- Rounds of poll-server.c.
use ukgoll_github_io.Prelude.{
  ℕ, zero, suc, ◌+◌, ◌-◌, ◌≤◌, ◌≡◌, refl, ◌∙◌, none, some, List, [], ◌∷◌, if◌then◌else◌, length,
  arith, Bool-cases, ◌⊎◌, inl, inr, Option-cases,
}
use ukgoll_github_io.Prelude.Tally.{tally}
use ukgoll_github_io.PollServer.Server.{
  poll_size, Revents, closed, accepted, Server, on_place, on_accept, serve_clients, PollResult,
  ready, timed_out, interrupted, failed, Answers, on_ready, after_poll, round, free_places, initial,
}
use ukgoll_github_io.PollServer.Log.{accepts, reads, closes, holds, due, free, is}
use ukgoll_github_io.PollServer.Table.{FreeFrom, serve_lem, serve-FreeFrom, polled_lem, place_lem}

-- The table has its size, what lies behind `nfds` is free, and each descriptor was accepted as often
-- as it was closed and stands in the table.
pub record Inv (s : Server) : Type 0 where
  pub size : length s.clients ≡ poll_size - 1
  pub some_fds : 1 ≤ s.nfds
  pub max_fds : s.nfds ≤ poll_size
  pub unused : FreeFrom s.nfds 1 s.clients
  pub balance : (j : ℕ) → accepts j s.calls ≡ closes j s.calls + tally (holds j) s.clients

after_poll-Inv : (f : ℕ → Revents) (s : Server) → Inv s → Inv (after_poll f s)
unfolding after_poll
after_poll-Inv f s v =
    let p = λ (j : ℕ). polled_lem f s.nfds 1 s.clients j v.unused in
    record {
      size = omega (arith, p 0, v.size);
      some_fds = v.some_fds;
      max_fds = v.max_fds;
      unused = (p 0).0;
      balance = λ j. omega (arith, p j, v.balance j);
    }

serve_clients-Inv : (read : ℕ → List ℕ) (s : Server) → Inv s → Inv (serve_clients read s)
unfolding serve_clients
serve_clients-Inv read s v =
    let (f, n) = serve-FreeFrom read s.nfds 1 s.clients s.calls v.unused in
    record {
      size = omega (arith, n, v.size);
      some_fds = v.some_fds;
      max_fds = v.max_fds;
      unused = f;
      balance =
          λ j. omega (arith, serve_lem read s.nfds 1 s.clients s.calls j v.unused, v.balance j);
    }

module _ (g : ℕ → Revents) where
  length-free_places : (i n : ℕ) → length (free_places g i n) ≡ n
  unfolding free_places
  length-free_places i zero = refl
  length-free_places i (suc n) = omega (arith, length-free_places (i + 1) n)

  FreeFrom-free_places : (i n : ℕ) → FreeFrom 1 i (free_places g i n)
  unfolding free_places
  FreeFrom-free_places i zero = tt
  FreeFrom-free_places i (suc n) = (inr refl, FreeFrom-free_places (i + 1) n)

  holds-free_places : (i n j : ℕ) → tally (holds j) (free_places g i n) ≡ 0
  unfolding free_places
  holds-free_places i zero j = refl
  holds-free_places i (suc n) j = omega (arith, holds-free_places (i + 1) n j)

-- In a state in which the invariant holds, a new connection is taken into the table, unless no entry
-- is free; then it is closed at once, and nothing else changes. In both cases the invariant holds
-- again and no client is read.
on_accept_lem :
    (cfd : ℕ) (s : Server)
    → Inv s
    → Inv (on_accept cfd s)
      × ((j : ℕ) → reads j (on_accept cfd s).calls ≡ reads j s.calls)
      × ((tally free s.clients ≡ 0)
            × (on_accept cfd s ≡ record s { calls = closed cfd ∷ accepted cfd ∷ s.calls })
          ⊎ (tally free s.clients ≡ tally free (on_accept cfd s).clients + 1)
            × ((j : ℕ)
                → tally (holds j) (on_accept cfd s).clients ≡ tally (holds j) s.clients + is cfd j)
            × ((on_accept cfd s).calls ≡ accepted cfd ∷ s.calls))
unfolding on_accept on_place
on_accept_lem cfd s v = elim (place_lem cfd s.nfds 1 s.clients v.unused) [
  | inl (e, z) ↦ rw e (
    record {
      size = v.size;
      some_fds = v.some_fds;
      max_fds = v.max_fds;
      unused = v.unused;
      balance = λ j. omega (arith, v.balance j);
    },
    λ j. refl,
    inl (z, refl),
  )
  | inr (k, qs, e, fr, ho, le, lo, hi, ff) ↦ rw e (
    record {
      size = le ∙ v.size;
      some_fds = ground arith;
      max_fds = ground (arith, v.size, v.max_fds);
      unused = ff;
      balance = λ j. omega (arith, v.balance j, ho j);
    },
    λ j. refl,
    inr (fr, ho, refl),
  )
]

start-Inv : (garbage : ℕ → Revents) → Inv (initial garbage)
unfolding initial
start-Inv g = record {
  size = length-free_places g 1 (poll_size - 1);
  some_fds = omega arith;
  max_fds = omega arith;
  unused = FreeFrom-free_places g 1 (poll_size - 1);
  balance = λ j. omega (arith, holds-free_places g 1 (poll_size - 1) j);
}

on_ready-Inv : (a : Answers) (s : Server) → Inv s → Inv (on_ready a s)
unfolding on_ready
on_ready-Inv a s v = elim (Bool-cases (s.listening.pollin)) [
  | inl p ↦ rw p (elim (Option-cases (a.accept)) [
    | inl e ↦ rw e (record {
      size = v.size;
      some_fds = v.some_fds;
      max_fds = v.max_fds;
      unused = v.unused;
      balance = v.balance;
    })
    | inr (cfd, e) ↦ rw e (serve_clients-Inv a.read (on_accept cfd s) (on_accept_lem cfd s v).0)
  ])
  | inr p ↦ simp p (serve_clients-Inv a.read s v)
]

-- The rounds up to the first `break`.
abbrev pub run : List (Answers × PollResult) → Server → Server
run [] s = s
run ((a, r) ∷ rs) s = elim (round a r s) [ none ↦ s | some s' ↦ run rs s' ]

run-Inv : (rs : List (Answers × PollResult)) (s : Server) → Inv s → Inv (run rs s)
unfolding round
run-Inv [] s v = v
run-Inv ((a, ready f) ∷ rs) s v =
    run-Inv rs (on_ready a (after_poll f s))
      (on_ready-Inv a (after_poll f s) (after_poll-Inv f s v))
run-Inv ((a, timed_out) ∷ rs) s v = run-Inv rs s v
run-Inv ((a, interrupted) ∷ rs) s v = run-Inv rs s v
run-Inv ((a, failed) ∷ rs) s v = v

-- After any rounds, whatever the calls answer and whatever the memory held at the start: the table
-- has PollSize - 1 entries for clients, `nfds` is at most PollSize and what lies behind it is free,
-- and each descriptor was accepted as often as it was closed and stands in the table, so that none is
-- lost.
pub run_loses_none :
    (garbage : ℕ → Revents) (rs : List (Answers × PollResult)) → Inv (run rs (initial garbage))
run_loses_none garbage rs = run-Inv rs (initial garbage) (start-Inv garbage)

-- How often a descriptor is to be read in a round, after `poll` and, where the listener is ready,
-- after the new connection: once for each ready entry that has it; not at all if `accept` fails.
abbrev pub to_read : Answers → Server → ℕ → ℕ
to_read a s j =
    if s.listening.pollin
    then elim (a.accept) [ none ↦ 0 | some cfd ↦ tally (due j) (on_accept cfd s).clients ]
    else tally (due j) s.clients

-- A round in which `poll` reports something goes on, and reads each descriptor exactly as often as a
-- ready entry of the table has it; where `accept` fails, the clients that are ready are not read.
round-reads :
    (a : Answers) (f : ℕ → Revents) (s : Server)
    → Inv s
    → (s' : Server) × (round a (ready f) s ≡ some s')
      × ((j : ℕ) → reads j s'.calls ≡ reads j s.calls + to_read a (after_poll f s) j)
unfolding round on_ready serve_clients after_poll
round-reads a f s v =
    let s1 : Server = after_poll f s in
    let v1 = after_poll-Inv f s v in
    (
      on_ready a s1,
      refl,
      λ j. elim (Bool-cases ((f 0).pollin)) [
        | inl p ↦ rw p (elim (Option-cases (a.accept)) [
          | inl e ↦ rw e (omega arith)
          | inr (cfd, e) ↦
              let s2 : Server = on_accept cfd s1 in
              let (v2, r, _) = on_accept_lem cfd s1 v1 in
              rw e (omega (arith, r j, serve_lem a.read s2.nfds 1 s2.clients s2.calls j v2.unused))
        ])
        | inr p ↦ rw p (omega (arith, serve_lem a.read s1.nfds 1 s1.clients s1.calls j v1.unused))
      ],
    )
