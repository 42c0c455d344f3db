-- ===== src/PollServer/Table.antt =====
-- What the loops of poll-server.c do to the table of clients.
use ukgoll_github_io.Prelude.{
  ℕ, ◌+◌, ◌≤◌, ◌<◌, ◌≡◌, refl, ◌||◌, none, some, List, [], ◌∷◌, ltb, leb, if◌then◌else◌, length,
  arith, Bool-cases, ◌⊎◌, inl, inr,
}
use ukgoll_github_io.Prelude.Tally.{tally}
use ukgoll_github_io.PollServer.Server.{
  PollFd, pollfd, Revents, Call, read_from, on_bytes, visit, serve, place, polled, set_revents,
}
use ukgoll_github_io.PollServer.Log.{accepts, reads, closes, holds, due, free, is, echo_counts}

-- The entries from `nfds` on, seen from the index `i` on, are free.
abbrev pub FreeFrom : ℕ → ℕ → List PollFd → Type 0
FreeFrom nfds i [] = Unit
FreeFrom nfds i (p ∷ ps) = ((i < nfds) ⊎ (free p ≡ 1)) × FreeFrom nfds (i + 1) ps

on_bytes_lem :
    (r : Revents) (d : ℕ) (bytes : List ℕ) (l : List Call) (j : ℕ)
    → (accepts j (on_bytes r d bytes l).1 ≡ accepts j l)
      × (reads j (on_bytes r d bytes l).1 ≡ reads j l)
      × (closes j (on_bytes r d bytes l).1 + holds j (on_bytes r d bytes l).0 ≡ closes j l + is d j)
unfolding on_bytes
on_bytes_lem r d [] l j = omega arith
on_bytes_lem r d (b ∷ bs) l j = omega (arith, echo_counts d j (b ∷ bs) l)

-- What a turn of the loop does for the descriptor `j`.
visit_lem :
    (read : ℕ → List ℕ) (p : PollFd) (l : List Call) (j : ℕ)
    → (accepts j (visit read p l).1 ≡ accepts j l)
      × (reads j (visit read p l).1 ≡ reads j l + due j p)
      × (closes j (visit read p l).1 + holds j (visit read p l).0 ≡ closes j l + holds j p)
unfolding visit on_bytes
visit_lem read (pollfd none r) l j = ground arith
visit_lem read (pollfd (some d) r) l j = elim (Bool-cases (r.pollin || r.pollhup)) [
  | inl e ↦ rw e (omega (arith, on_bytes_lem r d (read d) (read_from d ∷ l) j))
  | inr e ↦ rw e (omega arith)
]

none_due :
    (nfds i : ℕ) (ps : List PollFd) (j : ℕ) → FreeFrom nfds i ps → nfds ≤ i → tally (due j) ps ≡ 0
none_due nfds i [] j f h = refl
none_due nfds i (pollfd none r ∷ ps) j f h = omega (arith, none_due nfds (i + 1) ps j f.1)
none_due nfds i (pollfd (some d) r ∷ ps) j f h = absurd (ground arith)

-- The loop reads each ready client once, and closes what it takes out of the table.
pub serve_lem :
    (read : ℕ → List ℕ) (nfds i : ℕ) (ps : List PollFd) (l : List Call) (j : ℕ)
    → FreeFrom nfds i ps
    → (accepts j (serve read nfds i ps l).1 ≡ accepts j l)
      × (reads j (serve read nfds i ps l).1 ≡ reads j l + tally (due j) ps)
      × (closes j (serve read nfds i ps l).1 + tally (holds j) (serve read nfds i ps l).0
          ≡ closes j l + tally (holds j) ps)
unfolding serve
serve_lem read nfds i [] l j f = omega arith
serve_lem read nfds i (p ∷ ps) l j f = elim (Bool-cases (ltb i nfds)) [
  | inl b ↦
      rw b (
        omega
          (arith, visit_lem read p l j, serve_lem read nfds (i + 1) ps (visit read p l).1 j f.1))
  | inr b ↦ rw b (omega (arith, none_due nfds i (p ∷ ps) j f (ground (arith, b))))
]

-- The loop keeps the free entries free.
pub serve-FreeFrom :
    (read : ℕ → List ℕ) (nfds i : ℕ) (ps : List PollFd) (l : List Call)
    → FreeFrom nfds i ps
    → FreeFrom nfds i (serve read nfds i ps l).0 × (length (serve read nfds i ps l).0 ≡ length ps)
unfolding serve
serve-FreeFrom read nfds i [] l f = (tt, refl)
serve-FreeFrom read nfds i (p ∷ ps) l f =
    let (g, n) = serve-FreeFrom read nfds (i + 1) ps (visit read p l).1 f.1 in
    elim (Bool-cases (ltb i nfds)) [
      | inl b ↦ rw b ((inl (ground (arith, b)), g), omega arith)
      | inr b ↦ rw b (f, refl)
    ]

polled_holds : (r : Revents) (j : ℕ) (p : PollFd) → holds j (polled r p) ≡ holds j p
polled_holds r j (pollfd none v) = refl
polled_holds r j (pollfd (some d) v) = refl

-- `poll` changes neither the descriptors nor what is free.
pub polled_lem :
    (r : ℕ → Revents) (nfds i : ℕ) (ps : List PollFd) (j : ℕ)
    → FreeFrom nfds i ps
    → FreeFrom nfds i (set_revents r nfds i ps)
      × (length (set_revents r nfds i ps) ≡ length ps)
      × (tally (holds j) (set_revents r nfds i ps) ≡ tally (holds j) ps)
unfolding set_revents
polled_lem r nfds i [] j f = (tt, refl, refl)
polled_lem r nfds i (pollfd o v ∷ ps) j f =
    let (g, n, h) = polled_lem r nfds (i + 1) ps j f.1 in
    elim (Bool-cases (ltb i nfds)) [
      | inl b ↦ rw b (
        (inl (ground (arith, b)), g),
        omega arith,
        omega (arith, h, polled_holds (r i) j (pollfd o v)),
      )
      | inr b ↦ rw b ((f.0, g), omega arith, omega arith)
    ]

FreeFrom-mono : (n m i : ℕ) (ps : List PollFd) → n ≤ m → FreeFrom n i ps → FreeFrom m i ps
FreeFrom-mono n m i [] h f = tt
FreeFrom-mono n m i (p ∷ ps) h f =
    (elim (f.0) [ inl b ↦ inl (omega arith) | inr e ↦ inr e ], FreeFrom-mono n m (i + 1) ps h f.1)

-- Where the new connection goes: nowhere if no entry is free, and else into the first free one.
pub place_lem :
    (cfd nfds i : ℕ) (ps : List PollFd)
    → FreeFrom nfds i ps
    → (place cfd i ps ≡ none) × (tally free ps ≡ 0)
      ⊎ (k : ℕ) × (qs : List PollFd) × (place cfd i ps ≡ some (k, qs))
        × (tally free ps ≡ tally free qs + 1)
        × ((j : ℕ) → tally (holds j) qs ≡ tally (holds j) ps + is cfd j)
        × (length qs ≡ length ps)
        × (i ≤ k)
        × (k < i + length ps)
        × FreeFrom (if leb nfds k then k + 1 else nfds) i qs
unfolding place
place_lem cfd nfds i [] f = inl (refl, refl)
place_lem cfd nfds i (pollfd none r ∷ ps) f = inr (
  i,
  pollfd (some cfd) r ∷ ps,
  refl,
  omega arith,
  λ j. omega arith,
  refl,
  omega arith,
  omega arith,
  (
    inl (ground arith),
    FreeFrom-mono nfds (if leb nfds i then i + 1 else nfds) (i + 1) ps (ground arith) f.1,
  ),
)
place_lem cfd nfds i (pollfd (some d) r ∷ ps) f = elim (place_lem cfd nfds (i + 1) ps f.1) [
  | inl (n, z) ↦ inl (rw n refl, omega (arith, z))
  | inr (k, qs, q, fr, ho, le, lo, hi, ff) ↦ inr (
    k,
    pollfd (some d) r ∷ qs,
    rw q refl,
    omega (arith, fr),
    λ j. omega (arith, ho j),
    omega (arith, le),
    omega arith,
    omega (arith),
    (inl (ground arith), ff),
  )
]
