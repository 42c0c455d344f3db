-- ===== src/SelectServer/Runs.antt =====
-- The server over many rounds.
use ukgoll_github_io.Prelude.{
  ℕ, ◌+◌, ◌-◌, ◌≤◌, ◌<◌, ◌≡◌, ◌≢◌, subst, leb, ◌==◌, arith, Bool-cases, ◌⊎◌, inl, inr,
}
use ukgoll_github_io.SelectServer.Server.{
  FdSet, fd_put, Select, Answers, fd_setsize, ready, go_on, exit_failure, round, initial,
}
use ukgoll_github_io.SelectServer.Inv.{Inv, accepts, closes, bit, IsFresh}
use ukgoll_github_io.SelectServer.Serve.{IsHonest, round_serves_once}

module _ (sfd : ℕ) where
  -- Rounds after which the server goes on; each is given the fuel that it needs.
  pub data Run : Select → Type 0 where
    start : Run (initial sfd)
    next :
        {s s' : Select} (a : Answers) (readfd : FdSet) (ret : ℕ)
        → Run s
        → IsHonest sfd a readfd ret s
        → IsFresh sfd a.accept s
        → round sfd a (s.maxfd - sfd + 1) (ready ret readfd) s ≡ go_on s'
        → Run s'

  -- Each descriptor that was ever accepted is below `maxfd`.
  record Kept (s : Select) : Type 0 where
    inv : Inv sfd s
    seen : (j : ℕ) → j ≢ sfd → 0 < accepts j s.calls → j < s.maxfd

  went_on :
      (s s' : Select) (a : Answers) (fuel ret : ℕ) (readfd : FdSet)
      → round sfd a fuel (ready ret readfd) s ≡ go_on s'
      → s.maxfd < fd_setsize
  unfolding round
  went_on s s' a fuel ret readfd e = elim (Bool-cases (leb fd_setsize s.maxfd)) [
    | inl b ↦ ground (arith, e)
    | inr b ↦ ground (arith, b)
  ]

  start-Kept : Kept (initial sfd)
  unfolding initial fd_put
  start-Kept = record {
    inv = record {
      listens = ground arith;
      range = λ j e. ground (arith, e);
      balance = λ j d. ground arith;
    };
    seen = λ j d h. ground (arith, h);
  }

  Kept-of : {s : Select} → Run s → Kept s
  Kept-of start = start-Kept
  Kept-of (next {s = s} {s' = s'} a readfd ret r o f e) =
      let k = Kept-of r in
      let (s'', q, v, g, rd, cl) =
        round_serves_once sfd a readfd (s.maxfd - sfd + 1) ret s k.inv
          (went_on s s' a _ ret readfd e) (omega arith) o f in
      let same : s'' ≡ s' = ground (arith, e, q) in
      subst Kept same (record {
        inv = v;
        seen = λ j d h. ground (
          arith,
          v.balance j d,
          v.range j,
          cl j,
          k.inv.balance j d,
          k.seen j d,
          o.asked j,
          k.inv.range j,
          g,
        );
      })

  -- After any number of rounds that follow what POSIX promises of `select` and `accept`, a descriptor
  -- was accepted as often as it was closed, and once more while it is watched; if it was ever
  -- accepted, then `maxfd` is above it.
  pub maxfd_never_falls :
      {s : Select}
      → Run s
      → (j : ℕ) → j ≢ sfd
      → (accepts j s.calls ≡ closes j s.calls + bit (s.cache j))
        × ((accepts j s.calls ≡ 0) ⊎ (j < s.maxfd))
  maxfd_never_falls {s = s} r j d =
      let k = Kept-of r in
      (
        k.inv.balance j d,
        elim (Bool-cases (accepts j s.calls == 0)) [
          | inl z ↦ inl (ground arith)
          | inr p ↦ inr (k.seen j d (ground arith))
        ],
      )

  -- Once a client with a descriptor of at least FD_SETSIZE - 1 was accepted, the next round exits,
  -- although every client may have gone.
  exhausted_exits :
      {s : Select}
      → Run s
      → (j : ℕ) → j ≢ sfd
      → 0 < accepts j s.calls
      → fd_setsize ≤ j + 1
      → (a : Answers) (fuel ret : ℕ) (readfd : FdSet)
      → round sfd a fuel (ready ret readfd) s ≡ exit_failure
  unfolding round
  exhausted_exits r j d h b a fuel ret readfd = let k = Kept-of r in ground (arith, k.seen j d h)
