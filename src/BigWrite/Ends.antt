-- ===== src/BigWrite/Ends.antt =====
-- codes/apue/process/pipe_oversize_write.c: what has come out when the parent returns.
use ukgoll_github_io.Prelude.{true, ◌⊎◌, inl, inr}
use ukgoll_github_io.Prelude.{ℕ, ◌+◌, ◌≡◌, refl, arith, false, length}
use ukgoll_github_io.BigWrite.System.{
  write_size, Child, unborn, writing, exited, reaped, returned, System, holds, Reachable,
}
use ukgoll_github_io.BigWrite.Counts.{count, left, Reachable-Inv}

-- What a child writes in all: nothing where `fork` failed.
abbrev pub written : Child → ℕ
written unborn = 0
written _ = write_size

ended_left : (c : Child) → holds c ≡ false → left c + written c ≡ write_size
ended_left unborn h = refl
ended_left (writing n) h = absurd (cc h)
ended_left exited h = refl
ended_left reaped h = refl

-- However the three processes are interleaved and whatever the pipe holds: when the parent returns, and
-- no read of it has failed and every write to stdout has taken all it was given, it has put out every
-- byte of the children that were forked, 8192 times 'A' and 8192 times 'B' in some order, and nothing
-- else.
pub oversize_loses_none :
    (capacity : ℕ) (s : System)
    → Reachable capacity s
    → s.parent ≡ returned
    → s.failed ≡ false
    → (count 65 s.out ≡ written s.a)
      × (count 66 s.out ≡ written s.b)
      × (length s.out ≡ written s.a + written s.b)
oversize_loses_none capacity s r e f =
    let v = Reachable-Inv capacity r in
    let (p, ha, hb) = whole (rw e at v.phase) in
    let (x, y, z) = whole v.counted in
    let a = ended_left s.a ha in
    let b = ended_left s.b hb in
    (omega (arith, rw p at x, a), omega (arith, rw p at y, b), omega (arith, rw p at z, a, b))
  where
    whole : {A : Type 0} → (s.failed ≡ true) ⊎ A → A
    whole (inl t) = absurd (cc (t, f))
    whole (inr a) = a
