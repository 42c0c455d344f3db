-- ===== src/BigWrite/Progress.antt =====
-- codes/apue/process/pipe_oversize_write.c: how its runs go on and end.
use ukgoll_github_io.Prelude.{ℕ, ◌+◌, ◌*◌, length}
use ukgoll_github_io.BigWrite.System.{
  write_size, Child, unborn, writing, exited, reaped, Parent, forking1, forking2, closing, reading,
  waiting1, waiting2, returned, System, Reachable, start, next,
}

-- A bound on the steps that are left.
abbrev pub left_in : Child → ℕ
left_in unborn = 2 + 2 * write_size
left_in (writing n) = 2 + 2 * n
left_in exited = 1
left_in reaped = 0

abbrev pub left_of : Parent → ℕ
left_of forking1 = 6
left_of forking2 = 5
left_of closing = 4
left_of reading = 3
left_of waiting1 = 2
left_of waiting2 = 1
left_of returned = 0

abbrev pub steps_left : System → ℕ
steps_left s = left_of s.parent + left_in s.a + left_in s.b + length s.pipe

module _ (capacity : ℕ) where
  abbrev pub length_of : {s : System} → Reachable capacity s → ℕ
  length_of start = 0
  length_of (next r m) = length_of r + 1
