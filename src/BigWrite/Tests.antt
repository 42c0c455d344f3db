-- ===== src/BigWrite/Tests.antt =====
-- A run of pipe_oversize_write.c whose second fork fails, and the theorems at it.
use ukgoll_github_io.Prelude.{false, some}
use ukgoll_github_io.Prelude.{ℕ, zero, suc, ap, ◌∷◌, ◌++◌, ◌+◌, ◌≡◌, refl, arith, List, [], length}
use ukgoll_github_io.BigWrite.System.{write_out}
use ukgoll_github_io.BigWrite.System.{
  write_size, child1, unborn, reading, writing, reaped, returned, System, fork1, fork2_fails,
  close_write_end, read_some, read_eof, wait1, wait2_fails, write_part, leave, by_parent, by_child,
  Reachable, start, next,
}
use ukgoll_github_io.BigWrite.Counts.{count}
use ukgoll_github_io.BigWrite.Ends.{oversize_loses_none}

-- The second `fork` fails, and the first child has so much left to write.
abbrev at_reading : ℕ → List ℕ → System
at_reading n xs = record {
  parent = reading;
  a = writing n;
  b = unborn;
  pipe = [];
  out = xs;
  failed = false;
}

-- Byte by byte: the child writes one, and the parent reads it.
bytewise :
    (n : ℕ) (xs : List ℕ)
    → Reachable 512 (at_reading n xs)
    → (ys : List ℕ) × Reachable 512 (at_reading 0 ys)
unfolding write_out
bytewise zero xs r = (xs, r)
bytewise (suc n) xs r =
    let a_byte : writing (suc n) ≡ writing (1 + n) = ap writing (omega arith) in
    bytewise n (xs ++ (65 ∷ [])) (
      next (next r (by_child child1 (write_part 1 n a_byte (omega arith) refl (omega arith))))
        (by_parent (read_some 65 [] (some 1) refl refl)))

one_child : (ys : List ℕ) × Reachable 512 (at_reading 0 ys)
one_child = bytewise write_size [] (
    next (next (next start (by_parent (fork1 refl))) (by_parent (fork2_fails refl)))
      (by_parent (close_write_end refl)))

abbrev ended : System
ended = record {
  parent = returned;
  a = reaped;
  b = unborn;
  pipe = [];
  out = one_child.0;
  failed = false;
}

ended_reachable : Reachable 512 ended
ended_reachable =
    next
      (next
        (next (next one_child.1 (by_child child1 (leave refl)))
          (by_parent (read_eof refl refl refl refl)))
        (by_parent (wait1 child1 refl refl)))
      (by_parent (wait2_fails refl refl refl))

oversize_loses_none_example :
    (count 65 one_child.0 ≡ 8192) × (count 66 one_child.0 ≡ 0) × (length one_child.0 ≡ 8192 + 0)
oversize_loses_none_example = oversize_loses_none 512 ended ended_reachable refl refl
