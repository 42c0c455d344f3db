-- ===== src/StaleBuffer/Bounds.antt =====
-- The array of codes/apue/process/proc_grp.c, and whether string functions run past it.
use ukgoll_github_io.Prelude.{
  ℕ, Bool, true, false, not, ◌&&◌, ◌==◌, if◌then◌else◌, List, [], ◌∷◌, ◌++◌, ◌≤◌, length, overwrite,
}
use ukgoll_github_io.Prelude.CString.{Ended, overwrite-Ended, until_zero-Ended, zeros-Ended}
use ukgoll_github_io.StaleBuffer.ProcGrp

-- No call of the list is an overrun.
abbrev pub InBounds : List ProcGrp.Call → Type 0
InBounds [] = Unit
InBounds (ProcGrp.to_stdout s ∷ log) = InBounds log
InBounds (ProcGrp.to_fifo s ∷ log) = InBounds log
InBounds (ProcGrp.slept ∷ log) = InBounds log
InBounds (ProcGrp.overrun ∷ log) = ⊥

abbrev pub OutcomeInBounds : ProcGrp.Outcome → Type 0
OutcomeInBounds ProcGrp.usage = Unit
OutcomeInBounds ProcGrp.exit_failure = Unit
OutcomeInBounds (ProcGrp.waiting log) = InBounds log
OutcomeInBounds (ProcGrp.returned log) = InBounds log

-- Every answer has at most `n` bytes.
abbrev pub AtMost : ℕ → List (List ℕ) → Type 0
AtMost n [] = Unit
AtMost n (r ∷ rs) = (length r ≤ n) × AtMost n rs

abbrev pub PairsAtMost : ℕ → List (List ℕ × Bool) → Type 0
PairsAtMost n [] = Unit
PairsAtMost n ((r, ok) ∷ rs) = (length r ≤ n) × PairsAtMost n rs

InBounds-append :
    (log more : List ProcGrp.Call) → InBounds log → InBounds more → InBounds (log ++ more)
InBounds-append [] more h k = k
InBounds-append (ProcGrp.to_stdout s ∷ log) more h k = InBounds-append log more h k
InBounds-append (ProcGrp.to_fifo s ∷ log) more h k = InBounds-append log more h k
InBounds-append (ProcGrp.slept ∷ log) more h k = InBounds-append log more h k
InBounds-append (ProcGrp.overrun ∷ log) more h k = absurd h

module _ (texts : ProcGrp.Texts) where
  loop1-InBounds :
      (rs : List (List ℕ)) (log : List ProcGrp.Call)
      → InBounds log
      → OutcomeInBounds (ProcGrp.loop1 texts rs log)
  unfolding ProcGrp.loop1
  loop1-InBounds [] log h = h
  loop1-InBounds ([] ∷ rs) log h = h
  loop1-InBounds ((b ∷ bs) ∷ rs) log h = loop1-InBounds rs _ (InBounds-append log _ h tt)

  loop2-InBounds :
      (rs : List (List ℕ × Bool)) (buf : List ℕ) (log : List ProcGrp.Call)
      → Ended 255 buf
      → PairsAtMost 255 rs
      → InBounds log
      → OutcomeInBounds (ProcGrp.loop2 texts rs buf log)
  unfolding ProcGrp.loop2
  loop2-InBounds [] buf log e v h = h
  loop2-InBounds (([], ok) ∷ rs) buf log e v h = h
  loop2-InBounds ((b ∷ bs, true) ∷ rs) buf log e (l, v) h =
      let e' = overwrite-Ended 255 buf (b ∷ bs) e l in
      rw (until_zero-Ended 255 (overwrite buf 0 (b ∷ bs)) e')
        (loop2-InBounds rs (overwrite buf 0 (b ∷ bs)) _ e' v (InBounds-append log _ h tt))
  loop2-InBounds ((b ∷ bs, false) ∷ rs) buf log e (l, v) h =
      loop2-InBounds rs (overwrite buf 0 (b ∷ bs)) _ (overwrite-Ended 255 buf (b ∷ bs) e l) v
        (InBounds-append log _ h tt)

  loop3-InBounds :
      (rs : List (List ℕ)) (buf : List ℕ) (log : List ProcGrp.Call)
      → Ended 255 buf
      → AtMost 255 rs
      → InBounds log
      → OutcomeInBounds (ProcGrp.loop3 texts rs buf log)
  unfolding ProcGrp.loop3
  loop3-InBounds [] buf log e v h = h
  loop3-InBounds ([] ∷ rs) buf log e v h = h
  loop3-InBounds ((b ∷ bs) ∷ rs) buf log e (l, v) h =
      let e' = overwrite-Ended 255 buf (b ∷ bs) e l in
      rw (until_zero-Ended 255 (overwrite buf 0 (b ∷ bs)) e')
        (loop3-InBounds rs (overwrite buf 0 (b ∷ bs)) _ e' v (InBounds-append log _ h tt))

guard-InBounds :
    (b : Bool) (early rest : ProcGrp.Outcome)
    → OutcomeInBounds early
    → OutcomeInBounds rest
    → OutcomeInBounds (if b then early else rest)
guard-InBounds true early rest h k = h
guard-InBounds false early rest h k = k

work-InBounds :
    (texts : ProcGrp.Texts) (process : ProcGrp.ProcessEnum) (writes : List (List ℕ × Bool))
    (reads : List (List ℕ))
    → PairsAtMost 255 writes
    → AtMost 255 reads
    → OutcomeInBounds (ProcGrp.work texts process writes reads)
unfolding ProcGrp.work
work-InBounds texts ProcGrp.p1 writes reads v w = loop1-InBounds texts reads [] tt
work-InBounds texts ProcGrp.p2 writes reads v w =
    loop2-InBounds texts writes ProcGrp.empty_buf [] (zeros-Ended 255) v tt
work-InBounds texts ProcGrp.p3 writes reads v w =
    loop3-InBounds texts reads ProcGrp.empty_buf _ (zeros-Ended 255) w tt

-- Whatever the process is and whatever the calls answer, no `strlen` or `printf` of the program runs
-- past `read_buf`, as long as no `read` answers with more than the 255 bytes it asks for.
pub main-InBounds :
    (texts : ProcGrp.Texts) (argc : ℕ) (argument : ProcGrp.Argument)
    (fifo_exists mkfifo_ok open_ok : Bool) (writes : List (List ℕ × Bool)) (reads : List (List ℕ))
    → PairsAtMost 255 writes
    → AtMost 255 reads
    → OutcomeInBounds (ProcGrp.main texts argc argument fifo_exists mkfifo_ok open_ok writes reads)
unfolding ProcGrp.main
main-InBounds texts argc argument fifo_exists mkfifo_ok open_ok writes reads v w =
    guard-InBounds (not (argc == 2)) _ _ tt (
      guard-InBounds (not fifo_exists && not mkfifo_ok) _ _ tt (
        guard-InBounds (not open_ok) _ _ tt
          (work-InBounds texts (ProcGrp.process_of argument) writes reads v w)))
