-- ===== src/WriteRace/Tests.antt =====
-- A run of write_race.c, and the theorems at it.
use ukgoll_github_io.Prelude.{
  ℕ, zero, suc, ◌+◌, ◌≤◌, ◌⊎◌, ◌≡◌, refl, ◌∙◌, [], ◌∷◌, Option, none, some, List, ◌++◌, length,
  true, arith,
}
use ukgoll_github_io.WriteRace.System.{
  Which, thread1, thread2, ready, writing, finished, joining1, returned, failed, System, thread,
  runs, turns, open_file, allocate, initialize, create2, create1, join1, join2, take_lock,
  write_line, release_lock, Step, by_main, by_thread, Reachable, start, next,
}
use ukgoll_github_io.WriteRace.Blocks.{other, by}
use ukgoll_github_io.WriteRace.Order.{no_mixed_lines}
use ukgoll_github_io.WriteRace.Progress.{length_of, every_run_ends}

-- Both threads are created.
created_Reachable :
    (s : System) × Reachable s
    × (s.main ≡ joining1)
    × (s.t1 ≡ ready)
    × (s.t2 ≡ ready)
    × (s.lock ≡ none)
created_Reachable = (
  _,
  next
      (next
        (next (next (next start (by_main (open_file refl))) (by_main (allocate refl)))
          (by_main (initialize refl)))
        (by_main (create2 refl)))
      (by_main (create1 refl)),
  refl,
  refl,
  refl,
  refl,
)

-- From index `i` on, the thread writes its lines, 15 bytes each, and gives the lock back.
lines_written :
    (w : Which) (n i : ℕ) (s : System)
    → Reachable s
    → runs w s.main ≡ true
    → thread w s ≡ writing i
    → n + i ≡ turns
    → (s' : System) × Reachable s'
      × (thread w s' ≡ finished)
      × (s'.main ≡ s.main)
      × (thread (other w) s' ≡ thread (other w) s)
      × (s'.lock ≡ none)
lines_written thread1 zero i s r u t e =
    (_, next r (by_thread thread1 (release_lock i u t (ground (arith, e)))), refl, refl, refl, refl)
lines_written thread2 zero i s r u t e =
    (_, next r (by_thread thread2 (release_lock i u t (ground (arith, e)))), refl, refl, refl, refl)
lines_written thread1 (suc n) i s r u t e =
    lines_written thread1 n (suc i) _
      (next r (by_thread thread1 (write_line i (some 15) u t (ground (arith, e))))) u refl
      (omega (arith, e))
lines_written thread2 (suc n) i s r u t e =
    lines_written thread2 n (suc i) _
      (next r (by_thread thread2 (write_line i (some 15) u t (ground (arith, e))))) u refl
      (omega (arith, e))

-- A whole run: the second thread gets the lock first.
returned_Reachable : (s : System) × Reachable s × (s.main ≡ returned)
returned_Reachable =
    let (s, r, m, a, b, l) = created_Reachable in
    let (s2, r2, f2, m2, o2, l2) =
      lines_written thread2 100 0 _ (next r (by_thread thread2 (take_lock (rw m refl) b l)))
        (rw m refl) refl refl in
    let n2 = m2 ∙ m in
    let (s1, r1, f1, m1, o1, l1) =
      lines_written thread1 100 0 _
        (next r2 (by_thread thread1 (take_lock (rw n2 refl) (o2 ∙ a) l2))) (rw n2 refl) refl refl in
    let n1 = m1 ∙ n2 in
    (_, next (next r1 (by_main (join1 n1 f1))) (by_main (join2 refl (o1 ∙ f2))), refl)

no_mixed_lines_example :
    (f : Which) × (firsts : List (Option ℕ)) × (seconds : List (Option ℕ))
    × (returned_Reachable.0.writes ≡ by (other f) seconds ++ by f firsts)
    × (length firsts ≡ 100)
    × (length seconds ≡ 100)
    × (returned_Reachable.0.joined ≡ 34 ∷ 17 ∷ [])
no_mixed_lines_example = no_mixed_lines returned_Reachable.1 returned_Reachable.2

every_run_ends_example :
    (length_of created_Reachable.1 ≤ 211)
    × (((created_Reachable.0.main ≡ returned) ⊎ (created_Reachable.0.main ≡ failed))
        ⊎ ((s' : System) × Step created_Reachable.0 s'))
every_run_ends_example = every_run_ends created_Reachable.1
