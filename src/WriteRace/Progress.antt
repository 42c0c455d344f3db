-- ===== src/WriteRace/Progress.antt =====
-- codes/apue/pthreadl/write_race.c: how its runs go on and end.
use ukgoll_github_io.Prelude.{
  ℕ, ◌+◌, ◌-◌, ◌<◌, ◌≤◌, arith, ◌≡◌, ◌≢◌, refl, sym, ◌∙◌, none, some, ltb, true, Bool-cases,
  Option-cases, ◌⊎◌, inl, inr,
}
use ukgoll_github_io.WriteRace.System.{
  Which, thread1, thread2, Thread, ready, writing, finished, Main, opening, allocating,
  initializing, creating2, creating1, joining1, joining2, returned, failed, System, thread, runs,
  turns, open_file, allocate, initialize, create2, create1, join1, join2, take_lock, write_line,
  release_lock, MainStep, ThreadStep, open_fails, allocate_fails, initialize_fails, create2_fails,
  create1_fails, Step, by_main, by_thread, Reachable, start, next,
}
use ukgoll_github_io.WriteRace.Blocks.{other, holder}
use ukgoll_github_io.WriteRace.Order.{Inv, Reachable-Inv}

-- The thread that holds the lock is in its loop.
holder_writes :
    (f w : Which) (a b : Thread)
    → holder f a b ≡ some w
    → (i : ℕ) × (((w ≡ f) × (a ≡ writing i)) ⊎ ((w ≡ other f) × (b ≡ writing i)))
holder_writes f w (writing i) b e = (i, inl (cc e, refl))
holder_writes f w ready (writing i) e = (i, inr (cc e, refl))
holder_writes f w finished (writing i) e = (i, inr (cc e, refl))
holder_writes f w ready ready e = absurd (cc e)
holder_writes f w ready finished e = absurd (cc e)
holder_writes f w finished ready e = absurd (cc e)
holder_writes f w finished finished e = absurd (cc e)

Inv-held : (s : System) (w : Which) → Inv s → s.lock ≡ some w → (i : ℕ) × (thread w s ≡ writing i)
unfolding Inv
Inv-held s w (f, v) e =
    let (i, h) = holder_writes f w _ _ (sym v.locked ∙ e) in
    elim h [ inl (q, t) ↦ (i, rw q t) | inr (q, t) ↦ (i, rw q t) ]

-- A thread in its loop goes on.
writing_steps :
    (s : System) (w : Which) (i : ℕ)
    → runs w s.main ≡ true
    → thread w s ≡ writing i
    → (s' : System) × Step s s'
writing_steps s w i r t = elim (Bool-cases (ltb i turns)) [
  | inl h ↦ (_, by_thread w (write_line i none r t h))
  | inr h ↦ (_, by_thread w (release_lock i r t h))
]

Thread-cases : (t : Thread) → (t ≡ ready) ⊎ (((i : ℕ) × (t ≡ writing i)) ⊎ (t ≡ finished))
Thread-cases ready = inl refl
Thread-cases (writing i) = inr (inl (i, refl))
Thread-cases finished = inr (inr refl)

-- While the joins wait, a thread that is not at its end, or the one that holds the lock, goes on.
joined_steps :
    (s : System) (w : Which)
    → Inv s
    → ((v : Which) → runs v s.main ≡ true)
    → (thread w s ≡ finished → (s' : System) × Step s s')
    → (s' : System) × Step s s'
joined_steps s w v r join = elim (Thread-cases (thread w s)) [
  | inr (inr t) ↦ join t
  | inr (inl (i, t)) ↦ writing_steps s w i (r w) t
  | inl t ↦ elim (Option-cases s.lock) [
    | inl l ↦ (_, by_thread w (take_lock (r w) t l))
    | inr (h, l) ↦ let (i, u) = Inv-held s h v l in writing_steps s h i (r h) u
  ]
]

main_steps :
    (m : Main) (s : System)
    → Inv s
    → s.main ≡ m
    → m ≢ returned
    → m ≢ failed
    → (s' : System) × Step s s'
main_steps opening s v e a b = (_, by_main (open_file e))
main_steps allocating s v e a b = (_, by_main (allocate e))
main_steps initializing s v e a b = (_, by_main (initialize e))
main_steps creating2 s v e a b = (_, by_main (create2 e))
main_steps creating1 s v e a b = (_, by_main (create1 e))
main_steps joining1 s v e a b =
    joined_steps s thread1 v (λ w. rw e refl) (λ t. (_, by_main (join1 e t)))
main_steps joining2 s v e a b =
    joined_steps s thread2 v (λ w. rw e refl) (λ t. (_, by_main (join2 e t)))
main_steps returned s v e a b = absurd (a refl)
main_steps failed s v e a b = absurd (b refl)

-- A bound on the steps that are left.
abbrev pub left_in : Thread → ℕ
left_in ready = 2 + turns
left_in (writing i) = 1 + (turns - i)
left_in finished = 0

abbrev pub left_of : Main → ℕ
left_of opening = 7
left_of allocating = 6
left_of initializing = 5
left_of creating2 = 4
left_of creating1 = 3
left_of joining1 = 2
left_of joining2 = 1
left_of returned = 0
left_of failed = 0

abbrev pub steps_left : System → ℕ
steps_left s = left_of s.main + left_in s.t1 + left_in s.t2

main-steps_left : {s s' : System} → MainStep s s' → steps_left s' < steps_left s
main-steps_left {s} (open_file e) = rw e (omega arith)
main-steps_left {s} (allocate e) = rw e (omega arith)
main-steps_left {s} (initialize e) = rw e (omega arith)
main-steps_left {s} (create2 e) = rw e (omega arith)
main-steps_left {s} (create1 e) = rw e (omega arith)
main-steps_left {s} (open_fails e) = rw e (omega arith)
main-steps_left {s} (allocate_fails e) = rw e (omega arith)
main-steps_left {s} (initialize_fails e) = rw e (omega arith)
main-steps_left {s} (create2_fails e) = rw e (omega arith)
main-steps_left {s} (create1_fails e) = rw e (omega arith)
main-steps_left {s} (join1 e t) = rw e (omega arith)
main-steps_left {s} (join2 e t) = rw e (omega arith)

thread-steps_left : {s s' : System} (w : Which) → ThreadStep w s s' → steps_left s' < steps_left s
thread-steps_left {s} thread1 (take_lock r t l) = rw t (omega arith)
thread-steps_left {s} thread2 (take_lock r t l) = rw t (omega arith)
thread-steps_left {s} thread1 (write_line i x r t h) = rw t (ground (arith, h))
thread-steps_left {s} thread2 (write_line i x r t h) = rw t (ground (arith, h))
thread-steps_left {s} thread1 (release_lock i r t h) = rw t (omega arith)
thread-steps_left {s} thread2 (release_lock i r t h) = rw t (omega arith)

step-steps_left : {s s' : System} → Step s s' → steps_left s' < steps_left s
step-steps_left (by_main m) = main-steps_left m
step-steps_left (by_thread w m) = thread-steps_left w m

abbrev pub length_of : {s : System} → Reachable s → ℕ
length_of start = 0
length_of (next r m) = length_of r + 1

length_of-bound : {s : System} (r : Reachable s) → length_of r + steps_left s ≤ 211
length_of-bound start = omega arith
length_of-bound (next r m) = omega (arith, step-steps_left m, length_of-bound r)

Main-cases : (m : Main) → ((m ≡ returned) ⊎ (m ≡ failed)) ⊎ ((m ≢ returned) × (m ≢ failed))
Main-cases returned = inl (inl refl)
Main-cases failed = inl (inr refl)
Main-cases _ = inr (λ e. cc e, λ e. cc e)

-- However the threads are scheduled and whatever the calls answer: a run has at most 211 steps, and
-- in a state where `main` has not ended some thread can go on, so no join and no lock waits for ever.
pub every_run_ends :
    {s : System} (r : Reachable s)
    → (length_of r ≤ 211)
      × (((s.main ≡ returned) ⊎ (s.main ≡ failed)) ⊎ ((s' : System) × Step s s'))
every_run_ends {s} r = (
  omega (arith, length_of-bound r),
  elim (Main-cases s.main) [
    | inl e ↦ inl e
    | inr (a, b) ↦ inr (main_steps s.main s (Reachable-Inv r).0 refl a b)
  ],
)
