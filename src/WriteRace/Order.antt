-- ===== src/WriteRace/Order.antt =====
-- codes/apue/pthreadl/write_race.c: the order of the writes.
use ukgoll_github_io.Prelude.{
  ℕ, suc, ◌≡◌, ◌≢◌, refl, ap, ◌∙◌, Option, none, some, List, [], ◌∷◌, ◌++◌, length, arith, ltb,
  true, false, inl, inr,
}
use ukgoll_github_io.WriteRace.System.{
  Which, thread1, thread2, Thread, ready, writing, finished, Main, creating1, joining1, joining2,
  returned, System, thread, put, return_value, runs, turns, MainStep, open_file, allocate,
  initialize, create2, create1, open_fails, allocate_fails, initialize_fails, create2_fails,
  create1_fails, join1, join2, ThreadStep, take_lock, write_line, release_lock, by_main, by_thread,
  Reachable, start, next,
}
use ukgoll_github_io.WriteRace.Blocks.{
  other, count, by, Blocks, first_takes, second_takes, first_writes, second_writes, first_releases,
  second_releases,
}

-- The invariant of the program, with the values that the joins gave.
unfoldable pub Inv : System → Type 0
Inv s = (f : Which) × Blocks f s.writes s.lock (thread f s) (thread (other f) s)

take_lock-Inv :
    (w : Which) (s : System)
    → thread w s ≡ ready
    → s.lock ≡ none
    → Inv s
    → Inv (put w (writing 0) (record s { lock = some w }))
unfolding Inv
take_lock-Inv thread1 s t l (thread1, v) =
    (thread1, first_takes thread1 s.writes s.t2 (rw (t, l) at v))
take_lock-Inv thread2 s t l (thread2, v) =
    (thread2, first_takes thread2 s.writes s.t1 (rw (t, l) at v))
take_lock-Inv thread2 s t l (thread1, v) =
    elim (second_takes thread1 s.writes s.t1 (rw (t, l) at v)) [
      | inl u ↦ (thread1, u)
      | inr u ↦ (thread2, u)
    ]
take_lock-Inv thread1 s t l (thread2, v) =
    elim (second_takes thread2 s.writes s.t2 (rw (t, l) at v)) [
      | inl u ↦ (thread2, u)
      | inr u ↦ (thread1, u)
    ]

write_line-Inv :
    (w : Which) (s : System) (i : ℕ) (x : Option ℕ)
    → thread w s ≡ writing i
    → ltb i turns ≡ true
    → Inv s
    → Inv (put w (writing (suc i)) (record s { writes = (w, x) ∷ s.writes }))
unfolding Inv
write_line-Inv thread1 s i x t h (thread1, v) =
    (thread1, first_writes thread1 s.writes i x s.lock s.t2 h (rw t at v))
write_line-Inv thread2 s i x t h (thread2, v) =
    (thread2, first_writes thread2 s.writes i x s.lock s.t1 h (rw t at v))
write_line-Inv thread2 s i x t h (thread1, v) =
    (thread1, second_writes thread1 s.writes i x s.lock s.t1 h (rw t at v))
write_line-Inv thread1 s i x t h (thread2, v) =
    (thread2, second_writes thread2 s.writes i x s.lock s.t2 h (rw t at v))

release_lock-Inv :
    (w : Which) (s : System) (i : ℕ)
    → thread w s ≡ writing i
    → ltb i turns ≡ false
    → Inv s
    → Inv (put w finished (record s { lock = none }))
unfolding Inv
release_lock-Inv thread1 s i t h (thread1, v) =
    (thread1, first_releases thread1 s.writes i s.lock s.t2 h (rw t at v))
release_lock-Inv thread2 s i t h (thread2, v) =
    (thread2, first_releases thread2 s.writes i s.lock s.t1 h (rw t at v))
release_lock-Inv thread2 s i t h (thread1, v) =
    (thread1, second_releases thread1 s.writes i s.lock s.t1 h (rw t at v))
release_lock-Inv thread1 s i t h (thread2, v) =
    (thread2, second_releases thread2 s.writes i s.lock s.t2 h (rw t at v))

-- What the joins of `main` have seen: the values they gave, and that the threads are at their ends.
abbrev Joins : Main → List ℕ → Thread → Thread → Type 0
Joins joining2 vs a b = (vs ≡ return_value thread1 ∷ []) × (a ≡ finished)
Joins returned vs a b =
    (vs ≡ return_value thread2 ∷ return_value thread1 ∷ []) × (a ≡ finished) × (b ≡ finished)
Joins _ vs a b = vs ≡ []

pub JoinsInv : System → Type 0
JoinsInv s = Joins s.main s.joined s.t1 s.t2

-- The first thread takes a step, from a place that is not its end.
moves1 :
    (m : Main) (vs : List ℕ) (a b a' : Thread)
    → runs thread1 m ≡ true
    → a ≢ finished
    → Joins m vs a b
    → Joins m vs a' b
moves1 joining1 vs a b a' r h v = v
moves1 joining2 vs a b a' r h v = absurd (h v.1)
moves1 _ vs a b a' r h v = absurd (cc r)

moves2 :
    (m : Main) (vs : List ℕ) (a b b' : Thread)
    → runs thread2 m ≡ true
    → Joins m vs a b
    → Joins m vs a b'
moves2 creating1 vs a b b' r v = v
moves2 joining1 vs a b b' r v = v
moves2 joining2 vs a b b' r v = v
moves2 _ vs a b b' r v = absurd (cc r)

thread-Joins : {s s' : System} (w : Which) → ThreadStep w s s' → JoinsInv s → JoinsInv s'
unfolding JoinsInv
thread-Joins {s} thread1 (take_lock r t l) v =
    moves1 s.main s.joined s.t1 s.t2 _ r (λ e. cc (t, e)) v
thread-Joins {s} thread1 (write_line i x r t h) v =
    moves1 s.main s.joined s.t1 s.t2 _ r (λ e. cc (t, e)) v
thread-Joins {s} thread1 (release_lock i r t h) v =
    moves1 s.main s.joined s.t1 s.t2 _ r (λ e. cc (t, e)) v
thread-Joins {s} thread2 (take_lock r t l) v = moves2 s.main s.joined s.t1 s.t2 _ r v
thread-Joins {s} thread2 (write_line i x r t h) v = moves2 s.main s.joined s.t1 s.t2 _ r v
thread-Joins {s} thread2 (release_lock i r t h) v = moves2 s.main s.joined s.t1 s.t2 _ r v

main-Joins : {s s' : System} → MainStep s s' → JoinsInv s → JoinsInv s'
unfolding JoinsInv
main-Joins (open_file e) v = rw e at v
main-Joins (allocate e) v = rw e at v
main-Joins (initialize e) v = rw e at v
main-Joins (create2 e) v = rw e at v
main-Joins (create1 e) v = rw e at v
main-Joins (open_fails e) v = rw e at v
main-Joins (allocate_fails e) v = rw e at v
main-Joins (initialize_fails e) v = rw e at v
main-Joins (create2_fails e) v = rw e at v
main-Joins (create1_fails e) v = rw e at v
main-Joins {s} (join1 e t) v = (ap (λ l. return_value thread1 ∷ l) (rw e at v), t)
main-Joins {s} (join2 e t) v =
    let (q, f) = rw e at v in (ap (λ l. return_value thread2 ∷ l) q, f, t)

main-Inv : {s s' : System} → MainStep s s' → Inv s → Inv s'
unfolding Inv
main-Inv (open_file e) v = v
main-Inv (allocate e) v = v
main-Inv (initialize e) v = v
main-Inv (create2 e) v = v
main-Inv (create1 e) v = v
main-Inv (open_fails e) v = v
main-Inv (allocate_fails e) v = v
main-Inv (initialize_fails e) v = v
main-Inv (create2_fails e) v = v
main-Inv (create1_fails e) v = v
main-Inv (join1 e t) v = v
main-Inv (join2 e t) v = v

thread-Inv : {s s' : System} (w : Which) → ThreadStep w s s' → Inv s → Inv s'
thread-Inv {s} w (take_lock r t l) v = take_lock-Inv w s t l v
thread-Inv {s} w (write_line i x r t h) v = write_line-Inv w s i x t h v
thread-Inv {s} w (release_lock i r t h) v = release_lock-Inv w s i t h v

pub Reachable-Inv : {s : System} → Reachable s → Inv s × JoinsInv s
unfolding Inv JoinsInv
Reachable-Inv start = (
  (
    thread1,
    record {
      firsts = [];
      seconds = [];
      order = refl;
      first_count = refl;
      second_count = refl;
      bounds = (omega arith, omega arith);
      locked = refl;
      waits = λ h. absurd (h refl);
    },
  ),
  refl,
)
Reachable-Inv (next r (by_main m)) = let (v, j) = Reachable-Inv r in (main-Inv m v, main-Joins m j)
Reachable-Inv (next r (by_thread w m)) =
    let (v, j) = Reachable-Inv r in (thread-Inv w m v, thread-Joins w m j)

both_finished :
    (f : Which) (s : System)
    → s.t1 ≡ finished
    → s.t2 ≡ finished
    → (thread f s ≡ finished) × (thread (other f) s ≡ finished)
both_finished thread1 s a b = (a, b)
both_finished thread2 s a b = (b, a)

-- Where `main` returns, however the threads were scheduled and whatever `write` answered: one thread
-- made all its 100 calls of `write` and then the other made its 100, so no two of their lines are mixed,
-- and the joins gave 0x11 and 0x22.
pub no_mixed_lines :
    {s : System}
    → Reachable s
    → s.main ≡ returned
    → (f : Which) × (firsts : List (Option ℕ)) × (seconds : List (Option ℕ)) × (s.writes
        ≡ by (other f) seconds ++ by f firsts)
      × (length firsts ≡ 100)
      × (length seconds ≡ 100)
      × (s.joined ≡ 34 ∷ 17 ∷ [])
unfolding Inv JoinsInv
no_mixed_lines {s} r e =
    let ((f, v), j) = Reachable-Inv r in
    let (q, a, b) = rw e at j in
    (
      f,
      v.firsts,
      v.seconds,
      v.order,
      v.first_count ∙ ap count (both_finished f s a b).0,
      v.second_count ∙ ap count (both_finished f s a b).1,
      q,
    )
