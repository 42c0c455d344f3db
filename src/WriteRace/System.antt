-- ===== src/WriteRace/System.antt =====
-- codes/apue/pthreadl/write_race.c: the main thread and the two that write, interleaved.
use ukgoll_github_io.Prelude.{
  ℕ, suc, ◌≡◌, Bool, true, false, Option, none, some, List, [], ◌∷◌, ltb,
}

pub data Which : Type 0 where
  thread1 : Which
  thread2 : Which

-- Where a thread stands in its function: before the lock, in the loop with the index `i`, at its end.
pub data Thread : Type 0 where
  ready : Thread
  writing : ℕ → Thread
  finished : Thread

-- The next call of `main`, or its end.
pub data Main : Type 0 where
  opening : Main
  allocating : Main
  initializing : Main
  creating2 : Main
  creating1 : Main
  joining1 : Main
  joining2 : Main
  returned : Main
  failed : Main

-- `foo->lock` is the thread that holds it. `writes` has the answers of `write`, the latest first, `none`
-- for -1, and `joined` the values that the joins gave.
pub record System : Type 0 where
  pub main : Main
  pub lock : Option Which
  pub t1 : Thread
  pub t2 : Thread
  pub writes : List (Which × Option ℕ)
  pub joined : List ℕ

abbrev pub pick : Which → Thread → Thread → Thread
pick thread1 a b = a
pick thread2 a b = b

abbrev pub thread : Which → System → Thread
thread w s = pick w s.t1 s.t2

abbrev pub put : Which → Thread → System → System
put thread1 t s = record s { t1 = t }
put thread2 t s = record s { t2 = t }

abbrev pub return_value : Which → ℕ
return_value thread1 = 17
return_value thread2 = 34

-- The thread is created, and the process has not ended.
abbrev pub runs : Which → Main → Bool
runs w joining1 = true
runs w joining2 = true
runs thread2 creating1 = true
runs _ _ = false

-- `for (int i = 0; i < 100; i++)`
abbrev pub turns : ℕ
turns = 100

-- `main`, call by call; the end of `main` ends the process.
pub data MainStep (s : System) : System → Type 0 where
  open_file : s.main ≡ opening → MainStep s (record s { main = allocating })
  allocate : s.main ≡ allocating → MainStep s (record s { main = initializing })
  initialize : s.main ≡ initializing → MainStep s (record s { main = creating2 })
  create2 : s.main ≡ creating2 → MainStep s (record s { main = creating1 })
  create1 : s.main ≡ creating1 → MainStep s (record s { main = joining1 })
  open_fails : s.main ≡ opening → MainStep s (record s { main = failed })
  allocate_fails : s.main ≡ allocating → MainStep s (record s { main = failed })
  initialize_fails : s.main ≡ initializing → MainStep s (record s { main = failed })
  create2_fails : s.main ≡ creating2 → MainStep s (record s { main = failed })
  create1_fails : s.main ≡ creating1 → MainStep s (record s { main = failed })
  join1 :
      s.main ≡ joining1
      → s.t1 ≡ finished
      → MainStep s (record s { main = joining2; joined = return_value thread1 ∷ s.joined })
  join2 :
      s.main ≡ joining2
      → s.t2 ≡ finished
      → MainStep s (record s { main = returned; joined = return_value thread2 ∷ s.joined })

-- `thread1_func` and `thread2_func`, which differ in what they write and return.
pub data ThreadStep (w : Which) (s : System) : System → Type 0 where
  take_lock :
      runs w s.main ≡ true
      → thread w s ≡ ready
      → s.lock ≡ none
      → ThreadStep w s (put w (writing 0) (record s { lock = some w }))
  write_line :
      (i : ℕ) (answer : Option ℕ)
      → runs w s.main ≡ true
      → thread w s ≡ writing i
      → ltb i turns ≡ true
      → ThreadStep w s (put w (writing (suc i)) (record s { writes = (w, answer) ∷ s.writes }))
  release_lock :
      (i : ℕ)
      → runs w s.main ≡ true
      → thread w s ≡ writing i
      → ltb i turns ≡ false
      → ThreadStep w s (put w finished (record s { lock = none }))

pub data Step (s s' : System) : Type 0 where
  by_main : MainStep s s' → Step s s'
  by_thread : (w : Which) → ThreadStep w s s' → Step s s'

abbrev pub initial : System
initial = record { main = opening; lock = none; t1 = ready; t2 = ready; writes = []; joined = [] }

-- The states that the program gets into.
pub data Reachable : System → Type 0 where
  start : Reachable initial
  next : {s s' : System} → Reachable s → Step s s' → Reachable s'
