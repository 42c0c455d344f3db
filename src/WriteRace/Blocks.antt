-- ===== src/WriteRace/Blocks.antt =====
-- codes/apue/pthreadl/write_race.c: one turn at the lock after the other, and what a step does to them.
use ukgoll_github_io.Prelude.{
  length-zero, ℕ, suc, ◌≤◌, ◌≡◌, ◌≢◌, refl, ap, ◌∙◌, Option, none, some, List, [], ◌∷◌, ◌++◌, map,
  length, arith, ltb, true, false, ◌⊎◌, inl, inr,
}
use ukgoll_github_io.WriteRace.System.{
  Which, thread1, thread2, Thread, ready, writing, finished, turns,
}

abbrev pub other : Which → Which
other thread1 = thread2
other thread2 = thread1

-- How often a thread has called `write`.
abbrev pub count : Thread → ℕ
count ready = 0
count (writing i) = i
count finished = turns

-- The thread that holds the lock, of `f` and the other.
abbrev pub holder : Which → Thread → Thread → Option Which
holder f (writing i) t = some f
holder f _ (writing i) = some (other f)
holder f _ _ = none

abbrev pub by : Which → List (Option ℕ) → List (Which × Option ℕ)
by w answers = map (λ a. (w, a)) answers

-- The thread `f` takes the lock first, and stands at `a`, the other at `b`: all calls of `write` by `f`
-- come before those of the other.
pub record Blocks (f : Which) (writes : List (Which × Option ℕ)) (lock : Option Which)
    (a b : Thread) : Type 0 where
  pub firsts : List (Option ℕ)
  pub seconds : List (Option ℕ)
  pub order : writes ≡ by (other f) seconds ++ by f firsts
  pub first_count : length firsts ≡ count a
  pub second_count : length seconds ≡ count b
  pub bounds : (count a ≤ turns) × (count b ≤ turns)
  pub locked : lock ≡ holder f a b
  pub waits : b ≢ ready → a ≡ finished

module _ (f : Which) (ws : List (Which × Option ℕ)) where
  pub first_takes : (b : Thread) → Blocks f ws none ready b → Blocks f ws (some f) (writing 0) b
  first_takes b v = record {
    firsts = v.firsts;
    seconds = v.seconds;
    order = v.order;
    first_count = v.first_count;
    second_count = v.second_count;
    bounds = (omega arith, v.bounds.1);
    locked = refl;
    waits = λ h. absurd (cc (v.waits h));
  }

  pub second_takes :
      (a : Thread)
      → Blocks f ws none a ready
      → Blocks f ws (some (other f)) a (writing 0)
        ⊎ Blocks (other f) ws (some (other f)) (writing 0) a
  second_takes ready v =
      let none_first = length-zero v.firsts v.first_count in
      let none_second = length-zero v.seconds v.second_count in
      inr (record {
        firsts = [];
        seconds = [];
        order = v.order ∙ rw (none_first, none_second) refl;
        first_count = refl;
        second_count = refl;
        bounds = (omega arith, omega arith);
        locked = refl;
        waits = λ h. absurd (h refl);
      })
  second_takes (writing i) v = absurd (cc (v.locked))
  second_takes finished v = inl (record {
    firsts = v.firsts;
    seconds = v.seconds;
    order = v.order;
    first_count = v.first_count;
    second_count = v.second_count;
    bounds = (omega arith, omega arith);
    locked = refl;
    waits = λ h. refl;
  })

  pub first_writes :
      (i : ℕ) (x : Option ℕ) (l : Option Which) (b : Thread)
      → ltb i turns ≡ true
      → Blocks f ws l (writing i) b
      → Blocks f ((f, x) ∷ ws) l (writing (suc i)) b
  first_writes i x l ready h v =
      let none_second = length-zero v.seconds v.second_count in
      record {
        firsts = x ∷ v.firsts;
        seconds = [];
        order = ap (λ q. (f, x) ∷ q) (v.order ∙ rw none_second refl);
        first_count = ap suc v.first_count;
        second_count = refl;
        bounds = (ground (arith, h), omega arith);
        locked = v.locked;
        waits = λ e. absurd (e refl);
      }
  first_writes i x l (writing j) h v = absurd (cc (v.waits (λ e. cc e)))
  first_writes i x l finished h v = absurd (cc (v.waits (λ e. cc e)))

  pub second_writes :
      (i : ℕ) (x : Option ℕ) (l : Option Which) (a : Thread)
      → ltb i turns ≡ true
      → Blocks f ws l a (writing i)
      → Blocks f ((other f, x) ∷ ws) l a (writing (suc i))
  second_writes i x l finished h v = record {
    firsts = v.firsts;
    seconds = x ∷ v.seconds;
    order = ap (λ q. (other f, x) ∷ q) v.order;
    first_count = v.first_count;
    second_count = ap suc v.second_count;
    bounds = (omega arith, ground (arith, h));
    locked = v.locked;
    waits = λ _. refl;
  }
  second_writes i x l ready h v = absurd (cc (v.waits (λ e. cc e)))
  second_writes i x l (writing j) h v = absurd (cc (v.waits (λ e. cc e)))

  pub first_releases :
      (i : ℕ) (l : Option Which) (b : Thread)
      → ltb i turns ≡ false
      → Blocks f ws l (writing i) b
      → Blocks f ws none finished b
  first_releases i l ready h v = record {
    firsts = v.firsts;
    seconds = v.seconds;
    order = v.order;
    first_count = ground (arith, h, v.first_count, v.bounds);
    second_count = v.second_count;
    bounds = (omega arith, omega arith);
    locked = refl;
    waits = λ _. refl;
  }
  first_releases i l (writing j) h v = absurd (cc (v.waits (λ e. cc e)))
  first_releases i l finished h v = absurd (cc (v.waits (λ e. cc e)))

  pub second_releases :
      (i : ℕ) (l : Option Which) (a : Thread)
      → ltb i turns ≡ false
      → Blocks f ws l a (writing i)
      → Blocks f ws none a finished
  second_releases i l finished h v = record {
    firsts = v.firsts;
    seconds = v.seconds;
    order = v.order;
    first_count = v.first_count;
    second_count = ground (arith, h, v.second_count, v.bounds);
    bounds = (omega arith, omega arith);
    locked = refl;
    waits = λ _. refl;
  }
  second_releases i l ready h v = absurd (cc (v.waits (λ e. cc e)))
  second_releases i l (writing j) h v = absurd (cc (v.waits (λ e. cc e)))
