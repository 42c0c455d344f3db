-- ===== src/ThreadPool/Refine.antt =====
-- The operations on the linked list, as operations on the list of tasks: `add_task` puts a task in
-- front, and a worker takes the task in front.
use ukgoll_github_io.Prelude.{
  ℕ, ◌≡◌, ◌≢◌, refl, ap, ◌∙◌, Bool-cases, inl, inr, true, false, Option, none, some, List, [], ◌∷◌,
  ◌==◌, if◌then◌else◌, arith,
}
use ukgoll_github_io.ThreadPool.Store.{
  Ptr, null, Task, task, Store, write, init_task, load, set_next, set_prev,
}
use ukgoll_github_io.ThreadPool.Queue.{
  link_behind, add_task, must_wait, must_exit, took, cut_behind, unlink_tail, take_task, start_task,
}
use ukgoll_github_io.ThreadPool.Linked.{
  Cell, has, tail_of, IsQueue, frame-write, has_of_none, relink, head_of-ne-null,
}

abbrev pub cell : Ptr → ℕ → ℕ → Cell
cell t f x = record { addr = t; func = f; args = x }

-- The nodes outside the list are as they were.
abbrev pub SameOutside : List Cell → Store → Store → Type 0
SameOutside cs s s' = (a : Ptr) → has a cs ≡ false → s'.node a ≡ s.node a

-- The fields of the pool beside the list are as they were.
abbrev pub SamePool : Store → Store → Type 0
SamePool s s' =
    (s'.pool.stop ≡ s.pool.stop)
    × (s'.pool.max_worker ≡ s.pool.max_worker)
    × (s'.pool.noact_workder ≡ s.pool.noact_workder)

-- The operation has left the list `cs`, and nodes and fields beside it as they were.
pub record Changed (cs : List Cell) (s s' : Store) : Type 0 where
  pub queue : IsQueue s' cs
  pub same_pool : SamePool s s'
  pub outside : SameOutside cs s s'

pub not_null : (p : Ptr) → p ≢ null → (p == null) ≡ false
not_null p ne = ground arith

pub write_self : (h : Ptr → Option Task) (p : Ptr) (t : Task) → write h p t p ≡ some t
unfolding write
write_self h p t = ground arith

pub load-some :
    (p : Ptr) (t : Task) (s : Store) → p ≢ null → s.node p ≡ some t → load p s ≡ some (t, s)
unfolding load
load-some p t s ne e = rw (not_null p ne, e)

pub set_next-some :
    (p q : Ptr) (t : Task) (s : Store)
    → p ≢ null
    → s.node p ≡ some t
    → set_next p q s ≡ some (tt, record s { node = write s.node p (record t { next = q }) })
unfolding set_next
set_next-some p q t s ne e = rw (load-some p t s ne e)

pub set_prev-some :
    (p q : Ptr) (t : Task) (s : Store)
    → p ≢ null
    → s.node p ≡ some t
    → set_prev p q s ≡ some (tt, record s { node = write s.node p (record t { prev = q }) })
unfolding set_prev
set_prev-some p q t s ne e = rw (load-some p t s ne e)

module _ (t f x : ℕ) (s : Store) (ne : t ≢ null) (fresh : s.node t ≡ none) where
  -- the state after `add_task`, where the list was empty, and where its tail was `c`
  first_added : Store
  first_added = record {
    pool = record (s.pool) { queue = t; queue_tail = t };
    node = write s.node t (task f x null null);
  }

  added_behind : Cell → List Cell → Store
  added_behind c cs = record {
    pool = record (s.pool) { queue_tail = t };
    node =
        write (write (write s.node t (task f x null null)) t (task f x s.pool.queue_tail null))
          s.pool.queue_tail (task c.func c.args (tail_of cs) t);
  }

  add_first : IsQueue s [] → add_task t f x s ≡ some (tt, first_added)
  unfolding add_task init_task first_added
  add_first q =
      let empty : (s.pool.queue_tail == null) ≡ true = ground (arith, q.tail) in
      rw (not_null t ne, empty)

  behind :
      (c : Cell) (cs : List Cell)
      → IsQueue s (c ∷ cs)
      → write
          (write s.node t (task f x null null))
          t
          (task f x s.pool.queue_tail null)
          s.pool.queue_tail
        ≡ some (task c.func c.args (tail_of cs) null)
  unfolding write
  behind c cs q = ground (arith, q.tail, q.linked)

  add_behind :
      (c : Cell) (cs : List Cell)
      → IsQueue s (c ∷ cs)
      → add_task t f x s ≡ some (tt, added_behind c cs)
  unfolding add_task init_task link_behind added_behind
  add_behind c cs q =
      let full : (s.pool.queue_tail == null) ≡ false = ground (arith, q.tail, q.linked) in
      let s1 : Store = record s { node = write s.node t (task f x null null) } in
      let s2 : Store = record s1 { node = write s1.node t (task f x s.pool.queue_tail null) } in
      rw (
        not_null t ne,
        full,
        set_prev-some t s.pool.queue_tail (task f x null null) s1 ne (write_self s.node t _),
        set_next-some s.pool.queue_tail t (task c.func c.args (tail_of cs) null) s2
            (ground (arith, q.tail, q.linked)) (behind c cs q),
      )

  added-IsQueue :
      (c : Cell) (cs : List Cell)
      → IsQueue s (c ∷ cs)
      → IsQueue (added_behind c cs) (cell t f x ∷ c ∷ cs)
  unfolding added_behind
  added-IsQueue c cs q = record {
    tail = refl;
    head = q.head;
    linked =
        let (ne', out, e, l) = q.linked in
        let apart : has t cs ≡ false = has_of_none s.node t c.addr cs l fresh in
        let l1 = frame-write s.node t c.addr (task f x null null) cs l apart in
        let l2 = frame-write _ t c.addr (task f x s.pool.queue_tail null) cs l1 apart in
        (
          ne,
          ground (arith, apart),
          unfold write in ground (arith, q.tail),
          (
            ne',
            out,
            unfold write in ground (arith, q.tail),
            frame-write _ s.pool.queue_tail c.addr _ cs l2 (ground (arith, q.tail)),
          ),
        );
  }

  -- Where the list is well linked and the new node is not NULL and not in use: `add_task` succeeds, the
  -- list is then the old one with the new task in front, the rest of the pool is as it was, and so is
  -- every node that is neither new nor in the list.
  pub add_task_lem :
      (cs : List Cell)
      → IsQueue s cs
      → (s' : Store) × (add_task t f x s ≡ some (tt, s')) × Changed (cell t f x ∷ cs) s s'
  add_task_lem [] q = (
    first_added,
    add_first q,
    unfold first_added write in
        record {
          queue = record { tail = refl; head = refl; linked = (ne, refl, ground arith, tt) };
          same_pool = (refl, refl, refl);
          outside = λ a o. ground arith;
        },
  )
  add_task_lem (c ∷ cs) q = (
    added_behind c cs,
    add_behind c cs q,
    record {
      queue = added-IsQueue c cs q;
      same_pool = unfold added_behind in (refl, refl, refl);
      outside = λ a o. unfold added_behind write in ground (arith, q.tail);
    },
  )

module _ (s : Store) where
  -- On an empty list a worker leaves if the pool stops, and waits otherwise.
  pub take_empty :
      IsQueue s [] → take_task s ≡ some (if s.pool.stop then must_exit else must_wait, s)
  unfolding take_task
  take_empty q =
      let none_left : (s.pool.queue == null) ≡ true = ground (arith, q.head) in
      elim (Bool-cases s.pool.stop) [ inl e ↦ rw (none_left, e) | inr e ↦ rw (none_left, e) ]

  unlinked_last : Store
  unlinked_last = record s { pool = record (s.pool) { queue_tail = null; queue = null } }

  unlinked : Cell → List Cell → Store
  unlinked d ds = record {
    pool = record (s.pool) { queue_tail = d.addr };
    node = write s.node d.addr (task d.func d.args (tail_of ds) null);
  }

  unlink_last :
      (c : Cell) → IsQueue s (c ∷ []) → unlink_tail s ≡ some (took s.pool.queue_tail, unlinked_last)
  unfolding unlink_tail cut_behind unlinked_last
  unlink_last c q =
      let (ne, out, e, l) = q.linked in
      rw (
        load-some s.pool.queue_tail (task c.func c.args null null) s (ground (arith, q.tail))
          (ground (arith, q.tail)))

  unlink_front :
      (c d : Cell) (ds : List Cell)
      → IsQueue s (c ∷ d ∷ ds)
      → unlink_tail s ≡ some (took s.pool.queue_tail, unlinked d ds)
  unfolding unlink_tail cut_behind unlinked
  unlink_front c d ds q =
      let (ne, out, e, (ne', out', e', l)) = q.linked in
      let s1 : Store = record s { pool = record (s.pool) { queue_tail = d.addr } } in
      rw (
        load-some s.pool.queue_tail (task c.func c.args d.addr null) s (ground (arith, q.tail))
            (ground (arith, q.tail)),
        not_null d.addr ne',
        set_next-some d.addr null (task d.func d.args (tail_of ds) c.addr) s1 ne' e',
      )

  take_full : (c : Cell) (cs : List Cell) → IsQueue s (c ∷ cs) → take_task s ≡ unlink_tail s
  unfolding take_task
  take_full c cs q =
      let (ne, out, e, l) = q.linked in
      let some_left : (s.pool.queue == null) ≡ false =
        ground (arith, q.head, head_of-ne-null s.node c.addr cs l ne) in
      let full : (s.pool.queue_tail == null) ≡ false = ground (arith, q.tail) in
      elim (Bool-cases s.pool.stop) [
        | inl b ↦ rw (some_left, b, full)
        | inr b ↦ rw (some_left, b, full)
      ]

  -- Otherwise it takes the task in front.
  pub take_front :
      (c : Cell) (cs : List Cell)
      → IsQueue s (c ∷ cs)
      → (s' : Store) × (take_task s ≡ some (took c.addr, s')) × Changed cs s s'
  take_front c [] q = (
    unlinked_last,
    take_full c [] q ∙ unlink_last c q ∙ ap (λ a. some (took a, unlinked_last)) q.tail,
    unfold unlinked_last in
        record {
          queue = record { tail = refl; head = refl; linked = tt };
          same_pool = (refl, refl, refl);
          outside = λ a o. refl;
        },
  )
  take_front c (d ∷ ds) q = (
    unlinked d ds,
    take_full c (d ∷ ds) q ∙ unlink_front c d ds q ∙ ap (λ a. some (took a, unlinked d ds)) q.tail,
    unfold unlinked in
        record {
          queue = record {
            tail = refl;
            head = q.head;
            linked = relink s.node c.addr null d ds q.linked.3;
          };
          same_pool = (refl, refl, refl);
          outside = λ a o. unfold write in ground arith;
        },
  )

-- The state after a worker has cut its task off.
pub detached : Ptr → Task → Store → Store
detached p d s = record s { node = write s.node p (record d { prev = null }) }

pub start_task_lem :
    (p : Ptr) (d : Task) (s : Store)
    → p ≢ null
    → s.node p ≡ some d
    → start_task p s ≡ some ((d.func, d.args), detached p d s)
unfolding start_task detached
start_task_lem p d s ne e =
    let s1 : Store = record s { node = write s.node p (record d { prev = null }) } in
    rw (
      set_prev-some p null d s ne e,
      load-some p (record d { prev = null }) s1 ne (write_self s.node p _),
    )

module _ (p : Ptr) (d : Task) (s : Store) where
  pub detached-IsQueue :
      (cs : List Cell) → has p cs ≡ false → IsQueue s cs → IsQueue (detached p d s) cs
  unfolding detached
  detached-IsQueue cs out q = record {
    tail = q.tail;
    head = q.head;
    linked = frame-write s.node p null (record d { prev = null }) cs q.linked out;
  }

  pub node-detached :
      (a : Ptr)
      → (detached p d s).node a ≡ (if a == p then some (record d { prev = null }) else s.node a)
  unfolding detached write
  node-detached a = refl

  pub pool-detached : (detached p d s).pool ≡ s.pool
  unfolding detached
  pool-detached = refl
