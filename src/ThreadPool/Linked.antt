-- ===== src/ThreadPool/Linked.antt =====
-- The list of tasks as a doubly linked list, seen from its tail.
use ukgoll_github_io.Prelude.{
  ℕ, ◌≡◌, ◌≢◌, refl, Bool, true, false, ◌||◌, Option, none, some, List, [], ◌∷◌, ◌==◌, arith,
}
use ukgoll_github_io.ThreadPool.Store.{Ptr, null, Task, task, Store, write}

-- An address with the function and the argument of its task.
pub record Cell : Type 0 where
  pub addr : Ptr
  pub func : ℕ
  pub args : ℕ

abbrev pub has : Ptr → List Cell → Bool
has a [] = false
has a (c ∷ cs) = (a == c.addr) || has a cs

-- The address at the tail's end, where the list is read from the tail to the head.
abbrev pub tail_of : List Cell → Ptr
tail_of [] = null
tail_of (c ∷ cs) = c.addr

-- The address at the head's end; `after` if the list is empty.
abbrev pub head_of : Ptr → List Cell → Ptr
head_of after [] = after
head_of after (c ∷ cs) = head_of c.addr cs

-- The cells stand at distinct addresses, linked both ways; `after` follows the first of them.
abbrev pub Linked : (Ptr → Option Task) → Ptr → List Cell → Type 0
Linked h after [] = Unit
Linked h after (c ∷ cs) =
    (c.addr ≢ null)
    × (has c.addr cs ≡ false)
    × (h c.addr ≡ some (task c.func c.args (tail_of cs) after))
    × Linked h c.addr cs

-- The pool's list holds the cells, the newest first.
pub record IsQueue (s : Store) (cs : List Cell) : Type 0 where
  pub tail : s.pool.queue_tail ≡ tail_of cs
  pub head : s.pool.queue ≡ head_of null cs
  pub linked : Linked s.node null cs

-- A list survives what spares its own addresses.
pub frame :
    {h g : Ptr → Option Task} (after : Ptr) (cs : List Cell)
    → Linked h after cs
    → ((a : Ptr) → has a cs ≡ true → g a ≡ h a)
    → Linked g after cs
frame after [] l same = tt
frame after (c ∷ cs) (ne, out, e, l) same =
    (ne, out, ground (arith, same c.addr), frame c.addr cs l (λ a i. ground (arith, same a)))

pub frame-write :
    (h : Ptr → Option Task) (a after : Ptr) (t : Task) (cs : List Cell)
    → Linked h after cs
    → has a cs ≡ false
    → Linked (write h a t) after cs
unfolding write
frame-write h a after t cs l out = frame after cs l (λ b i. ground arith)

-- An address that holds nothing is not in the list.
pub has_of_none :
    (h : Ptr → Option Task) (a after : Ptr) (cs : List Cell)
    → Linked h after cs
    → h a ≡ none
    → has a cs ≡ false
has_of_none h a after [] l e = refl
has_of_none h a after (c ∷ cs) (ne, out, q, l) e = ground (arith, has_of_none h a c.addr cs l)

-- The first cell may be given another successor.
pub relink :
    (h : Ptr → Option Task) (after after' : Ptr) (c : Cell) (cs : List Cell)
    → Linked h after (c ∷ cs)
    → Linked (write h c.addr (task c.func c.args (tail_of cs) after')) after' (c ∷ cs)
unfolding write
relink h after after' c cs (ne, out, e, l) =
    (ne, out, ground arith, frame-write h c.addr c.addr _ cs l out)

pub head_of-ne-null :
    (h : Ptr → Option Task) (p : Ptr) (cs : List Cell)
    → Linked h p cs
    → p ≢ null
    → head_of p cs ≢ null
head_of-ne-null h p [] l ne = ne
head_of-ne-null h p (c ∷ cs) (ne', out, e, l) ne = head_of-ne-null h c.addr cs l ne'
