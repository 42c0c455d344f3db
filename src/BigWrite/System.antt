-- ===== src/BigWrite/System.antt =====
-- The three processes of the program, interleaved.
use ukgoll_github_io.Prelude.{if◌then◌else◌, suc, leb, Option, none, some}
use ukgoll_github_io.Prelude.{
  ℕ, ◌+◌, ◌≤◌, ◌≡◌, Bool, true, false, List, [], ◌∷◌, ◌++◌, length, take, drop, replicate,
}

abbrev pub write_size : ℕ
write_size = 8192

abbrev pub read_size : ℕ
read_size = 1024

pub data Which : Type 0 where
  child1 : Which
  child2 : Which

-- `'A'` and `'B'`
abbrev pub letter : Which → ℕ
letter child1 = 65
letter child2 = 66

-- Where a child stands: not forked, in `write_pattern` with so many bytes left to write, behind its
-- `exit`, waited for.
pub data Child : Type 0 where
  unborn : Child
  writing : ℕ → Child
  exited : Child
  reaped : Child

-- The next call of the parent, or its end.
pub data Parent : Type 0 where
  forking1 : Parent
  forking2 : Parent
  closing : Parent
  reading : Parent
  waiting1 : Parent
  waiting2 : Parent
  returned : Parent

-- `out` is what stdout has taken of the parent's writes; `failed` tells that a read of the parent has
-- failed or a write took less than it was given.
pub record System : Type 0 where
  pub parent : Parent
  pub a : Child
  pub b : Child
  pub pipe : List ℕ
  pub out : List ℕ
  pub failed : Bool

abbrev pub pick : Which → Child → Child → Child
pick child1 x y = x
pick child2 x y = y

abbrev pub child : Which → System → Child
child w s = pick w s.a s.b

abbrev pub put : Which → Child → System → System
put child1 c s = record s { a = c }
put child2 c s = record s { b = c }

-- The child has not closed its write end.
abbrev pub holds : Child → Bool
holds unborn = false
holds (writing n) = true
holds exited = false
holds reaped = false

-- The child can not be waited for: there is none, or it has been.
abbrev pub gone : Child → Bool
gone unborn = true
gone (writing n) = false
gone exited = false
gone reaped = true

-- The parent has not closed its read end.
abbrev pub reads : Parent → Bool
reads waiting1 = false
reads waiting2 = false
reads returned = false
reads _ = true

-- What `write` takes of the bytes it is given, and whether that is all; `none` is -1.
abbrev pub taken : Option ℕ → List ℕ → List ℕ
taken none bytes = []
taken (some k) bytes = take k bytes

abbrev pub is_whole : Option ℕ → List ℕ → Bool
is_whole none bytes = false
is_whole (some k) bytes = leb (length bytes) k

-- `write(STDOUT_FILENO, buf, n)`, whose answer is not looked at.
unfoldable pub write_out : Option ℕ → List ℕ → System → System
write_out answer bytes s = record s {
  out = s.out ++ taken answer bytes;
  failed = if is_whole answer bytes then s.failed else true;
}

-- `if (pid == 0)` is not taken by the parent, neither with a child nor where `fork` fails.
pub data ParentStep (s : System) : System → Type 0 where
  fork1 :
      s.parent ≡ forking1
      → ParentStep s (put child1 (writing write_size) (record s { parent = forking2 }))
  fork1_fails : s.parent ≡ forking1 → ParentStep s (record s { parent = forking2 })
  fork2 :
      s.parent ≡ forking2
      → ParentStep s (put child2 (writing write_size) (record s { parent = closing }))
  fork2_fails : s.parent ≡ forking2 → ParentStep s (record s { parent = closing })
  close_write_end : s.parent ≡ closing → ParentStep s (record s { parent = reading })
  read_some :
      (x : ℕ) (xs : List ℕ) (answer : Option ℕ)
      → s.parent ≡ reading
      → s.pipe ≡ x ∷ xs
      → ParentStep s
          (write_out answer (take read_size (x ∷ xs)) (record s { pipe = drop read_size (x ∷ xs) }))
  read_fails : s.parent ≡ reading → ParentStep s (record s { parent = waiting1; failed = true })
  read_eof :
      s.parent ≡ reading
      → s.pipe ≡ []
      → holds s.a ≡ false
      → holds s.b ≡ false
      → ParentStep s (record s { parent = waiting1 })
  wait1 :
      (w : Which)
      → s.parent ≡ waiting1
      → child w s ≡ exited
      → ParentStep s (put w reaped (record s { parent = waiting2 }))
  wait1_fails :
      s.parent ≡ waiting1
      → gone s.a ≡ true
      → gone s.b ≡ true
      → ParentStep s (record s { parent = waiting2 })
  wait2 :
      (w : Which)
      → s.parent ≡ waiting2
      → child w s ≡ exited
      → ParentStep s (put w reaped (record s { parent = returned }))
  wait2_fails :
      s.parent ≡ waiting2
      → gone s.a ≡ true
      → gone s.b ≡ true
      → ParentStep s (record s { parent = returned })

-- The write of a child puts its bytes into the pipe part by part, where there is room for them; once
-- the read end is closed SIGPIPE ends the child.
pub data ChildStep (capacity : ℕ) (w : Which) (s : System) : System → Type 0 where
  write_part :
      (k rest : ℕ)
      → child w s ≡ writing (k + rest)
      → 1 ≤ k
      → reads s.parent ≡ true
      → length s.pipe + k ≤ capacity
      → ChildStep capacity w s
          (put w (writing rest) (record s { pipe = s.pipe ++ replicate k (letter w) }))
  killed :
      (n : ℕ)
      → child w s ≡ writing (suc n)
      → reads s.parent ≡ false
      → ChildStep capacity w s (put w exited s)
  leave : child w s ≡ writing 0 → ChildStep capacity w s (put w exited s)

pub data Step (capacity : ℕ) (s s' : System) : Type 0 where
  by_parent : ParentStep s s' → Step capacity s s'
  by_child : (w : Which) → ChildStep capacity w s s' → Step capacity s s'

abbrev pub initial : System
initial = record { parent = forking1; a = unborn; b = unborn; pipe = []; out = []; failed = false }

-- The states that the program gets into.
pub data Reachable (capacity : ℕ) : System → Type 0 where
  start : Reachable capacity initial
  next : {s s' : System} → Reachable capacity s → Step capacity s s' → Reachable capacity s'
