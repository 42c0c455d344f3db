-- ===== src/DirCount/Programs.antt =====
-- `caculate_dir` of ducfd.c and of duclinkfd.c. The counters are passed along; the descriptors that
-- ducfd.c closes are logged.
use ukgoll_github_io.Prelude.{
  ℕ, zero, suc, ◌+◌, Bool, List, [], ◌∷◌, ◌++◌, Option, none, some, if◌then◌else◌, length,
}
use ukgoll_github_io.DirCount.Tree.{
  FileType, directory, Access, opens, open_fails, opendir_fails, Entry, leaf, dir, Entries, nil,
  cons, is_dot, Counts, bump,
}

-- The counters of ducfd.c, and how many descriptors it has opened and how often it has called
-- `close` or `closedir` on one.
pub record Walk : Type 0 where
  pub counts : Counts
  pub opened : ℕ
  pub closed : ℕ

abbrev pub count : FileType → Walk → Walk
count t w = record w { counts = bump t w.counts }

-- ducfd.c: `.` and `..` are skipped; `caculate_dir` closes its descriptor by `closedir` and by
-- `close`, and its caller closes it again.
unfoldable mutual
  pub ducfd_entries : Entries → Walk → Walk
  ducfd_entries nil w = w
  ducfd_entries (cons e es) w = ducfd_entries es (ducfd_entry e w)

  pub ducfd_entry : Entry → Walk → Walk
  ducfd_entry (leaf name t) w = if is_dot name then w else count t w
  ducfd_entry (dir name opens es) w =
      let w' = count directory w in
      let w'' = ducfd_entries es (record w' { opened = w'.opened + 1 }) in
      if is_dot name then w else record w'' { closed = w''.closed + 3 }
  ducfd_entry (dir name open_fails es) w = if is_dot name then w else count directory w
  ducfd_entry (dir name opendir_fails es) w =
      let w' = count directory w in
      if is_dot name then w else record w' { opened = w'.opened + 1; closed = w'.closed + 2 }

-- `caculate_dir` of ducfd.c on the directory that `main` has opened.
unfoldable pub ducfd : Access → Entries → Walk → Walk
unfolding ducfd_entries
ducfd opens es w = let w' = ducfd_entries es w in record w' { closed = w'.closed + 2 }
ducfd _ es w = record w { closed = w.closed + 1 }

-- A directory in the list of duclinkfd.c that waits to be read.
abbrev pub Pending : Type 0
Pending = Access × Entries

-- The counters of duclinkfd.c, its list less the node that is read, and how many nodes it has asked
-- `malloc` for.
pub record LinkState : Type 0 where
  pub counts : Counts
  pub list : List Pending
  pub asked : ℕ

abbrev pub count_link : FileType → LinkState → LinkState
count_link t s = record s { counts = bump t s.counts }

-- `malloc` answers by the number of the request.
module _ (malloc_ok : ℕ → Bool) where
  -- `malloc`, and the new node at the end of the list; without a node the descriptor is closed.
  unfoldable pub append_node : Pending → LinkState → LinkState
  append_node p s = record s {
    list = if malloc_ok s.asked then s.list ++ (p ∷ []) else s.list;
    asked = s.asked + 1;
  }

-- `openat` answers by the tree and by how many descriptors the program holds: one for each
-- directory of its list, and one for the directory that is read.
module _ (malloc_ok openat_ok : ℕ → Bool) where
  -- One entry of a directory.
  unfoldable pub scan_entry : Entry → LinkState → LinkState
  unfolding append_node
  scan_entry (leaf name t) s = if is_dot name then s else count_link t s
  scan_entry (dir name open_fails es) s = if is_dot name then s else count_link directory s
  scan_entry (dir name access es) s =
      let counted = count_link directory s in
      let kept = append_node malloc_ok (access, es) counted in
      if is_dot name then s else (if openat_ok (length s.list + 1) then kept else counted)

  -- The `while` over `readdir`.
  unfoldable pub scan : Entries → LinkState → LinkState
  unfolding scan_entry
  scan nil s = s
  scan (cons e es) s = scan es (scan_entry e s)

  -- The `do … while` over the list, on fuel. It returns at once where `fdopendir` fails.
  unfoldable pub link_loop : ℕ → LinkState → Option Counts
  unfolding scan
  link_loop zero s = none
  link_loop (suc fuel) s = elim (s.list) [
    | [] ↦ some s.counts
    | (access, es) ∷ q ↦ elim access [
      | opens ↦ link_loop fuel (scan es (record s { list = q }))
      | _ ↦ some s.counts
    ]
  ]

  -- `caculate_dir` of duclinkfd.c on the directory that `main` has opened.
  unfoldable pub duclinkfd : ℕ → Access → Entries → Counts → Option Counts
  unfolding link_loop
  duclinkfd fuel access es c =
      link_loop fuel (record { counts = c; list = (access, es) ∷ []; asked = 0 })
