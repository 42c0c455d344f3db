-- ===== src/DirCount/Spec.antt =====
-- What the counting programs are to compute, independently of the order in which they walk.
use ukgoll_github_io.Prelude.{ℕ, ◌+◌, ◌≡◌, true, false, if◌then◌else◌}
use ukgoll_github_io.DirCount.Tree.{
  FileType, directory, opens, open_fails, opendir_fails, Entry, leaf, dir, Entries, nil, cons,
  is_dot, same_type,
}

-- How many entries of type `t` there are in a directory and below it, `.` and `..` aside; only
-- directories that can be opened are entered.
abbrev mutual
  pub times : FileType → Entries → ℕ
  times t nil = 0
  times t (cons e es) = times_entry t e + times t es

  pub times_entry : FileType → Entry → ℕ
  times_entry t (leaf name u) = if is_dot name then 0 else same_type t u
  times_entry t (dir name opens es) = if is_dot name then 0 else same_type t directory + times t es
  times_entry t (dir name _ es) = if is_dot name then 0 else same_type t directory

-- How many directories below can be opened.
abbrev mutual
  pub dirs : Entries → ℕ
  dirs nil = 0
  dirs (cons e es) = dirs_entry e + dirs es

  pub dirs_entry : Entry → ℕ
  dirs_entry (leaf name u) = 0
  dirs_entry (dir name opens es) = if is_dot name then 0 else 1 + dirs es
  dirs_entry (dir name _ es) = 0

-- `fdopendir` fails nowhere in the tree.
abbrev mutual
  pub IsReadable : Entries → Type 0
  IsReadable nil = Unit
  IsReadable (cons e es) = ReadableEntry e × IsReadable es

  pub ReadableEntry : Entry → Type 0
  ReadableEntry (leaf name u) = Unit
  ReadableEntry (dir name opens es) = IsReadable es
  ReadableEntry (dir name open_fails es) = Unit
  ReadableEntry (dir name opendir_fails es) = is_dot name ≡ true

-- The entries `.` and `..` of one directory.
abbrev pub dots : Entries → ℕ
dots nil = 0
dots (cons (leaf name u) es) = dots es
dots (cons (dir name a ds) es) = (if is_dot name then 1 else 0) + dots es

-- The directories of one directory but these two.
abbrev pub subs : Entries → ℕ
subs nil = 0
subs (cons (leaf name u) es) = subs es
subs (cons (dir name a ds) es) = (if is_dot name then 0 else 1) + subs es

-- Only directories are called `.` or `..`.
abbrev pub DotsAreDirs : Entries → Type 0
DotsAreDirs nil = Unit
DotsAreDirs (cons (leaf name u) es) = (is_dot name ≡ false) × DotsAreDirs es
DotsAreDirs (cons (dir name a ds) es) = DotsAreDirs es
