-- ===== src/DirCount/Tree.antt =====
-- What the three counting programs see of the file system, and their counters.
use ukgoll_github_io.Prelude.{ℕ, ◌+◌, ◌≡◌, Bool, false, List, [], ◌∷◌, ◌==◌, if◌then◌else◌, arith}

-- `d_type`; `unknown` stands for any value that no case of the switch names.
pub data FileType : Type 0 where
  fifo directory regular block socket character link unknown : FileType

-- Whether a directory can be opened: `openat` or `opendir` fails, or `fdopendir` on the descriptor.
pub data Access : Type 0 where
  opens : Access
  open_fails : Access
  opendir_fails : Access

-- What `readdir` returns in order. The entries below `.` and `..` are never looked at.
mutual
  pub data Entry : Type 0 where
    leaf : List ℕ → FileType → Entry
    dir : List ℕ → Access → Entries → Entry

  pub data Entries : Type 0 where
    nil : Entries
    cons : Entry → Entries → Entries

-- `strcmp(d_name, ".") == 0 || strcmp(d_name, "..") == 0`
abbrev pub is_dot : List ℕ → Bool
is_dot (a ∷ []) = a == b'.'
is_dot (a ∷ b ∷ []) = if a == b'.' then b == b'.' else false
is_dot _ = false

-- The seven global counters.
pub record Counts : Type 0 where
  pub dir_count : ℕ
  pub regular_count : ℕ
  pub socket_count : ℕ
  pub block_count : ℕ
  pub character_count : ℕ
  pub link_count : ℕ
  pub fifo_count : ℕ

abbrev pub zero_counts : Counts
zero_counts = record {
  dir_count = 0;
  regular_count = 0;
  socket_count = 0;
  block_count = 0;
  character_count = 0;
  link_count = 0;
  fifo_count = 0;
}

-- The `++` of each case of the switch.
unfoldable pub bump : FileType → Counts → Counts
bump fifo c = record c { fifo_count = c.fifo_count + 1 }
bump directory c = record c { dir_count = c.dir_count + 1 }
bump regular c = record c { regular_count = c.regular_count + 1 }
bump block c = record c { block_count = c.block_count + 1 }
bump socket c = record c { socket_count = c.socket_count + 1 }
bump character c = record c { character_count = c.character_count + 1 }
bump link c = record c { link_count = c.link_count + 1 }
bump unknown c = c

-- The counter of a type.
unfoldable pub count_of : FileType → Counts → ℕ
count_of fifo c = c.fifo_count
count_of directory c = c.dir_count
count_of regular c = c.regular_count
count_of block c = c.block_count
count_of socket c = c.socket_count
count_of character c = c.character_count
count_of link c = c.link_count
count_of unknown c = 0

-- 1 where the types are the same and are counted.
unfoldable pub same_type : FileType → FileType → ℕ
same_type fifo fifo = 1
same_type directory directory = 1
same_type regular regular = 1
same_type block block = 1
same_type socket socket = 1
same_type character character = 1
same_type link link = 1
same_type _ _ = 0

pub count_of-bump :
    (t u : FileType) (c : Counts) → count_of t (bump u c) ≡ count_of t c + same_type t u
unfolding count_of bump same_type
count_of-bump t u c = ground arith
