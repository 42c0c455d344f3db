-- ===== src/DirCount/Paths.antt =====
-- duc.c: `caculate_dir` on paths, with the buffers the paths stand in. A read or a write beyond a
-- buffer, or through NULL, is a fault.
use ukgoll_github_io.Prelude.{
  ℕ, ◌+◌, ◌-◌, ◌%◌, Bool, List, [], ◌∷◌, ◌++◌, length, Option, none, some, if◌then◌else◌, leb, ltb,
}
use ukgoll_github_io.DirCount.Tree.{
  directory, Access, opens, Entry, leaf, dir, Entries, nil, cons, is_dot, Counts, bump,
}

-- A block of `room` bytes with a string in it; the 0 behind the string needs a byte of its own.
pub record Buffer : Type 0 where
  pub string : List ℕ
  pub room : ℕ

-- The block that `strdup` returns.
abbrev pub copy_of : List ℕ → Buffer
copy_of xs = record { string = xs; room = length xs + 1 }

-- `strdup`, which reads up to the 0 of its argument.
unfoldable pub strdup : Buffer → Option Buffer
strdup b = if ltb (length b.string) b.room then some (copy_of b.string) else none

unfoldable pub strcat : Buffer → List ℕ → Option Buffer
strcat b xs =
    if leb (length b.string + length xs + 1) b.room
    then some (record b { string = b.string ++ xs })
    else none

-- `sizeof(file_path) - strlen(file_path) < strlen(dt->d_name)` on `size_t`, with pointers of 8 bytes.
unfoldable pub is_short : List ℕ → List ℕ → Bool
is_short path name = ltb ((18446744073709551624 - length path) % 18446744073709551616) (length name)

-- A call of `caculate_dir` in its loop: its `file_path`, `none` for NULL, the counters, and how many
-- blocks have been asked for.
pub record Frame : Type 0 where
  pub file_path : Option Buffer
  pub counts : Counts
  pub asked : ℕ

-- What has come of an entry when `caculate_dir(newp)` would be called.
pub data Prepared : Type 0 where
  fault : Prepared
  stays : Frame → Prepared
  enters : Buffer → Frame → Prepared

unfoldable pub unless_fault : Option Frame → (Frame → Option Frame) → Option Frame
unless_fault none go = none
unless_fault (some f) go = go f

-- The call of `caculate_dir` where it is reached.
unfoldable pub call_with : Prepared → (Buffer → Frame → Option Frame) → Option Frame
call_with fault call = none
call_with (stays f) call = some f
call_with (enters newp f) call = call newp f

-- The allocator answers by the number of the request.
module _ (alloc_ok : ℕ → Bool) where
  -- `realloc` to the size of a pointer, where the test asks for it.
  unfoldable pub grow : Buffer → List ℕ → Frame → Frame
  grow b name f =
      let resized = if alloc_ok f.asked then some (record b { room = 8 }) else none in
      if is_short b.string name then record f { file_path = resized; asked = f.asked + 1 } else f

  -- `strdup(file_path)` and the two `strcat`; on the NULL of a failed `strdup` they fault.
  unfoldable pub join : Buffer → List ℕ → Frame → Option Buffer
  join b name f = elim (strdup b) [
    | none ↦ none
    | some newp ↦ elim (if alloc_ok f.asked then strcat newp (b'/' ∷ []) else none) [
      | none ↦ none
      | some longer ↦ strcat longer name
    ]
  ]

  unfoldable pub copy_path : List ℕ → Frame → Prepared
  copy_path name f = elim (f.file_path) [
    | none ↦ stays f
    | some b ↦ elim (join b name f) [
      | none ↦ fault
      | some newp ↦ enters newp (record f { asked = f.asked + 1 })
    ]
  ]

  -- The case of a directory up to the call of `caculate_dir`. `strlen` faults on NULL; a `realloc`
  -- that fails leaves the case.
  unfoldable pub prepare : List ℕ → Frame → Prepared
  prepare name f =
      let g : Frame = record f { counts = bump directory f.counts } in
      let entered : Prepared = elim (g.file_path) [
        | none ↦ fault
        | some b ↦ copy_path name (grow b name g)
      ] in
      if is_dot name then stays g else entered

  -- The `while` over `readdir`; `none` is a fault. A directory below that cannot be opened is left.
  unfoldable mutual
    pub duc_entries : Entries → Frame → Option Frame
    duc_entries nil f = some f
    duc_entries (cons e es) f = unless_fault (duc_entry e f) (λ g. duc_entries es g)

    pub duc_entry : Entry → Frame → Option Frame
    duc_entry (leaf name t) f = some (record f { counts = bump t f.counts })
    duc_entry (dir name opens es) f = call_with (prepare name f) (λ newp g.
        unless_fault (duc_entries es (record g { file_path = some newp }))
          (λ h. some (record h { file_path = g.file_path })))
    duc_entry (dir name _ es) f = call_with (prepare name f) (λ newp g. some g)

  -- `caculate_dir` of duc.c on the path that `main` has copied from its argument.
  unfoldable pub duc : List ℕ → Access → Entries → Counts → Option Counts
  duc path opens es c =
      elim (duc_entries es (record { file_path = some (copy_of path); counts = c; asked = 1 })) [
        | none ↦ none
        | some f ↦ some f.counts
      ]
  duc path _ es c = some c
