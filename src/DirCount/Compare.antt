-- ===== src/DirCount/Compare.antt =====
-- duc.c counts one directory as ducfd.c does, `.` and `..` aside, and enters none without a fault.
use ukgoll_github_io.Prelude.{
  ℕ, zero, suc, ◌+◌, ◌*◌, ◌≡◌, ◌≤◌, refl, ◌⊎◌, inl, inr, arith, Bool, Bool-cases, true, false, List,
  [], ◌∷◌, none, some,
}
use ukgoll_github_io.DirCount.Tree.{
  FileType, directory, opens, open_fails, opendir_fails, leaf, dir, Entries, nil, cons, is_dot,
  Access, Counts, bump, count_of, count_of-bump, same_type,
}
use ukgoll_github_io.DirCount.Programs.{Walk, ducfd}
use ukgoll_github_io.DirCount.Paths.{
  Buffer, copy_of, strdup, strcat, is_short, Frame, fault, stays, grow, join, copy_path, prepare,
  unless_fault, call_with, duc_entries, duc_entry, duc,
}
use ukgoll_github_io.DirCount.Spec.{times, times_entry, dots, subs, DotsAreDirs}
use ukgoll_github_io.DirCount.Depth.{ducfd_lem}

-- The block of `strdup` has no byte for the `/`.
strcat-copy_of : (xs : List ℕ) (y : ℕ) → strcat (copy_of xs) (y ∷ []) ≡ none
unfolding strcat
strcat-copy_of xs y = ground arith

strdup_lem : (b : Buffer) → (strdup b ≡ none) ⊎ (strdup b ≡ some (copy_of b.string))
unfolding strdup
strdup_lem b = ground arith

distrib : (k n : ℕ) → k * (1 + n) ≡ k + k * n
distrib zero n = omega arith
distrib (suc k) n = omega (arith, distrib k n)

times-dot :
    (t : FileType) (name : List ℕ) (a : Access) (es : Entries)
    → is_dot name ≡ true
    → times_entry t (dir name a es) ≡ 0
times-dot t name opens es d = rw d refl
times-dot t name open_fails es d = rw d refl
times-dot t name opendir_fails es d = rw d refl

module _ (alloc_ok : ℕ → Bool) (ok : (n : ℕ) → alloc_ok n ≡ true) where
  join_lem : (b : Buffer) (name : List ℕ) (f : Frame) → join alloc_ok b name f ≡ none
  unfolding join
  join_lem b name f = elim (strdup_lem b) [
    | inl e ↦ rw (e, join) refl
    | inr e ↦ rw (e, join, ok f.asked, strcat-copy_of b.string b'/') refl
  ]

  copy_path_lem :
      (name : List ℕ) (b : Buffer) (c : Counts) (n : ℕ)
      → copy_path alloc_ok name (record { file_path = some b; counts = c; asked = n }) ≡ fault
  unfolding copy_path
  copy_path_lem name b c n =
      rw (join_lem b name (record { file_path = some b; counts = c; asked = n }), copy_path) refl

  prepare-dot :
      (name : List ℕ) (f : Frame)
      → is_dot name ≡ true
      → prepare alloc_ok name f ≡ stays (record f { counts = bump directory f.counts })
  unfolding prepare
  prepare-dot name f d = rw d refl

  prepare-sub :
      (name : List ℕ) (b : Buffer) (c : Counts) (n : ℕ)
      → is_dot name ≡ false
      → prepare alloc_ok name (record { file_path = some b; counts = c; asked = n }) ≡ fault
  unfolding prepare grow
  prepare-sub name b c n d = elim (Bool-cases (is_short b.string name)) [
    | inl e ↦ rw (d, e, ok n) (copy_path_lem name _ _ _)
    | inr e ↦ rw (d, e) (copy_path_lem name _ _ _)
  ]

  entry-dot :
      (name : List ℕ) (a : Access) (es : Entries) (f : Frame)
      → is_dot name ≡ true
      → duc_entry alloc_ok (dir name a es) f ≡ some (record f { counts = bump directory f.counts })
  unfolding duc_entries unless_fault call_with
  entry-dot name opens es f d = rw (prepare-dot name f d) refl
  entry-dot name open_fails es f d = rw (prepare-dot name f d) refl
  entry-dot name opendir_fails es f d = rw (prepare-dot name f d) refl

  entry-sub :
      (name : List ℕ) (a : Access) (es : Entries) (b : Buffer) (c : Counts) (n : ℕ)
      → is_dot name ≡ false
      → duc_entry alloc_ok (dir name a es) (record { file_path = some b; counts = c; asked = n })
        ≡ none
  unfolding duc_entries unless_fault call_with
  entry-sub name opens es b c n d = rw (prepare-sub name b c n d) refl
  entry-sub name open_fails es b c n d = rw (prepare-sub name b c n d) refl
  entry-sub name opendir_fails es b c n d = rw (prepare-sub name b c n d) refl

  -- What comes of the entries of one directory.
  abbrev Result : Entries → Buffer → Counts → ℕ → Type 0
  Result es b c n =
      ((1 ≤ subs es)
        × (duc_entries alloc_ok es (record { file_path = some b; counts = c; asked = n }) ≡ none))
      ⊎ ((subs es ≡ 0)
          × (c' : Counts) × (duc_entries alloc_ok es
                (record { file_path = some b; counts = c; asked = n })
              ≡ some (record { file_path = some b; counts = c'; asked = n }))
          × ((t : FileType)
              → count_of t c' ≡ count_of t c + times t es + same_type t directory * dots es))

  entries_lem : (es : Entries) (b : Buffer) (c : Counts) (n : ℕ) → DotsAreDirs es → Result es b c n
  unfolding duc_entries unless_fault call_with
  entries_lem nil b c n h = inr (refl, c, refl, λ t. ground arith)
  entries_lem (cons (leaf name u) es) b c n h = elim (entries_lem es b (bump u c) n h.1) [
    | inl (k, e) ↦ inl (k, e)
    | inr (z, c', e, sum) ↦
        inr (z, c', e, λ t. rw (h.0) (omega (arith, sum t, count_of-bump t u c)))
  ]
  entries_lem (cons (dir name a ds) es) b c n h = elim (Bool-cases (is_dot name)) [
    | inl d ↦ elim (entries_lem es b (bump directory c) n h) [
      | inl (k, e) ↦ inl (rw d (omega arith), rw (entry-dot name a ds _ d) e)
      | inr (z, c', e, sum) ↦ inr (
        rw d (omega arith),
        c',
        rw (entry-dot name a ds _ d) e,
        λ t.
            rw (d, times-dot t name a ds d)
              (omega (
                arith,
                sum t,
                count_of-bump t directory c,
                distrib (same_type t directory) (dots es),
              )),
      )
    ]
    | inr d ↦ inl (rw d (omega arith), rw (entry-sub name a ds b c n d) refl)
  ]

  -- On a directory that can be opened and in which only directories are called `.` or `..`, where
  -- no allocation fails: if a directory but these two is listed, duc.c faults, since it reads or
  -- writes beyond a block when it makes the path of that directory; if none is, it ends without a
  -- fault, and its counters, started from the same, are those of ducfd.c, but that it has counted
  -- `.` and `..` as directories.
  pub duc-ducfd :
      (path : List ℕ) (es : Entries) (w : Walk)
      → DotsAreDirs es
      → ((1 ≤ subs es) × (duc alloc_ok path opens es w.counts ≡ none))
        ⊎ ((subs es ≡ 0)
            × (c : Counts) × (duc alloc_ok path opens es w.counts ≡ some c)
            × ((t : FileType)
                → count_of t c
                  ≡ count_of t (ducfd opens es w).counts + same_type t directory * dots es))
  unfolding duc
  duc-ducfd path es w h = elim (entries_lem es (copy_of path) w.counts 1 h) [
    | inl (k, e) ↦ inl (k, rw (e, duc) refl)
    | inr (z, c, e, sum) ↦ inr (z, c, rw (e, duc) refl, λ t. omega (arith, sum t, ducfd_lem t es w))
  ]
