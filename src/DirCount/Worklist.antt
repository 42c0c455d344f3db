-- ===== src/DirCount/Worklist.antt =====
-- duclinkfd.c, which reads directory after directory from a list, counts the same.
use ukgoll_github_io.Prelude.{
  ℕ, zero, suc, ◌+◌, ◌<◌, ◌≡◌, refl, Bool, true, List, [], ◌∷◌, ◌++◌, some, arith, Bool-cases, inl,
  inr, length, ◌≤◌,
}
use ukgoll_github_io.Prelude.Tally.{tally, tally-append}
use ukgoll_github_io.DirCount.Tree.{
  FileType, directory, opens, open_fails, opendir_fails, Entry, leaf, dir, Entries, nil, cons,
  is_dot, Counts, count_of, count_of-bump, same_type,
}
use ukgoll_github_io.DirCount.Programs.{
  Walk, ducfd, Pending, LinkState, count_link, append_node, scan_entry, scan, link_loop, duclinkfd,
}
use ukgoll_github_io.DirCount.Spec.{times, times_entry, dirs, dirs_entry, IsReadable, ReadableEntry}
use ukgoll_github_io.DirCount.Depth.{ducfd_lem}

-- What a directory that waits will add to the counter of a type, and its directories and itself.
abbrev load_of : FileType → Pending → ℕ
load_of t (a, es) = times t es

abbrev size_of : Pending → ℕ
size_of (a, es) = 1 + dirs es

-- Each directory of the list can be read.
abbrev AllReadable : List Pending → Type 0
AllReadable [] = Unit
AllReadable ((a, es) ∷ q) = (a ≡ opens) × IsReadable es × AllReadable q

AllReadable-append :
    (q : List Pending) (es : Entries)
    → AllReadable q
    → IsReadable es
    → AllReadable (q ++ ((opens, es) ∷ []))
AllReadable-append [] es h r = (refl, r, tt)
AllReadable-append ((a, ds) ∷ q) es h r = (h.0, h.1, AllReadable-append q es h.2 r)

length-size_of : (q : List Pending) → length q ≤ tally size_of q
length-size_of [] = omega arith
length-size_of (p ∷ q) = omega (arith, length-size_of q)

-- `malloc` never fails, and `openat` does not for want of descriptors while at most `limit` are held.
module _ (malloc_ok openat_ok : ℕ → Bool) (ok : (n : ℕ) → malloc_ok n ≡ true) (limit : ℕ)
    (enough : (n : ℕ) → n ≤ limit → openat_ok n ≡ true) where
  -- One entry moves its load to the counters and the list.
  record Scanned (s s' : LinkState) (k : ℕ) (load : FileType → ℕ) : Type 0 where
    counted :
        (t : FileType)
        → count_of t s'.counts + tally (load_of t) s'.list
          ≡ count_of t s.counts + tally (load_of t) s.list + load t
    grown : tally size_of s'.list ≡ tally size_of s.list + k
    readable : AllReadable s.list → AllReadable s'.list

  unchanged : (s : LinkState) → Scanned s s 0 (λ _. 0)
  unchanged s = record { counted = λ t. omega arith; grown = omega arith; readable = λ h. h }

  counted_one : (s : LinkState) (u : FileType) → Scanned s (count_link u s) 0 (λ t. same_type t u)
  counted_one s u = record {
    counted = λ t. omega (arith, count_of-bump t u s.counts);
    grown = omega arith;
    readable = λ h. h;
  }

  appended :
      (s : LinkState) (es : Entries)
      → IsReadable es
      → Scanned s
          (append_node malloc_ok (opens, es) (count_link directory s))
          (1 + dirs es)
          (λ t. same_type t directory + times t es)
  unfolding append_node
  appended s es r = rw (ok s.asked) (record {
    counted = λ t. omega (
      arith,
      count_of-bump t directory s.counts,
      tally-append (load_of t) s.list ((opens, es) ∷ []),
    );
    grown = omega (arith, tally-append size_of s.list ((opens, es) ∷ []));
    readable = λ h. AllReadable-append s.list es h r;
  })

  entry-Scanned :
      (e : Entry) (s : LinkState)
      → ReadableEntry e
      → tally size_of s.list + dirs_entry e ≤ limit
      → Scanned s (scan_entry malloc_ok openat_ok e s) (dirs_entry e) (λ t. times_entry t e)
  unfolding scan_entry
  entry-Scanned (leaf name u) s r l = elim (Bool-cases (is_dot name)) [
    | inl d ↦ rw d (unchanged s)
    | inr d ↦ rw d (counted_one s u)
  ]
  entry-Scanned (dir name opens es) s r l = elim (Bool-cases (is_dot name)) [
    | inl d ↦ rw d (unchanged s)
    | inr d ↦
        let room : tally size_of s.list + (1 + dirs es) ≤ limit = rw d at l in
        let held = enough (length s.list + 1) (omega (arith, length-size_of s.list)) in
        rw (d, held) (appended s es r)
  ]
  entry-Scanned (dir name open_fails es) s r l = elim (Bool-cases (is_dot name)) [
    | inl d ↦ rw d (unchanged s)
    | inr d ↦ rw d (counted_one s directory)
  ]
  entry-Scanned (dir name opendir_fails es) s r l = rw r (unchanged s)

  scan-Scanned :
      (es : Entries) (s : LinkState)
      → IsReadable es
      → tally size_of s.list + dirs es ≤ limit
      → Scanned s (scan malloc_ok openat_ok es s) (dirs es) (λ t. times t es)
  unfolding scan
  scan-Scanned nil s r l = unchanged s
  scan-Scanned (cons e es) s r l =
      let first = entry-Scanned e s r.0 (omega arith) in
      let rest =
        scan-Scanned es (scan_entry malloc_ok openat_ok e s) r.1 (omega (arith, first.grown)) in
      record {
        counted = λ t. omega (arith, first.counted t, rest.counted t);
        grown = omega (arith, first.grown, rest.grown);
        readable = λ h. rest.readable (first.readable h);
      }

  -- With fuel for each directory of the list and each below it, the loop ends with all counted.
  link_loop_lem :
      (fuel : ℕ) (c : Counts) (q : List Pending) (n : ℕ)
      → AllReadable q
      → tally size_of q < fuel
      → tally size_of q ≤ limit + 1
      → (c' : Counts) × (link_loop malloc_ok openat_ok fuel
            (record { counts = c; list = q; asked = n })
          ≡ some c')
        × ((t : FileType) → count_of t c' ≡ count_of t c + tally (load_of t) q)
  unfolding link_loop
  link_loop_lem zero c q n h f l = absurd (omega arith)
  link_loop_lem (suc fuel) c [] n h f l = (c, refl, λ t. omega arith)
  link_loop_lem (suc fuel) c ((a, es) ∷ q) n h f l =
      let s : LinkState = record { counts = c; list = q; asked = n } in
      let done = scan-Scanned es s h.1 (omega arith) in
      let s' : LinkState = scan malloc_ok openat_ok es s in
      let (c', e, sum) =
        link_loop_lem fuel s'.counts s'.list s'.asked (done.readable h.2)
          (omega (arith, done.grown)) (omega (arith, done.grown)) in
      (c', rw (h.0) e, λ t. omega (arith, sum t, done.counted t))

  -- Where `malloc` always succeeds, `fdopendir` never fails, and `openat` does not fail for want of
  -- descriptors while at most as many are held as there are directories that can be opened below
  -- the given one (the list may hold them all at once): with more fuel than these directories and
  -- the given one, duclinkfd.c ends, and its counter of each type is that of ducfd.c, started from
  -- the same counters.
  pub duclinkfd-ducfd :
      (fuel : ℕ) (es : Entries) (w : Walk)
      → IsReadable es
      → dirs es + 1 < fuel
      → dirs es ≤ limit
      → (c : Counts) × (duclinkfd malloc_ok openat_ok fuel opens es w.counts ≡ some c)
        × ((t : FileType) → count_of t c ≡ count_of t (ducfd opens es w).counts)
  unfolding duclinkfd
  duclinkfd-ducfd fuel es w r f l =
      let (c, e, sum) =
        link_loop_lem fuel w.counts ((opens, es) ∷ []) 0 (refl, r, tt) (omega arith)
          (omega arith) in
      (c, e, λ t. omega (arith, sum t, ducfd_lem t es w))
