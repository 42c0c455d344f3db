-- ===== src/DirCount/Depth.antt =====
-- ducfd.c counts what it should, and closes each descriptor three times.
use ukgoll_github_io.Prelude.{◌+◌, ◌*◌, ◌≡◌, arith}
use ukgoll_github_io.DirCount.Tree.{
  FileType, directory, opens, open_fails, opendir_fails, Entry, leaf, dir, Entries, nil, cons,
  count_of, count_of-bump,
}
use ukgoll_github_io.DirCount.Programs.{Walk, count, ducfd_entries, ducfd_entry, ducfd}
use ukgoll_github_io.DirCount.Spec.{times, times_entry, dirs, dirs_entry, IsReadable, ReadableEntry}

mutual
  unfolding ducfd_entries

  ducfd_times :
      (t : FileType) (es : Entries) (w : Walk)
      → count_of t (ducfd_entries es w).counts ≡ count_of t w.counts + times t es
  ducfd_times t nil w = omega arith
  ducfd_times t (cons e es) w =
      omega (arith, ducfd_times t es (ducfd_entry e w), ducfd_times_entry t e w)

  ducfd_times_entry :
      (t : FileType) (e : Entry) (w : Walk)
      → count_of t (ducfd_entry e w).counts ≡ count_of t w.counts + times_entry t e
  ducfd_times_entry t (leaf name u) w = ground (arith, count_of-bump t u w.counts)
  ducfd_times_entry t (dir name opens es) w =
      let w' = count directory w in
      ground (
        arith,
        count_of-bump t directory w.counts,
        ducfd_times t es (record w' { opened = w'.opened + 1 }),
      )
  ducfd_times_entry t (dir name open_fails es) w =
      ground (arith, count_of-bump t directory w.counts)
  ducfd_times_entry t (dir name opendir_fails es) w =
      ground (arith, count_of-bump t directory w.counts)

mutual
  unfolding ducfd_entries

  ducfd_closes :
      (es : Entries) (w : Walk)
      → IsReadable es
      → ((ducfd_entries es w).opened ≡ w.opened + dirs es)
        × ((ducfd_entries es w).closed ≡ w.closed + 3 * dirs es)
  ducfd_closes nil w r = omega arith
  ducfd_closes (cons e es) w r =
      omega (arith, ducfd_closes es (ducfd_entry e w) r.1, ducfd_closes_entry e w r.0)

  ducfd_closes_entry :
      (e : Entry) (w : Walk)
      → ReadableEntry e
      → ((ducfd_entry e w).opened ≡ w.opened + dirs_entry e)
        × ((ducfd_entry e w).closed ≡ w.closed + 3 * dirs_entry e)
  ducfd_closes_entry (leaf name u) w r = ground arith
  ducfd_closes_entry (dir name opens es) w r =
      let w' = count directory w in
      ground (arith, ducfd_closes es (record w' { opened = w'.opened + 1 }) r)
  ducfd_closes_entry (dir name open_fails es) w r = ground arith
  ducfd_closes_entry (dir name opendir_fails es) w r = ground arith

-- On a directory that can be opened, ducfd.c adds to the counter of each type the number of entries
-- of that type in the directory and below it, `.` and `..` aside.
pub ducfd_lem :
    (t : FileType) (es : Entries) (w : Walk)
    → count_of t (ducfd opens es w).counts ≡ count_of t w.counts + times t es
unfolding ducfd
ducfd_lem t es w = ducfd_times t es w
