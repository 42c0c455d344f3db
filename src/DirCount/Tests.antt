-- ===== src/DirCount/Tests.antt =====
-- A small tree, the three programs on it, and the theorems at it.
use ukgoll_github_io.Prelude.{
  ℕ, ◌+◌, ◌*◌, ◌≡◌, ◌≤◌, ◌⊎◌, refl, Bool, true, false, ltb, ◌==◌, List, Option, none, some, [], ◌∷◌,
  arith,
}
use ukgoll_github_io.DirCount.Tree.{
  FileType, directory, regular, link, opens, open_fails, leaf, dir, Entries, nil, cons, Counts,
  zero_counts, bump, count_of, same_type,
}
use ukgoll_github_io.DirCount.Programs.{Walk, ducfd, duclinkfd}
use ukgoll_github_io.DirCount.Paths.{
  duc, duc_entries, unless_fault, call_with, prepare, copy_path, grow, is_short, join, strdup,
  strcat,
}
use ukgoll_github_io.DirCount.Spec.{times, dots, subs}
use ukgoll_github_io.DirCount.Depth.{ducfd_lem}
use ukgoll_github_io.DirCount.Compare.{duc-ducfd}
use ukgoll_github_io.DirCount.Worklist.{duclinkfd-ducfd}

abbrev with_dots : Entries → Entries
with_dots es = cons (dir (b'.' ∷ []) opens nil) (cons (dir (b'.' ∷ b'.' ∷ []) opens nil) es)

-- Two files, a directory with a link in it, and a directory that cannot be opened.
abbrev home : Entries
home = with_dots (
    cons (leaf (b'a' ∷ []) regular) (
      cons (dir (b'd' ∷ []) opens (with_dots (cons (leaf (b'l' ∷ []) link) nil)))
        (cons (leaf (b'b' ∷ []) regular) (cons (dir (b'x' ∷ []) open_fails nil) nil))))

abbrev fresh : Walk
fresh = record { counts = zero_counts; opened = 0; closed = 0 }

-- Two directories with a file each.
abbrev two_below : Entries
two_below =
    let below = with_dots (cons (leaf (b'f' ∷ []) regular) nil) in
    with_dots (cons (dir (b'd' ∷ []) opens below) (cons (dir (b'e' ∷ []) opens below) nil))

abbrev long : List ℕ
long = b'a' ∷ b'b' ∷ b'c' ∷ b'd' ∷ b'e' ∷ []

-- The directory in `home`.
abbrev flat : Entries
flat = with_dots (cons (leaf (b'l' ∷ []) link) nil)

abbrev always : ℕ → Bool
always _ = true

abbrev never : ℕ → Bool
never _ = false

abbrev counter : (Counts → ℕ) → Option Counts → Option ℕ
counter field none = none
counter field (some c) = some (field c)

-- duc.c counts two directories where there is none, and faults where there is one to enter.
counts :
    ((ducfd opens home fresh).counts.dir_count ≡ 2)
    × (counter (λ c. c.dir_count) (duc always (b'd' ∷ []) opens flat zero_counts) ≡ some 2)
    × (duc always (b'h' ∷ []) opens home zero_counts ≡ none)
unfolding ducfd duc bump duc_entries unless_fault call_with prepare copy_path grow is_short join
    strdup strcat
counts = (refl, refl, refl)

-- `realloc` fails on the path: the directory is counted and left, and the next one faults.
failing_realloc :
    (counter (λ c. c.dir_count) (duc never long opens (cons (dir long opens nil) nil) zero_counts)
      ≡ some 1)
    × (duc never long opens (cons (dir long opens nil) (cons (dir long opens nil) nil)) zero_counts
        ≡ none)
unfolding duc bump duc_entries unless_fault call_with prepare copy_path grow is_short
failing_realloc = (refl, refl)

-- One descriptor beside that of the directory that is read: ducfd.c, which holds no more at once,
-- counts both files, and duclinkfd.c one.
too_few_descriptors :
    ((ducfd opens two_below fresh).counts.regular_count ≡ 2)
    × (counter (λ c. c.regular_count) (duclinkfd always (λ n. n == 1) 9 opens two_below zero_counts)
        ≡ some 1)
unfolding ducfd duclinkfd bump
too_few_descriptors = (refl, refl)

ducfd_lem_example :
    count_of regular (ducfd opens home fresh).counts
    ≡ count_of regular zero_counts + times regular home
ducfd_lem_example = ducfd_lem regular home fresh

duc-ducfd_example :
    ((1 ≤ subs flat) × (duc always (b'd' ∷ []) opens flat zero_counts ≡ none))
    ⊎ ((subs flat ≡ 0)
        × (c : Counts) × (duc always (b'd' ∷ []) opens flat zero_counts ≡ some c)
        × ((t : FileType)
            → count_of t c
              ≡ count_of t (ducfd opens flat fresh).counts + same_type t directory * dots flat))
duc-ducfd_example = duc-ducfd always (λ _. refl) (b'd' ∷ []) flat fresh (refl, tt)

duclinkfd-ducfd_example :
    (c : Counts) × (duclinkfd always (λ n. ltb n 2) 3 opens home zero_counts ≡ some c)
    × ((t : FileType) → count_of t c ≡ count_of t (ducfd opens home fresh).counts)
duclinkfd-ducfd_example =
    duclinkfd-ducfd always (λ n. ltb n 2) (λ _. refl) 1 (λ n l. ground arith) 3 home fresh
      (omega arith) (omega arith) (omega arith)
