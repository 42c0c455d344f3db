-- ===== src/CopyFile/Tests.antt =====
-- Runs of splice_copy_file.c, and the theorems at them.
use ukgoll_github_io.Prelude.{ℕ, ◌≡◌, refl, true, none, some, List, [], ◌∷◌, arith}
use ukgoll_github_io.CopyFile.Program.{
  Copy, returned, Turn, Opens, copy_file_read_write, copy_file_splice, initial, main, sp_mode,
}
use ukgoll_github_io.CopyFile.Copying.{Full, state_of, Copied, copies_whole}

abbrev all_open : Opens
all_open = record { fd1_ok = true; fd2_ok = true; pipe_ok = true }

abbrev file : List ℕ
file = 104 ∷ 105 ∷ 10 ∷ []

-- At most two bytes are read at a time.
abbrev two_read : Turn
two_read = record { moved_in = some 2; moved_out = some 256 }

abbrev four_turns : List Turn
four_turns = two_read ∷ two_read ∷ two_read ∷ two_read ∷ []

copies_whole_example :
    ((c : Copy) × (copy_file_read_write all_open four_turns (initial file) ≡ returned c)
      × Copied file c)
    × ((c : Copy) × (copy_file_splice all_open four_turns (initial file) ≡ returned c)
        × Copied file c)
copies_whole_example =
    let full : Full two_read = (2, 256, refl, refl, omega arith, omega arith) in
    copies_whole all_open four_turns file refl refl refl (full, (full, (full, (full, tt))))
      (omega arith)

-- The second `splice` moves one byte of the first two; then the first fails.
abbrev one_short : List Turn
one_short =
    record { moved_in = some 2; moved_out = some 1 }
    ∷ record { moved_in = none; moved_out = none }
    ∷ []

byte_left_in_pipe : (state_of (main 4 sp_mode all_open one_short (initial file))).target ≡ 104 ∷ []
unfolding main initial
byte_left_in_pipe = refl
