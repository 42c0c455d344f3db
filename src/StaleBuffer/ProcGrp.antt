-- ===== src/StaleBuffer/ProcGrp.antt =====
-- codes/apue/process/proc_grp.c: three processes, two of which print what they read.
use ukgoll_github_io.Prelude.{
  ℕ, Bool, not, ◌&&◌, Option, none, some, List, [], ◌∷◌, ◌++◌, ◌==◌, if◌then◌else◌, take, replicate,
  overwrite,
}
use ukgoll_github_io.Prelude.CString.{until_zero}

-- What the first five characters of `argv[1]` are.
pub data Argument : Type 0 where
  proc1 : Argument
  proc2 : Argument
  proc3 : Argument
  invalid : Argument

pub data ProcessEnum : Type 0 where
  p1 : ProcessEnum
  p2 : ProcessEnum
  p3 : ProcessEnum

unfoldable pub process_of : Argument → ProcessEnum
process_of proc1 = p1
process_of proc2 = p2
process_of proc3 = p3
process_of invalid = p1

-- `overrun` is a string function that runs past the end of its array.
pub data Call : Type 0 where
  to_stdout : List ℕ → Call
  to_fifo : List ℕ → Call
  slept : Call
  overrun : Call

-- A loop that has used up its answers waits; `usage` is `return -1`.
pub data Outcome : Type 0 where
  usage : Outcome
  exit_failure : Outcome
  waiting : List Call → Outcome
  returned : List Call → Outcome

-- The texts: what `snprintf` makes of the ids of the process, what P3's `printf` makes of them, and
-- those written as they are.
pub record Texts : Type 0 where
  pub ids : List ℕ
  pub ids_and_rule : List ℕ
  pub proc2_error : List ℕ
  pub start : List ℕ
  pub continue_text : List ℕ

-- `read_buf`
abbrev pub buf_size : ℕ
buf_size = 256

abbrev pub empty_buf : List ℕ
empty_buf = replicate buf_size 0

-- The string in `read_buf`, put out.
abbrev pub print_string : Option (List ℕ) → Call
print_string none = overrun
print_string (some s) = to_stdout s

module _ (texts : Texts) where
  -- The answers of `read`, `[]` for 0 and -1.
  unfoldable pub loop1 : List (List ℕ) → List Call → Outcome
  loop1 [] log = waiting log
  loop1 ([] ∷ rs) log = returned log
  loop1 ((b ∷ bs) ∷ rs) log = loop1 rs (log ++ (to_stdout texts.ids ∷ slept ∷ []))

  -- The answers of `read`, each with whether `writev` succeeds.
  unfoldable pub loop2 : List (List ℕ × Bool) → List ℕ → List Call → Outcome
  unfolding until_zero
  loop2 [] buf log = waiting log
  loop2 (([], ok) ∷ rs) buf log = returned log
  loop2 ((b ∷ bs, ok) ∷ rs) buf log =
      let buf' = overwrite buf 0 (b ∷ bs) in
      loop2 rs buf' (
        log
        ++ (if ok
            then print_string (until_zero buf') ∷ to_stdout texts.ids ∷ []
            else to_stdout (take 10 texts.proc2_error) ∷ []))

  unfoldable pub loop3 : List (List ℕ) → List ℕ → List Call → Outcome
  unfolding until_zero
  loop3 [] buf log = waiting log
  loop3 ([] ∷ rs) buf log = returned log
  loop3 ((b ∷ bs) ∷ rs) buf log =
      let buf' = overwrite buf 0 (b ∷ bs) in
      loop3 rs buf' (
        log
        ++ (print_string (until_zero buf')
            ∷ to_stdout texts.ids_and_rule
            ∷ to_fifo (take 8 texts.continue_text)
            ∷ []))

  -- Behind the opening of the fifo. The program's `start` is written with its 0.
  unfoldable pub work : ProcessEnum → List (List ℕ × Bool) → List (List ℕ) → Outcome
  unfolding loop1 loop2 loop3
  work p1 writes reads = loop1 reads []
  work p2 writes reads = loop2 writes empty_buf []
  work p3 writes reads = loop3 reads empty_buf (to_fifo (take 6 texts.start) ∷ [])

  unfoldable pub main :
      ℕ → Argument → Bool → Bool → Bool → List (List ℕ × Bool) → List (List ℕ) → Outcome
  unfolding process_of work
  main argc argument fifo_exists mkfifo_ok open_ok writes reads =
      if not (argc == 2)
      then usage
      else if not fifo_exists && not mkfifo_ok
      then exit_failure
      else if not open_ok
      then exit_failure
      else work (process_of argument) writes reads
