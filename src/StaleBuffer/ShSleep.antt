-- ===== src/StaleBuffer/ShSleep.antt =====
-- codes/apue/signal/sh_sleep.c: what is typed is printed, three bytes at a time.
use ukgoll_github_io.Prelude.{
  ℕ, Bool, if◌then◌else◌, Option, none, some, List, [], ◌∷◌, ◌++◌, length, replicate, overwrite,
}
use ukgoll_github_io.Prelude.CString.{until_zero}

-- What `read` answers: the bytes, 0, -1 with EINTR, another -1.
pub data ReadResult : Type 0 where
  got : List ℕ → ReadResult
  end_of_file : ReadResult
  interrupted : ReadResult
  read_error : ReadResult

-- `overrun` is a `printf` that runs past the end of the array.
pub data Line : Type 0 where
  register_error : Line
  read_eof : Line
  data_is : ℕ → List ℕ → Line
  overrun : ℕ → Line

pub data Outcome : Type 0 where
  waiting : List Line → Outcome
  returned : List Line → Outcome

abbrev pub empty_buf : List ℕ
empty_buf = replicate 4 0

abbrev pub print_data : ℕ → Option (List ℕ) → Line
print_data n none = overrun n
print_data n (some s) = data_is n s

-- `while (1)`
unfoldable pub loop : List ReadResult → List ℕ → List Line → Outcome
unfolding until_zero
loop [] buf out = waiting out
loop (got bytes ∷ rs) buf out =
    let buf' = overwrite buf 0 bytes in
    loop rs buf' (out ++ (print_data (length bytes) (until_zero buf') ∷ []))
loop (end_of_file ∷ rs) buf out = returned (out ++ (read_eof ∷ []))
loop (interrupted ∷ rs) buf out = loop rs buf out
loop (read_error ∷ rs) buf out = returned out

-- The answer of `sigaction`, and those of `read`.
unfoldable pub main : Bool → List ReadResult → Outcome
unfolding loop
main register_ok rs = loop rs empty_buf (if register_ok then [] else register_error ∷ [])
