-- ===== src/Stdio/Redirect.antt =====
-- codes/apue/chapter3/dup_usage.c: the three descriptors are redirected, and what is printed goes
-- through the buffer of stdout.
use ukgoll_github_io.Prelude.{
  ℕ, ◌+◌, ◌≤◌, ◌≡◌, refl, ◌∙◌, ap, Bool, true, not, Option, none, some, List, [], ◌∷◌, ◌++◌, length,
  if◌then◌else◌, arith,
}
use ukgoll_github_io.Stdio.Buffer.{Stdout, print-kept}

-- The open files; `inherited` is what a descriptor had when the program was started.
pub data File : Type 0 where
  err_txt : File
  output_txt : File
  input_fake_txt : File
  inherited : File

-- The files that the descriptors 1 and 2 stand for, and what was written, in its order.
pub record Process (B : Type 0) : Type 0 where
  pub stdout : File
  pub stderr : File
  pub buffer : B
  pub written : List (File × List ℕ)

-- The answers of the calls: whether they succeed, and what `read` gives, `none` for 0 and -1.
pub record Answers : Type 0 where
  pub err_ok : Bool
  pub out_ok : Bool
  pub in_ok : Bool
  pub dup_err_ok : Bool
  pub dup_out_ok : Bool
  pub dup_in_ok : Bool
  pub read : Option (List ℕ)
  pub dup_again_ok : Bool

-- The call that fails.
pub data Failure : Type 0 where
  open_err : Failure
  open_out : Failure
  open_in : Failure
  dup_err : Failure
  dup_out : Failure
  dup_in : Failure
  dup_again : Failure

-- The texts of the program: of its errors, of what was read, and the two at its end.
pub record Texts : Type 0 where
  pub call_error : Failure → List ℕ
  pub read_from_stdin : List ℕ → List ℕ
  pub test_error : List ℕ
  pub test_output : List ℕ

module _ {B : Type 0} (stdio : Stdout B) (texts : Texts) where
  -- Nothing is written where there is nothing to write.
  abbrev pub write_to : File → List ℕ → List (File × List ℕ) → List (File × List ℕ)
  write_to f [] log = log
  write_to f (c ∷ cs) log = log ++ ((f, c ∷ cs) ∷ [])

  unfoldable pub printf : List ℕ → Process B → Process B
  printf text p =
      let (now, buffer) = stdio.print text p.buffer in
      record p { buffer = buffer; written = write_to p.stdout now p.written }

  unfoldable pub dprintf : File → List ℕ → Process B → Process B
  dprintf f text p = record p { written = write_to f text p.written }

  -- The end of the process.
  unfoldable pub leave : Process B → List (File × List ℕ)
  leave p = write_to p.stdout (stdio.pending p.buffer) p.written

  -- `return -1`
  unfoldable pub fail : Failure → Process B → List (File × List ℕ)
  unfolding printf leave
  fail f p = leave (printf (texts.call_error f) p)

  -- From the second `dup2` to stdout on.
  unfoldable pub print_both : Bool → Process B → List (File × List ℕ)
  unfolding fail dprintf leave
  print_both ok p =
      if not ok
      then fail dup_again p
      else (let q = record p { stdout = p.stderr } in
          leave (dprintf q.stdout texts.test_output (dprintf q.stderr texts.test_error q)))

  -- From `read` on.
  unfoldable pub read_and_print : Option (List ℕ) → Bool → Process B → List (File × List ℕ)
  unfolding printf print_both
  read_and_print none ok p = print_both ok p
  read_and_print (some bytes) ok p = print_both ok (printf (texts.read_from_stdin bytes) p)

  unfoldable pub initial : Process B
  initial = record { stdout = inherited; stderr = inherited; buffer = stdio.fresh; written = [] }

  -- What `main` has written when the process has ended.
  unfoldable pub main : Answers → List (File × List ℕ)
  unfolding fail read_and_print initial
  main a =
      if not a.err_ok
      then fail open_err initial
      else if not a.out_ok
      then fail open_out initial
      else if not a.in_ok
      then fail open_in initial
      else if not a.dup_err_ok
      then fail dup_err initial
      else (let p = record initial { stderr = err_txt } in
          if not a.dup_out_ok
          then fail dup_out p
          else (let q = record p { stdout = output_txt } in
              if not a.dup_in_ok then fail dup_in q else read_and_print a.read a.dup_again_ok q))

abbrev pub all_ok : List ℕ → Answers
all_ok bytes = record {
  err_ok = true;
  out_ok = true;
  in_ok = true;
  dup_err_ok = true;
  dup_out_ok = true;
  dup_in_ok = true;
  read = some bytes;
  dup_again_ok = true;
}

module _ {B : Type 0} (stdio : Stdout B) (texts : Texts) where
  write_to-some :
      (f : File) (text : List ℕ) (log : List (File × List ℕ))
      → 1 ≤ length text
      → write_to stdio texts f text log ≡ log ++ ((f, text) ∷ [])
  write_to-some f [] log h = absurd (omega (arith, h))
  write_to-some f (c ∷ cs) log h = refl

  -- Where every call succeeds and what was read fits the buffer of stdout, which is kept while it stands
  -- for a file: the line that tells what was read is written last of all, to err.txt, and nothing is
  -- written to output.txt.
  pub nothing_to_output :
      (bytes : List ℕ)
      → length (texts.read_from_stdin bytes) ≤ stdio.size
      → 1 ≤ length (texts.read_from_stdin bytes)
      → 1 ≤ length texts.test_error
      → 1 ≤ length texts.test_output
      → main stdio texts (all_ok bytes)
        ≡ (err_txt, texts.test_error)
          ∷ (err_txt, texts.test_output)
          ∷ (err_txt, texts.read_from_stdin bytes)
          ∷ []
  unfolding main read_and_print print_both printf dprintf leave initial
  nothing_to_output bytes h r e o =
      let text = texts.read_from_stdin bytes in
      let fits : length (stdio.pending stdio.fresh) + length text ≤ stdio.size =
        rw stdio.fresh-pending (omega (arith, h)) in
      let kept : stdio.pending (stdio.print text stdio.fresh).1 ≡ text =
        print-kept stdio text stdio.fresh fits ∙ rw stdio.fresh-pending refl in
      rw (stdio.print-keeps text stdio.fresh fits, kept)
        (write_to-some err_txt text _ r
          ∙ ap (λ l. l ++ ((err_txt, text) ∷ []))
              (write_to-some err_txt texts.test_output _ o
                ∙ ap (λ l. l ++ ((err_txt, texts.test_output) ∷ []))
                    (write_to-some err_txt texts.test_error [] e)))
