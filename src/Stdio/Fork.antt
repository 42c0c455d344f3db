-- ===== src/Stdio/Fork.antt =====
-- codes/apue/process/fork_buff.c: the buffer of stdout is copied by `fork`.
use ukgoll_github_io.Prelude.{
  ℕ, ◌+◌, ◌≤◌, ◌≡◌, refl, ◌∙◌, ap, Bool, true, false, List, [], ◌++◌, length, if◌then◌else◌, arith,
  append-nil,
}
use ukgoll_github_io.Stdio.Buffer.{Stdout, print-kept}

pub record Texts : Type 0 where
  pub hello : List ℕ
  pub write_error : List ℕ
  pub try_buff : List ℕ
  pub flush_error : List ℕ
  pub fork_error : List ℕ
  -- The line at the end, with `global_val` and `val`.
  pub summary : ℕ → ℕ → List ℕ

-- What the calls answer, and whether the argument is "flush".
pub record Answers : Type 0 where
  pub write_ok : Bool
  pub flush_argument : Bool
  pub flush_ok : Bool
  pub fork_ok : Bool

-- What was written to the standard output: before the fork, and by each process after it.
pub data Output : Type 0 where
  failed : List ℕ → Output
  forked : List ℕ → List ℕ → List ℕ → Output

module _ {B : Type 0} (stdio : Stdout B) (texts : Texts) where
  -- What was written, and the buffer.
  unfoldable pub printf : List ℕ → List ℕ × B → List ℕ × B
  printf text (out, b) = let (now, b') = stdio.print text b in (out ++ now, b')

  -- At the end of a process what is left in the buffer is written.
  unfoldable pub leave : List ℕ × B → List ℕ
  leave (out, b) = out ++ stdio.pending b

  -- `fflush(stdout)`; one that fails leaves the buffer as it is.
  unfoldable pub flush : Bool → List ℕ × B → List ℕ × B
  unfolding printf
  flush ok (out, b) =
      if ok then (out ++ stdio.pending b, stdio.fresh) else printf texts.flush_error (out, b)

  -- What a process writes after the fork, with its variables and its copy of the buffer.
  unfoldable pub after_fork : ℕ → ℕ → B → List ℕ
  unfolding printf leave
  after_fork global_val val b = leave (printf (texts.summary global_val val) ([], b))

  -- `fork`, and the two processes; the child has counted both variables up.
  unfoldable pub fork : Bool → List ℕ × B → Output
  unfolding printf leave after_fork
  fork ok (out, b) =
      if ok
      then forked out (after_fork 100 89 b) (after_fork 99 88 b)
      else failed (leave (printf texts.fork_error (out, b)))

  unfoldable pub main : Answers → Output
  unfolding printf leave flush fork
  main a =
      if a.write_ok
      then (let s = printf texts.try_buff (texts.hello, stdio.fresh) in
          fork a.fork_ok (if a.flush_argument then flush a.flush_ok s else s))
      else failed (leave (printf texts.write_error ([], stdio.fresh)))

  after_fork-kept :
      (global_val val : ℕ) (b : B)
      → length (stdio.pending b) + length (texts.summary global_val val) ≤ stdio.size
      → after_fork global_val val b ≡ stdio.pending b ++ texts.summary global_val val
  unfolding after_fork printf leave
  after_fork-kept g v b h =
      rw (stdio.print-keeps (texts.summary g v) b h) (print-kept stdio (texts.summary g v) b h)

  first-kept :
      length texts.try_buff ≤ stdio.size
      → ((stdio.print texts.try_buff stdio.fresh).0 ≡ [])
        × (stdio.pending (stdio.print texts.try_buff stdio.fresh).1 ≡ texts.try_buff)
  first-kept h =
      let fits : length (stdio.pending stdio.fresh) + length texts.try_buff ≤ stdio.size =
        rw stdio.fresh-pending (omega (arith, h)) in
      (
        stdio.print-keeps texts.try_buff stdio.fresh fits,
        print-kept stdio texts.try_buff stdio.fresh fits ∙ rw stdio.fresh-pending refl,
      )

  -- What a process writes at its end, by what its copy of the buffer holds.
  end-kept :
      (global_val val : ℕ) (b : B) (held : List ℕ)
      → stdio.pending b ≡ held
      → length held + length (texts.summary global_val val) ≤ stdio.size
      → after_fork global_val val b ≡ held ++ texts.summary global_val val
  end-kept g v b held e h = after_fork-kept g v b (rw e h) ∙ ap (λ l. l ++ texts.summary g v) e

  -- Where stdout keeps what is printed, and every call succeeds: without the argument each process writes
  -- the line that was printed before the fork, in front of its own; with it that line is written once,
  -- before the fork.
  pub line_printed_twice :
      (flush_argument : Bool)
      → length texts.try_buff + length (texts.summary 100 89) ≤ stdio.size
      → length texts.try_buff + length (texts.summary 99 88) ≤ stdio.size
      → main (record {
        write_ok = true;
        flush_argument = flush_argument;
        flush_ok = true;
        fork_ok = true;
      })
        ≡ (if flush_argument
            then forked (texts.hello ++ texts.try_buff) (texts.summary 100 89) (texts.summary 99 88)
            else forked texts.hello
                (texts.try_buff ++ texts.summary 100 89)
                (texts.try_buff ++ texts.summary 99 88))
  unfolding main flush fork printf
  line_printed_twice true c p =
      let (now, kept) = first-kept (omega (arith, c)) in
      rw
        (
          now,
          kept,
          append-nil texts.hello,
          end-kept 100 89 stdio.fresh [] stdio.fresh-pending (omega (arith, c)),
          end-kept 99 88 stdio.fresh [] stdio.fresh-pending (omega (arith, p)),
        )
        refl
  line_printed_twice false c p =
      let (now, kept) = first-kept (omega (arith, c)) in
      let b = (stdio.print texts.try_buff stdio.fresh).1 in
      rw
        (
          now,
          append-nil texts.hello,
          end-kept 100 89 b texts.try_buff kept c,
          end-kept 99 88 b texts.try_buff kept p,
        )
        refl
