-- ===== src/StaleBuffer/Stale.antt =====
-- What the programs of codes/apue/process/proc_grp.c and codes/apue/signal/sh_sleep.c print of two
-- reads, one after the other, into an array that is not cleared.
use ukgoll_github_io.Prelude.{
  ℕ, true, some, List, [], ◌∷◌, ◌++◌, ◌≡◌, refl, ◌<◌, length, drop, overwrite,
}
use ukgoll_github_io.Prelude.CString.{until_zero, Plain, first_string, second_string}
use ukgoll_github_io.StaleBuffer.ProcGrp
use ukgoll_github_io.StaleBuffer.ShSleep

loop2_twice :
    (texts : ProcGrp.Texts) (buf : List ℕ) (x : ℕ) (xs : List ℕ) (y : ℕ) (ys s t : List ℕ)
    → until_zero (overwrite buf 0 (x ∷ xs)) ≡ some s
    → until_zero (overwrite (overwrite buf 0 (x ∷ xs)) 0 (y ∷ ys)) ≡ some t
    → ProcGrp.loop2 texts ((x ∷ xs, true) ∷ (y ∷ ys, true) ∷ []) buf []
      ≡ ProcGrp.waiting (
          ProcGrp.to_stdout s
          ∷ ProcGrp.to_stdout texts.ids
          ∷ ProcGrp.to_stdout t
          ∷ ProcGrp.to_stdout texts.ids
          ∷ [])
unfolding ProcGrp.loop2
loop2_twice texts buf x xs y ys s t e f = rw (e, f) refl

-- P2, once it has read twice, has printed the first text, and the second with the tail of the first
-- behind it where the first is longer.
p2_stale :
    (texts : ProcGrp.Texts) (x : ℕ) (xs : List ℕ) (y : ℕ) (ys : List ℕ)
    → Plain (x ∷ xs)
    → Plain (y ∷ ys)
    → length (x ∷ xs) < 256
    → length (y ∷ ys) < 256
    → ProcGrp.main texts 2 ProcGrp.proc2 true true true ((x ∷ xs, true) ∷ (y ∷ ys, true) ∷ []) []
      ≡ ProcGrp.waiting (
          ProcGrp.to_stdout (x ∷ xs)
          ∷ ProcGrp.to_stdout texts.ids
          ∷ ProcGrp.to_stdout ((y ∷ ys) ++ drop (length (y ∷ ys)) (x ∷ xs))
          ∷ ProcGrp.to_stdout texts.ids
          ∷ [])
unfolding ProcGrp.main ProcGrp.work ProcGrp.process_of
p2_stale texts x xs y ys v w h k =
    loop2_twice texts ProcGrp.empty_buf x xs y ys (x ∷ xs)
      ((y ∷ ys) ++ drop (length (y ∷ ys)) (x ∷ xs)) (first_string 256 (x ∷ xs) v h)
      (second_string 256 (x ∷ xs) (y ∷ ys) v w h k)

loop_twice :
    (buf : List ℕ) (a b s t : List ℕ)
    → until_zero (overwrite buf 0 a) ≡ some s
    → until_zero (overwrite (overwrite buf 0 a) 0 b) ≡ some t
    → ShSleep.loop (ShSleep.got a ∷ ShSleep.interrupted ∷ ShSleep.got b ∷ []) buf []
      ≡ ShSleep.waiting (ShSleep.data_is (length a) s ∷ ShSleep.data_is (length b) t ∷ [])
unfolding ShSleep.loop
loop_twice buf a b s t e f = rw (e, f) refl

-- Once `main` of sh_sleep.c has read twice, with a signal in between, it has printed the length and the
-- text of the first, and the length of the second with its text and the tail of the first behind it.
sleeper_stale :
    (a b : List ℕ)
    → Plain a
    → Plain b
    → length a < 4
    → length b < 4
    → ShSleep.main true (ShSleep.got a ∷ ShSleep.interrupted ∷ ShSleep.got b ∷ [])
      ≡ ShSleep.waiting
          (ShSleep.data_is (length a) a ∷ ShSleep.data_is (length b) (b ++ drop (length b) a) ∷ [])
unfolding ShSleep.main
sleeper_stale a b v w h k =
    loop_twice ShSleep.empty_buf a b a _ (first_string 4 a v h) (second_string 4 a b v w h k)
