-- ===== src/CopyFile/Copying.antt =====
-- codes/apue/timec/splice_copy_file.c: what the copies put into the second file.
use ukgoll_github_io.Prelude.{
  take-whole, drop-whole, take-drop, length-zero, ℕ, ◌≡◌, refl, sym, ap, ◌∙◌, ◌≤◌, ◌<◌, true, false,
  Option, some, List, [], ◌∷◌, ◌++◌, ◌≢◌, ◌==◌, length, take, drop, min, arith, Bool-cases, inl,
  inr, length-take, length-drop, append_assoc, append-nil,
}
use ukgoll_github_io.CopyFile.Program.{
  Fd, Copy, Outcome, running, returned, exit_failure, Turn, Opens, print, moved, buf_size,
  write_buf, read_write_turn, splice_out, splice_turn, finish, copy_loop, copy_file_read_write,
  copy_file_splice, initial, splice_fds, read_write_fds, usage_splice, usage_read_write,
}

abbrev pub state_of : Outcome → Copy
state_of (running c) = c
state_of (returned c) = c
state_of (exit_failure c) = c

-- The calls of the turn move all they are asked for, but for a read, which may give less.
abbrev pub Full : Turn → Type 0
Full t =
    (ready : ℕ) × (w : ℕ) × (t.moved_in ≡ some ready)
    × (t.moved_out ≡ some w)
    × (1 ≤ ready)
    × (buf_size ≤ w)

abbrev pub AllFull : List Turn → Type 0
AllFull [] = Unit
AllFull (t ∷ ts) = Full t × AllFull ts

-- The next `n` bytes have gone from the first file to the second.
record Passes (n : ℕ) (c c' : Copy) : Type 0 where
  source : c'.source ≡ drop n c.source
  pipe : c'.pipe ≡ []
  target : c'.target ≡ c.target ++ take n c.source

-- The first file is copied to its end, and the loop is left without an error.
pub record Copied (file : List ℕ) (c : Copy) : Type 0 where
  pub source : c.source ≡ []
  pub pipe : c.pipe ≡ []
  pub target : c.target ≡ file

-- A body of the loop that passes the bytes on, where the call that moves them out is a full one.
abbrev PassesOn : (ℕ → Option ℕ → Copy → Copy) → Type 0
PassesOn body =
    (n w : ℕ) (c : Copy)
    → n ≤ buf_size
    → buf_size ≤ w
    → n ≤ length c.source
    → c.pipe ≡ []
    → Passes n c (body n (some w) c)

read_write_turn-Passes : PassesOn read_write_turn
unfolding read_write_turn write_buf moved
read_write_turn-Passes n w c b f l e = record {
  source = refl;
  pipe = e;
  target =
      ap (λ l. c.target ++ l)
        (take-whole _ (take n c.source) (omega (arith, length-take n c.source, b, f)));
}

splice_turn-Passes : PassesOn splice_turn
unfolding splice_turn splice_out moved
splice_turn-Passes n w c b f l e =
    let whole : length (take n c.source) ≤ min w (min n (length (take n c.source))) =
      omega (arith, length-take n c.source, b, f, l) in
    record {
      source = refl;
      pipe = rw e (drop-whole _ (take n c.source) whole);
      target = rw e (ap (λ l. c.target ++ l) (take-whole _ (take n c.source) whole));
    }

-- The target and the rest of the source, before and after a turn.
Passes-rest : {n : ℕ} {c c' : Copy} → Passes n c c' → c'.target ++ c'.source ≡ c.target ++ c.source
Passes-rest {n} {c} {c'} p =
    rw (p.target, p.source)
      (append_assoc c.target (take n c.source) (drop n c.source)
        ∙ ap (λ l. c.target ++ l) (take-drop n c.source))

module _ (body : ℕ → Option ℕ → Copy → Copy) (passes : PassesOn body) where
  copy_loop-Copied :
      (fds : List Fd) (ts : List Turn) (c : Copy)
      → AllFull ts
      → length c.source < length ts
      → c.pipe ≡ []
      → (c' : Copy) × (copy_loop body fds ts c ≡ returned c') × Copied (c.target ++ c.source) c'
  unfolding copy_loop finish print moved
  copy_loop-Copied fds [] c v h e = absurd (omega (arith, h))
  copy_loop-Copied fds (t ∷ ts) c ((ready, w, i, o, r, f), v) h e =
      let n = moved ready buf_size c.source in
      elim (Bool-cases (n == 0)) [
        | inl z ↦
            let empty = length-zero c.source (ground (arith, z, r)) in
            (
              state_of (finish fds false c),
              rw (i, z) refl,
              record { source = empty; pipe = e; target = rw empty (sym (append-nil c.target)) },
            )
        | inr z ↦
            let p = passes n w c (omega arith) f (omega arith) e in
            let some_read : n ≢ 0 = ground (arith, z) in
            let shorter : length (drop n c.source) < length ts =
              omega (arith, length-drop n c.source, h, some_read) in
            let (c', q, d) =
              copy_loop-Copied fds ts (body n (some w) c) v (rw p.source shorter) p.pipe in
            (
              c',
              rw (i, z, o) q,
              record { source = d.source; pipe = d.pipe; target = d.target ∙ Passes-rest p },
            )
      ]

-- Where the files and the pipe are opened, each call that moves bytes out moves all it is asked for,
-- each one that moves them in moves at least one byte if any is left, and there are more turns than
-- bytes: both copies return, and both leave the second file the same as the first, with nothing in the
-- pipe.
pub copies_whole :
    (o : Opens) (ts : List Turn) (file : List ℕ)
    → o.fd1_ok ≡ true
    → o.fd2_ok ≡ true
    → o.pipe_ok ≡ true
    → AllFull ts
    → length file < length ts
    → ((c : Copy) × (copy_file_read_write o ts (initial file) ≡ returned c) × Copied file c)
      × ((c : Copy) × (copy_file_splice o ts (initial file) ≡ returned c) × Copied file c)
unfolding copy_file_read_write copy_file_splice initial print
copies_whole o ts file e f g v h = (
  (let (c, q, d) =
        copy_loop-Copied read_write_turn read_write_turn-Passes read_write_fds ts
          (print usage_read_write (initial file)) v h refl in
      (c, rw (e, f) q, d)),
  (let (c, q, d) =
        copy_loop-Copied splice_turn splice_turn-Passes splice_fds ts
          (print usage_splice (initial file)) v h refl in
      (c, rw (e, f, g) q, d)),
)
