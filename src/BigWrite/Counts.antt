-- ===== src/BigWrite/Counts.antt =====
-- codes/apue/process/pipe_oversize_write.c: how many bytes of each child stand where.
use ukgoll_github_io.Prelude.{
  Bool-cases, inl, inr, sym, subst, ◌∙◌, ◌⊎◌, Bool, Option, none, some, leb, take-whole, take-drop,
}
use ukgoll_github_io.Prelude.{
  ℕ, zero, suc, ◌+◌, ◌*◌, ◌≡◌, refl, arith, true, false, if◌then◌else◌, ◌==◌, List, [], ◌∷◌, ◌++◌,
  length, take, drop, replicate, length-append, length-replicate,
}
use ukgoll_github_io.BigWrite.System.{reads, taken, is_whole, write_out, read_fails, killed}
use ukgoll_github_io.BigWrite.System.{
  write_size, read_size, Which, child1, child2, Child, unborn, writing, exited, reaped, Parent,
  forking1, forking2, closing, reading, waiting1, waiting2, returned, System, holds, ParentStep,
  fork1, fork1_fails, fork2, fork2_fails, close_write_end, read_some, read_eof, wait1, wait1_fails,
  wait2, wait2_fails, ChildStep, write_part, leave, by_parent, by_child, Reachable, start, next,
}

abbrev pub count : ℕ → List ℕ → ℕ
count c [] = 0
count c (x ∷ xs) = (if c == x then 1 else 0) + count c xs

count-append : (c : ℕ) (xs ys : List ℕ) → count c (xs ++ ys) ≡ count c xs + count c ys
count-append c [] ys = omega arith
count-append c (x ∷ xs) ys = omega (arith, count-append c xs ys)

count-take : (c n : ℕ) (xs : List ℕ) → count c (take n xs) + count c (drop n xs) ≡ count c xs
count-take c zero xs = omega arith
count-take c (suc n) [] = refl
count-take c (suc n) (x ∷ xs) = omega (arith, count-take c n xs)

count-same : (c k : ℕ) → count c (replicate k c) ≡ k
count-same c zero = refl
count-same c (suc k) =
    let e : (c == c) ≡ true = ground arith in rw e (omega (arith, count-same c k))

count-other : (c d k : ℕ) → (c == d) ≡ false → count c (replicate k d) ≡ 0
count-other c d zero e = refl
count-other c d (suc k) e = rw e (omega (arith, count-other c d k e))

length-take-drop : (n : ℕ) (xs : List ℕ) → length (take n xs) + length (drop n xs) ≡ length xs
length-take-drop zero xs = omega arith
length-take-drop (suc n) [] = refl
length-take-drop (suc n) (x ∷ xs) = omega (arith, length-take-drop n xs)

-- The bytes that a child has still to write.
abbrev pub left : Child → ℕ
left unborn = write_size
left (writing n) = n
left exited = 0
left reaped = 0

-- What holds of the rest by where the parent stands: who has not been forked yet, and that behind the
-- end of the file the pipe is empty and no child has its write end, unless a call has failed.
abbrev pub Phase : Parent → Bool → Child → Child → List ℕ → Type 0
Phase forking1 f a b p = (a ≡ unborn) × (b ≡ unborn)
Phase forking2 f a b p = b ≡ unborn
Phase closing f a b p = Unit
Phase reading f a b p = Unit
Phase _ f a b p = (f ≡ true) ⊎ ((p ≡ []) × (holds a ≡ false) × (holds b ≡ false))

-- What has been put out, is in the pipe and is left of each child is all that it writes.
abbrev pub Counted : List ℕ → List ℕ → Child → Child → Type 0
Counted out pipe a b =
    (count 65 out + count 65 pipe + left a ≡ write_size)
    × (count 66 out + count 66 pipe + left b ≡ write_size)
    × (length out + length pipe + left a + left b ≡ 2 * write_size)

pub record Inv (s : System) : Type 0 where
  pub phase : Phase s.parent s.failed s.a s.b s.pipe
  pub counted : (s.failed ≡ true) ⊎ Counted s.out s.pipe s.a s.b

or_map : {A B C : Type 0} → (B → C) → A ⊎ B → A ⊎ C
or_map f (inl a) = inl a
or_map f (inr b) = inr (f b)

-- All that a read has given is put out, or a call has failed.
written_out :
    (answer : Option ℕ) (f : Bool) (bytes out rest : List ℕ) (a b : Child)
    → (f ≡ true) ⊎ Counted out (bytes ++ rest) a b
    → ((if is_whole answer bytes then f else true) ≡ true)
      ⊎ Counted (out ++ taken answer bytes) rest a b
written_out none f bytes out rest a b v = inl refl
written_out (some k) f bytes out rest a b v = elim (Bool-cases (leb (length bytes) k)) [
  | inr h ↦ inl (rw h refl)
  | inl h ↦
      let whole : take k bytes ≡ bytes = take-whole k bytes (ground (arith, h)) in
      rw (h, whole)
        (or_map
          (λ (x, y, z). (
            omega (arith, x, count-append 65 out bytes, count-append 65 bytes rest),
            omega (arith, y, count-append 66 out bytes, count-append 66 bytes rest),
            omega (arith, z, length-append out bytes, length-append bytes rest),
          ))
          v)
]

parent-Inv : {s s' : System} → ParentStep s s' → Inv s → Inv s'
unfolding write_out
parent-Inv {s} (fork1 e) v =
    let (a, b) : (s.a ≡ unborn) × (s.b ≡ unborn) = rw e at v.phase in
    record { phase = b; counted = rw a at v.counted }
parent-Inv {s} (fork1_fails e) v =
    let (a, b) : (s.a ≡ unborn) × (s.b ≡ unborn) = rw e at v.phase in
    record { phase = b; counted = v.counted }
parent-Inv {s} (fork2 e) v =
    let b : s.b ≡ unborn = rw e at v.phase in record { phase = tt; counted = rw b at v.counted }
parent-Inv {s} (fork2_fails e) v = record { phase = tt; counted = v.counted }
parent-Inv {s} (close_write_end e) v = record { phase = tt; counted = v.counted }
parent-Inv {s} (read_some x xs answer e f) v =
    let p : List ℕ = x ∷ xs in
    let split : p ≡ take read_size p ++ drop read_size p = sym (take-drop read_size p) in
    record {
      phase = rw e tt;
      counted =
          written_out answer s.failed (take read_size p) s.out (drop read_size p) s.a s.b
            (subst (λ q. (s.failed ≡ true) ⊎ Counted s.out q s.a s.b) (f ∙ split) v.counted);
    }
parent-Inv {s} (read_fails e) v = record { phase = inl refl; counted = inl refl }
parent-Inv {s} (read_eof e p a b) v = record { phase = inr (p, a, b); counted = v.counted }
parent-Inv {s} (wait1 child1 e c) v = record {
  phase = or_map (λ (p, a, b). (p, refl, b)) (rw e at v.phase);
  counted = rw c at v.counted;
}
parent-Inv {s} (wait1 child2 e c) v = record {
  phase = or_map (λ (p, a, b). (p, a, refl)) (rw e at v.phase);
  counted = rw c at v.counted;
}
parent-Inv {s} (wait1_fails e g h) v = record { phase = rw e at v.phase; counted = v.counted }
parent-Inv {s} (wait2 child1 e c) v = record {
  phase = or_map (λ (p, a, b). (p, refl, b)) (rw e at v.phase);
  counted = rw c at v.counted;
}
parent-Inv {s} (wait2 child2 e c) v = record {
  phase = or_map (λ (p, a, b). (p, a, refl)) (rw e at v.phase);
  counted = rw c at v.counted;
}
parent-Inv {s} (wait2_fails e g h) v = record { phase = rw e at v.phase; counted = v.counted }

-- A child that writes moves on.
moves1 :
    (m : Parent) (f : Bool) (n : ℕ) (c b : Child) (p p' : List ℕ)
    → Phase m f (writing n) b p
    → Phase m f c b p'
moves1 forking1 f n c b p p' (h, k) = absurd (cc h)
moves1 forking2 f n c b p p' h = h
moves1 closing f n c b p p' h = tt
moves1 reading f n c b p p' h = tt
moves1 waiting1 f n c b p p' h = or_map (λ (x, k, l). absurd (cc k)) h
moves1 waiting2 f n c b p p' h = or_map (λ (x, k, l). absurd (cc k)) h
moves1 returned f n c b p p' h = or_map (λ (x, k, l). absurd (cc k)) h

moves2 :
    (m : Parent) (f : Bool) (n : ℕ) (a c : Child) (p p' : List ℕ)
    → Phase m f a (writing n) p
    → Phase m f a c p'
moves2 forking1 f n a c p p' (h, k) = absurd (cc k)
moves2 forking2 f n a c p p' h = absurd (cc h)
moves2 closing f n a c p p' h = tt
moves2 reading f n a c p p' h = tt
moves2 waiting1 f n a c p p' h = or_map (λ (x, k, l). absurd (cc l)) h
moves2 waiting2 f n a c p p' h = or_map (λ (x, k, l). absurd (cc l)) h
moves2 returned f n a c p p' h = or_map (λ (x, k, l). absurd (cc l)) h

-- A child that is still writing when the read end is closed tells of a failed read.
late1 :
    (m : Parent) (f : Bool) (n : ℕ) (b : Child) (p : List ℕ)
    → reads m ≡ false
    → Phase m f (writing n) b p
    → f ≡ true
late1 waiting1 f n b p r (inl e) = e
late1 waiting2 f n b p r (inl e) = e
late1 returned f n b p r (inl e) = e
late1 waiting1 f n b p r (inr (x, k, l)) = absurd (cc k)
late1 waiting2 f n b p r (inr (x, k, l)) = absurd (cc k)
late1 returned f n b p r (inr (x, k, l)) = absurd (cc k)
late1 forking1 f n b p r h = absurd (cc r)
late1 forking2 f n b p r h = absurd (cc r)
late1 closing f n b p r h = absurd (cc r)
late1 reading f n b p r h = absurd (cc r)

late2 :
    (m : Parent) (f : Bool) (n : ℕ) (a : Child) (p : List ℕ)
    → reads m ≡ false
    → Phase m f a (writing n) p
    → f ≡ true
late2 waiting1 f n a p r (inl e) = e
late2 waiting2 f n a p r (inl e) = e
late2 returned f n a p r (inl e) = e
late2 waiting1 f n a p r (inr (x, k, l)) = absurd (cc l)
late2 waiting2 f n a p r (inr (x, k, l)) = absurd (cc l)
late2 returned f n a p r (inr (x, k, l)) = absurd (cc l)
late2 forking1 f n a p r h = absurd (cc r)
late2 forking2 f n a p r h = absurd (cc r)
late2 closing f n a p r h = absurd (cc r)
late2 reading f n a p r h = absurd (cc r)

child-Inv : {s s' : System} (capacity : ℕ) (w : Which) → ChildStep capacity w s s' → Inv s → Inv s'
child-Inv {s} capacity child1 (write_part k rest e one listens room) v =
    let more = replicate {A = ℕ} k 65 in
    record {
      phase =
          moves1 s.parent s.failed (k + rest) (writing rest) s.b s.pipe (s.pipe ++ more)
            (rw e at v.phase);
      counted =
          or_map
            (λ (x, y, z). (
              omega (arith, x, count-append 65 s.pipe more, count-same 65 k),
              omega (arith, y, count-append 66 s.pipe more, count-other 66 65 k refl),
              omega (arith, z, length-append s.pipe more, length-replicate {A = ℕ} k 65),
            ))
            (rw e at v.counted);
    }
child-Inv {s} capacity child2 (write_part k rest e one listens room) v =
    let more = replicate {A = ℕ} k 66 in
    record {
      phase =
          moves2 s.parent s.failed (k + rest) s.a (writing rest) s.pipe (s.pipe ++ more)
            (rw e at v.phase);
      counted =
          or_map
            (λ (x, y, z). (
              omega (arith, x, count-append 65 s.pipe more, count-other 65 66 k refl),
              omega (arith, y, count-append 66 s.pipe more, count-same 66 k),
              omega (arith, z, length-append s.pipe more, length-replicate {A = ℕ} k 66),
            ))
            (rw e at v.counted);
    }
child-Inv {s} capacity child1 (killed n e r) v = record {
  phase = moves1 s.parent s.failed (suc n) exited s.b s.pipe s.pipe (rw e at v.phase);
  counted = inl (late1 s.parent s.failed (suc n) s.b s.pipe r (rw e at v.phase));
}
child-Inv {s} capacity child2 (killed n e r) v = record {
  phase = moves2 s.parent s.failed (suc n) s.a exited s.pipe s.pipe (rw e at v.phase);
  counted = inl (late2 s.parent s.failed (suc n) s.a s.pipe r (rw e at v.phase));
}
child-Inv {s} capacity child1 (leave e) v = record {
  phase = moves1 s.parent s.failed 0 exited s.b s.pipe s.pipe (rw e at v.phase);
  counted = rw e at v.counted;
}
child-Inv {s} capacity child2 (leave e) v = record {
  phase = moves2 s.parent s.failed 0 s.a exited s.pipe s.pipe (rw e at v.phase);
  counted = rw e at v.counted;
}

pub Reachable-Inv : (capacity : ℕ) {s : System} → Reachable capacity s → Inv s
Reachable-Inv capacity start = record { phase = (refl, refl); counted = inr (refl, refl, refl) }
Reachable-Inv capacity (next r (by_parent m)) = parent-Inv m (Reachable-Inv capacity r)
Reachable-Inv capacity (next r (by_child w m)) = child-Inv capacity w m (Reachable-Inv capacity r)
