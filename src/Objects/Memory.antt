-- ===== src/Objects/Memory.antt =====
-- Memory with `new` and `delete`, for the classes under codes/cplusplus.
use ukgoll_github_io.Prelude.{
  ℕ, ◌≡◌, ◌≢◌, refl, true, false, ==_iff, Option, none, some, Bool-cases, inl, inr, sym, ap, ◌∙◌,
  ◌==◌, if◌then◌else◌, arith,
}

abbrev pub Ptr : Type 0
Ptr = ℕ

abbrev pub null : Ptr
null = 0

-- `fault` is what the language leaves undefined: the use of memory that is not there, or its release.
pub data Result {ℓ} (A : Type ℓ) : Type ℓ where
  done : A → Result A
  fault : Result A

infixl 5 ◌>>=◌
abbrev pub ◌>>=◌ {ℓ κ} : {A : Type ℓ} {B : Type κ} → Result A → (A → Result B) → Result B
done a >>= f = f a
fault >>= f = fault

abbrev pub or_fault {ℓ} : {A : Type ℓ} → Option A → Result A
or_fault none = fault
or_fault (some a) = done a

abbrev pub Memory : Type 0 → Type 0
Memory A = Ptr → Option A

module _ {A : Type 0} where
  unfoldable pub put : Ptr → Option A → Memory A → Memory A
  put p v m q = if q == p then v else m q

  -- `new` has returned `p`.
  unfoldable pub new : Ptr → A → Memory A → Memory A
  unfolding put
  new p v m = put p (some v) m

  unfoldable pub read : Ptr → Memory A → Result A
  read p m = elim (m p) [ none ↦ fault | some v ↦ done v ]

  unfoldable pub write : Ptr → A → Memory A → Result (Memory A)
  unfolding put
  write p v m = elim (m p) [ none ↦ fault | some _ ↦ done (put p (some v) m) ]

  -- `delete` of a null pointer does nothing.
  unfoldable pub delete : Ptr → Memory A → Result (Memory A)
  unfolding put
  delete p m =
      if p == null then done m else elim (m p) [ none ↦ fault | some _ ↦ done (put p none m) ]

  -- `if (p) delete p`
  unfoldable pub delete_if : Ptr → Memory A → Result (Memory A)
  unfolding delete
  delete_if p m = if p == null then done m else delete p m

  pub delete_if-delete : (p : Ptr) (m : Memory A) → delete_if p m ≡ delete p m
  unfolding delete_if delete
  delete_if-delete p m = elim (Bool-cases (p == null)) [ inl e ↦ rw e refl | inr e ↦ rw e refl ]

  pub put_same : (p : Ptr) (v : Option A) (m : Memory A) → put p v m p ≡ v
  unfolding put
  put_same p v m = let e : (p == p) ≡ true = (==_iff p p).1 refl in rw e refl

  pub put_other : (p q : Ptr) (v : Option A) (m : Memory A) → q ≢ p → put p v m q ≡ m q
  unfolding put
  put_other p q v m h = let e : (q == p) ≡ false = ground (arith, h) in rw e refl

  pub read-some : (p : Ptr) (v : A) (m : Memory A) → m p ≡ some v → read p m ≡ done v
  unfolding read
  read-some p v m h = rw (h, read) refl

  pub write-some :
      (p : Ptr) (v w : A) (m : Memory A) → m p ≡ some v → write p w m ≡ done (put p (some w) m)
  unfolding write
  write-some p v w m h = rw (h, write) refl

  pub delete-some :
      (p : Ptr) (v : A) (m : Memory A) → p ≢ null → m p ≡ some v → delete p m ≡ done (put p none m)
  unfolding delete
  delete-some p v m n h = let e : (p == null) ≡ false = ground (arith, n) in rw (e, h) refl

  pub delete_if-some :
      (p : Ptr) (v : A) (m : Memory A)
      → p ≢ null
      → m p ≡ some v
      → delete_if p m ≡ done (put p none m)
  delete_if-some p v m n h = delete_if-delete p m ∙ delete-some p v m n h

  pub delete-none : (p : Ptr) (m : Memory A) → p ≢ null → m p ≡ none → delete p m ≡ fault
  unfolding delete
  delete-none p m n h = let e : (p == null) ≡ false = ground (arith, n) in rw (e, h) refl

  -- A block that was not there is taken, and given back.
  pub put_undone :
      (p : Ptr) (m : Memory A) (u : Option A) (j : Ptr)
      → m p ≡ none
      → put p none (put p u m) j ≡ m j
  unfolding put
  put_undone p m u j h = elim (Bool-cases (j == p)) [
    | inl e ↦ rw e (sym (ap m ((==_iff j p).0 e) ∙ h))
    | inr e ↦ rw e refl
  ]
