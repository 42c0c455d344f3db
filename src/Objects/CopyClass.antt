-- ===== src/Objects/CopyClass.antt =====
-- codes/cplusplus/class_copy_usage.cpp: CopyClass, whose copy is not the object that is copied.
use ukgoll_github_io.Prelude.{
  ℕ, ◌+◌, ◌≡◌, ◌≢◌, refl, sym, ap, ◌∙◌, Bool, false, none, some, List, [], ◌∷◌, ◌++◌, if◌then◌else◌,
}
use ukgoll_github_io.Objects.Memory.{
  Ptr, null, Result, done, ◌>>=◌, Memory, put, new, read, delete, put_same, put_other, put_undone,
  read-some, delete_if, delete_if-some, delete-some,
}

pub record CopyClass : Type 0 where
  pub num_pointer : Ptr
  pub name : List ℕ

pub data Line : Type 0 where
  copy_called : Line
  assignment_called : Line
  destructor_called : ℕ → Line
  value : ℕ → Line
  value_in_copy : ℕ → Line

-- The constructor, with the bytes of "DefaultName"; its `new` returns `p`.
unfoldable pub construct : List ℕ → Ptr → Memory ℕ → CopyClass × Memory ℕ
unfolding new
construct default_name p m = (record { num_pointer = p; name = default_name }, new p 42 m)

-- The copy constructor: the name of the copy is the empty one.
unfoldable pub copy : Ptr → CopyClass → Memory ℕ → Result (CopyClass × Memory ℕ)
unfolding read new
copy p other m = do
  v ← read other.num_pointer m
  done (record { num_pointer = p; name = [] }, new p (v + 1) m)

unfoldable pub get_value : CopyClass → Memory ℕ → Result ℕ
unfolding read
get_value c m = read c.num_pointer m

-- `operator=`; `same` is whether `other` is the object itself.
unfoldable pub assign :
    Bool → Ptr → CopyClass → CopyClass → Memory ℕ → Result (CopyClass × Memory ℕ)
unfolding read new delete_if
assign same p other c m = if same then done (c, m) else do
  m' ← delete_if c.num_pointer m
  v ← read other.num_pointer m'
  done (record c { num_pointer = p }, new p v m')

-- The destructor, with what it prints.
unfoldable pub destruct : CopyClass → Memory ℕ → Result (Line × Memory ℕ)
unfolding read delete
destruct c m = do
  v ← read c.num_pointer m
  m' ← delete c.num_pointer m
  done (destructor_called v, m')

-- `test_copy(original)`, with the copy of its parameter.
unfoldable pub test_copy : Ptr → CopyClass → Memory ℕ → Result (List Line × Memory ℕ)
unfolding copy get_value destruct
test_copy p original m = do
  (obj, m1) ← copy p original m
  v ← get_value obj m1
  (l, m2) ← destruct obj m1
  done (copy_called ∷ value_in_copy v ∷ l ∷ [], m2)

unfoldable pub main : List ℕ → Ptr → Ptr → Memory ℕ → Result (List Line × Memory ℕ)
unfolding construct get_value test_copy destruct
main default_name p q m = do
  let (original, m1) = construct default_name p m
  v ← get_value original m1
  (ls, m2) ← test_copy q original m1
  w ← get_value original m2
  (l, m3) ← destruct original m2
  done ((value v ∷ ls) ++ (value w ∷ l ∷ []), m3)

-- Where an object is passed by value, and the copy's block is a fresh one: the copy has the number after
-- the object's, it is destroyed at the end of the call, and all memory is then as it was.
pub test_copy_leaves_memory :
    (p : Ptr) (c : CopyClass) (v : ℕ) (m : Memory ℕ)
    → p ≢ null
    → m p ≡ none
    → m c.num_pointer ≡ some v
    → (m' : Memory ℕ) × (test_copy p c m
        ≡ done (copy_called ∷ value_in_copy (v + 1) ∷ destructor_called (v + 1) ∷ [], m'))
      × ((j : Ptr) → m' j ≡ m j)
unfolding test_copy copy get_value destruct new
test_copy_leaves_memory p c v m n f h =
    let m1 = put p (some (v + 1)) m in
    (
      put p none m1,
      rw
          (
            read-some c.num_pointer v m h,
            read-some p (v + 1) m1 (put_same p (some (v + 1)) m),
            delete-some p (v + 1) m1 n (put_same p (some (v + 1)) m),
          )
          refl,
      λ j. put_undone p m (some (v + 1)) j f,
    )

-- Assignment from another object, with a fresh block: the object gets the other's number in its own
-- block, its old block is freed, and its name stays as it was.
assign_lem :
    (p : Ptr) (other c : CopyClass) (v w : ℕ) (m : Memory ℕ)
    → c.num_pointer ≢ null
    → c.num_pointer ≢ other.num_pointer
    → m p ≡ none
    → m c.num_pointer ≡ some w
    → m other.num_pointer ≡ some v
    → (m' : Memory ℕ) × (assign false p other c m ≡ done (record c { num_pointer = p }, m'))
      × (m' p ≡ some v)
      × (m' other.num_pointer ≡ some v)
      × (m' c.num_pointer ≡ none)
unfolding assign new
assign_lem p other c v w m n d f h k =
    let m1 = put c.num_pointer none m in
    let there : m1 other.num_pointer ≡ some v =
      put_other c.num_pointer other.num_pointer none m (λ q. d (sym q)) ∙ k in
    (
      put p (some v) m1,
      rw (delete_if-some c.num_pointer w m n h, read-some other.num_pointer v m1 there) refl,
      put_same p (some v) m1,
      put_other p other.num_pointer (some v) m1 (λ q. cc (sym k ∙ ap m q ∙ f)) ∙ there,
      put_other p c.num_pointer (some v) m1 (λ q. cc (sym h ∙ ap m q ∙ f))
          ∙ put_same c.num_pointer none m,
    )
