-- ===== src/Objects/Copies.antt =====
-- codes/cplusplus/class_copy_delete.cpp: TestCopyDelete, which is copied with its pointer, and
-- TestCopyDeleteWithDeepCopy, which is copied with what the pointer points to.
use ukgoll_github_io.Prelude.{
  ℕ, ◌+◌, ◌^◌, ◌<◌, ◌≡◌, ◌≢◌, refl, true, false, Option, some, none, sym, ap, ==_iff, Bool-cases,
  inl, inr, ◌∙◌, ltb, ◌==◌, if◌then◌else◌, arith,
}
use ukgoll_github_io.Objects.Memory.{
  Ptr, null, Result, done, fault, ◌>>=◌, Memory, put, new, read, write, put_same, put_other,
  read-some, delete_if, delete_if-some, delete_if-delete, write-some, delete-none,
}

-- Beyond the largest int, `+=` is undefined. The program's numbers are not negative.
abbrev pub int_limit : ℕ
int_limit = 2 ^ 31

-- `*(tp.x) += 100`
unfoldable pub add_100 : Ptr → Memory ℕ → Result (Memory ℕ)
unfolding read write
add_100 x m = do v ← read x m; if ltb (v + 100) int_limit then write x (v + 100) m else fault

-- The two destructors.
unfoldable pub destroy : Ptr → Memory ℕ → Result (Memory ℕ)
unfolding delete_if
destroy x m = delete_if x m

-- The copy constructor of TestCopyDeleteWithDeepCopy; its `new` returns `x`.
unfoldable pub deep_copy : Ptr → Ptr → Memory ℕ → Result (Memory ℕ)
unfolding new read write
deep_copy x other m =
    let m' = new x 0 m in if other == null then done m' else do v ← read other m'; write x v m'

-- The parameter `tp` is a copy that has the same pointer.
unfoldable pub test_value_copy : Ptr → Memory ℕ → Result (Memory ℕ)
unfolding add_100 destroy
test_value_copy x m = do m' ← add_100 x m; destroy x m'

-- The parameter `tp` is a deep copy, with `copy`.
unfoldable pub test_value_copy_in_deep : Ptr → Ptr → Memory ℕ → Result (Memory ℕ)
unfolding add_100 destroy deep_copy
test_value_copy_in_deep copy x m = do m1 ← deep_copy copy x m; m2 ← add_100 copy m1; destroy copy m2

unfoldable pub test_ref_copy : Ptr → Memory ℕ → Result (Memory ℕ)
unfolding add_100
test_ref_copy x m = add_100 x m

-- `main`, with what its `new`s return; at its end `td` is destroyed and then `t`.
unfoldable pub main : Ptr → Ptr → Ptr → Memory ℕ → Result (Memory ℕ)
unfolding new test_ref_copy test_value_copy_in_deep destroy
main t copy td m = do
  m1 ← test_ref_copy t (new t 101 m)
  m2 ← test_value_copy_in_deep copy td (new td 1010 m1)
  m3 ← destroy td m2
  destroy t m3

add_100-some :
    (x : Ptr) (v : ℕ) (m : Memory ℕ)
    → m x ≡ some v
    → v + 100 < int_limit
    → add_100 x m ≡ done (put x (some (v + 100)) m)
unfolding add_100
add_100-some x v m h b =
    let e : ltb (v + 100) int_limit ≡ true = ground (arith, b) in
    rw (read-some x v m h, e) (write-some x v (v + 100) m h)

-- Where an object's pointer is passed on by value, the copy's end has freed it: the object's own
-- destructor is then undefined.
value_copy_frees_twice :
    (x : Ptr) (v : ℕ) (m : Memory ℕ)
    → x ≢ null
    → m x ≡ some v
    → v + 100 < int_limit
    → (m' : Memory ℕ) × (test_value_copy x m ≡ done m') × (destroy x m' ≡ fault)
unfolding test_value_copy destroy
value_copy_frees_twice x v m n h b =
    let m1 = put x (some (v + 100)) m in
    (
      put x none m1,
      rw (add_100-some x v m h b) (delete_if-some x (v + 100) m1 n (put_same x _ m)),
      delete_if-delete x _ ∙ delete-none x (put x none m1) n (put_same x none m1),
    )

deep_copy-some :
    (copy x : Ptr) (v : ℕ) (m : Memory ℕ)
    → x ≢ null
    → x ≢ copy
    → m x ≡ some v
    → deep_copy copy x m ≡ done (put copy (some v) (put copy (some 0) m))
unfolding deep_copy new
deep_copy-some copy x v m n d h =
    let e : (x == null) ≡ false = ground (arith, n) in
    let m1 = put copy (some 0) m in
    rw (e, read-some x v m1 (put_other copy x (some 0) m d ∙ h))
      (write-some copy 0 v m1 (put_same copy _ m))

put_thrice_undone :
    (p : Ptr) (m : Memory ℕ) (u v w : Option ℕ) (j : Ptr)
    → m p ≡ none
    → put p none (put p u (put p v (put p w m))) j ≡ m j
unfolding put
put_thrice_undone p m u v w j h = elim (Bool-cases (j == p)) [
  | inl e ↦ rw e (sym (ap m ((==_iff j p).0 e) ∙ h))
  | inr e ↦ rw e refl
]

-- Where a deep copy is passed on, and its block is a fresh one: the call leaves all memory as it was.
pub deep_copy_leaves_memory :
    (copy x : Ptr) (v : ℕ) (m : Memory ℕ)
    → copy ≢ null
    → m copy ≡ none
    → x ≢ null
    → m x ≡ some v
    → v + 100 < int_limit
    → (m' : Memory ℕ) × (test_value_copy_in_deep copy x m ≡ done m') × ((j : Ptr) → m' j ≡ m j)
unfolding test_value_copy_in_deep destroy
deep_copy_leaves_memory copy x v m c f n h b =
    let apart : x ≢ copy = λ e. cc (sym h ∙ ap m e ∙ f) in
    let m2 = put copy (some v) (put copy (some 0) m) in
    let m3 = put copy (some (v + 100)) m2 in
    (
      put copy none m3,
      rw
          (
            deep_copy-some copy x v m n apart h,
            add_100-some copy v m2 (put_same copy (some v) (put copy (some 0) m)) b,
          )
          (delete_if-some copy (v + 100) m3 c (put_same copy _ m2)),
      λ j. put_thrice_undone copy m (some (v + 100)) (some v) (some 0) j f,
    )

both_undone :
    (p q : Ptr) (m m' : Memory ℕ) (u v w : Option ℕ) (j : Ptr)
    → m p ≡ none
    → m q ≡ none
    → m' j ≡ put q u (put p v (put p w m)) j
    → put p none (put q none m') j ≡ m j
unfolding put
both_undone p q m m' u v w j h k e = elim (Bool-cases (j == p)) [
  | inl a ↦ rw a (sym (ap m ((==_iff j p).0 a) ∙ h))
  | inr a ↦ elim (Bool-cases (j == q)) [
    | inl b ↦ rw (a, b) (sym (ap m ((==_iff j q).0 b) ∙ k))
    | inr b ↦ rw (a, b) (rw (a, b) at e)
  ]
]

-- `main`, where its three blocks are fresh: it runs to its end without a fault, and leaves all memory as
-- it was, so that each block is freed once.
pub main_leaves_memory :
    (t copy td : Ptr) (m : Memory ℕ)
    → (t ≢ null) × (copy ≢ null) × (td ≢ null)
    → (t ≢ td) × (copy ≢ t) × (copy ≢ td)
    → (m t ≡ none) × (m copy ≡ none) × (m td ≡ none)
    → (m' : Memory ℕ) × (main t copy td m ≡ done m') × ((j : Ptr) → m' j ≡ m j)
unfolding main test_ref_copy new destroy
main_leaves_memory t copy td m (nt, nc, nd) (d1, d2, d3) (ft, fc, fd) =
    let m1 = put t (some 101) m in
    let m2 = put t (some 201) m1 in
    let m3 = put td (some 1010) m2 in
    let free : m3 copy ≡ none =
      put_other td copy (some 1010) m2 d3
      ∙ (put_other t copy (some 201) m1 d2 ∙ (put_other t copy (some 101) m d2 ∙ fc)) in
    let (m4, e, same) =
      deep_copy_leaves_memory copy td 1010 m3 nc free nd (put_same td (some 1010) m2)
        (omega arith) in
    let there : m4 td ≡ some 1010 = same td ∙ put_same td (some 1010) m2 in
    let m5 = put td none m4 in
    let here : m5 t ≡ some 201 =
      put_other td t none m4 d1
      ∙ (same t ∙ (put_other td t (some 1010) m2 d1 ∙ put_same t (some 201) m1)) in
    (
      put t none m5,
      rw
          (
            add_100-some t 101 m1 (put_same t (some 101) m) (omega arith),
            e,
            delete_if-some td 1010 m4 nd there,
          )
          (delete_if-some t 201 m5 nt here),
      λ j. both_undone t td m m4 (some 1010) (some 201) (some 101) j ft fd (same j),
    )
