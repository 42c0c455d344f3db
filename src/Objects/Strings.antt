-- ===== src/Objects/Strings.antt =====
-- codes/cplusplus/struct_copy.cpp: when the copy of a string ends, and what the assignment of a Person
-- does.
use ukgoll_github_io.Prelude.{
  ℕ, zero, suc, ◌-◌, ◌<◌, ◌≤◌, ◌≡◌, ◌≢◌, refl, sym, ap, ◌∙◌, false, none, some, List, [], ◌∷◌, ◌++◌,
  ◌==◌, length, take, take-whole, append-nil, replicate, arith,
}
use ukgoll_github_io.Prelude.CString.{until_zero, Plain, until_zero-append, until_zero-Plain}
use ukgoll_github_io.Objects.Memory.{
  Ptr, null, done, fault, Memory, put, new, put_same, put_other, read-some,
}
use ukgoll_github_io.Objects.Person.{
  from_new, Chars, Person, read_string, strncpy, delete_array, copy_name, assign, get_person3,
}

-- A string that is shorter than the array is copied as it is.
strncpy-short : (n : ℕ) (s : List ℕ) → Plain s → length s < n → until_zero (strncpy n s) ≡ some s
unfolding strncpy
strncpy-short n s v h =
    let spare : n - length s ≡ suc (n - length s - 1) = omega (arith, h) in
    rw (take-whole n s (omega (arith, h)), spare)
      (until_zero-append s (replicate (n - length s - 1) 0) v)

take-Plain : (n : ℕ) (s : List ℕ) → Plain s → Plain (take n s)
take-Plain zero s v = tt
take-Plain (suc n) [] v = tt
take-Plain (suc n) (c ∷ cs) (h, v) = (h, take-Plain n cs v)

-- Of one that is not, the copy has no 0.
strncpy-long : (n : ℕ) (s : List ℕ) → Plain s → n ≤ length s → until_zero (strncpy n s) ≡ none
unfolding strncpy
strncpy-long n s v h =
    let none_spare : n - length s ≡ 0 = omega (arith, h) in
    rw (none_spare, append-nil (take n s)) (until_zero-Plain (take n s) (take-Plain n s v))

read_string-some :
    (p : Ptr) (b : Chars) (s : List ℕ) (m : Memory Chars)
    → m p ≡ some b
    → until_zero b.chars ≡ some s
    → read_string p m ≡ done s
unfolding read_string
read_string-some p b s m h e = rw (read-some p b m h, e) refl

read_string-none :
    (p : Ptr) (b : Chars) (m : Memory Chars)
    → m p ≡ some b
    → until_zero b.chars ≡ none
    → read_string p m ≡ fault
unfolding read_string
read_string-none p b m h e = rw (read-some p b m h, e) refl

delete_array-some :
    (p : Ptr) (b : Chars) (m : Memory Chars)
    → p ≢ null
    → m p ≡ some b
    → b.origin ≡ from_new
    → delete_array p m ≡ done (put p none m)
unfolding delete_array
delete_array-some p b m n h o =
    let e : (p == null) ≡ false = ground (arith, n) in rw (e, read-some p b m h, o) refl

-- A person that has a string of its own is assigned another one's, and the new array is a fresh one: the
-- old array is freed, the new one has the other's string with a 0 behind it, and the other keeps its own.
assign_lem :
    (q : Ptr) (other p : Person) (mine theirs : Chars) (s : List ℕ) (m : Memory Chars)
    → p.name ≢ null
    → m p.name ≡ some mine
    → mine.origin ≡ from_new
    → m other.name ≡ some theirs
    → until_zero theirs.chars ≡ some s
    → p.name ≢ other.name
    → m q ≡ none
    → (m' : Memory Chars) × (assign false q other p m ≡ done (record p { name = q }, m'))
      × (m' q ≡ some (record { origin = from_new; chars = s ++ (0 ∷ []) }))
      × (m' p.name ≡ none)
      × (m' other.name ≡ some theirs)
unfolding assign copy_name new
assign_lem q other p mine theirs s m n h o k e d f =
    let m1 = put p.name none m in
    let there : m1 other.name ≡ some theirs =
      put_other p.name other.name none m (λ x. d (sym x)) ∙ k in
    let block : Chars = record { origin = from_new; chars = s ++ (0 ∷ []) } in
    (
      put q (some block) m1,
      rw (delete_array-some p.name mine m n h o, read_string-some other.name theirs s m1 there e)
          refl,
      put_same q (some block) m1,
      put_other q p.name (some block) m1 (λ x. cc (sym h ∙ ap m x ∙ f)) ∙ put_same p.name none m,
      put_other q other.name (some block) m1 (λ x. cc (sym k ∙ ap m x ∙ f)) ∙ there,
    )

-- The third person has 13 characters or more to put into an array of 13, as the program's text has: the
-- array has no 0, and to assign that person to one without a name is undefined.
person3_unterminated :
    (local q : Ptr) (text : List ℕ) (age : ℕ) (m : Memory Chars)
    → Plain text
    → 13 ≤ length text
    → let made = get_person3 local text m in
      (read_string local made.1 ≡ fault)
      × (assign false q made.0 (record { name = null; age = age }) made.1 ≡ fault)
unfolding get_person3 assign delete_array copy_name new
person3_unterminated local q text age m v h =
    let block : Chars = record { origin = from_new; chars = strncpy 13 text } in
    let bad : read_string local (put local (some block) m) ≡ fault =
      read_string-none local block (put local (some block) m) (put_same local (some block) m)
        (strncpy-long 13 text v h) in
    (bad, rw bad refl)
