-- ===== src/Objects/Person.antt =====
-- codes/cplusplus/struct_copy.cpp: struct Person, which owns a string that it may not have allocated.
use ukgoll_github_io.Prelude.{
  ℕ, ◌-◌, ◌^◌, Bool, false, none, List, [], ◌∷◌, ◌++◌, ◌==◌, if◌then◌else◌, length, take, replicate,
}
use ukgoll_github_io.Prelude.CString.{until_zero}
use ukgoll_github_io.Objects.Memory.{
  Ptr, null, Result, done, fault, ◌>>=◌, or_fault, Memory, put, new, read,
}

-- Where an array of characters lives: `delete[]` is for those that `new` made.
pub data Origin : Type 0 where
  from_new : Origin
  literal : Origin

pub record Chars : Type 0 where
  pub origin : Origin
  pub chars : List ℕ

-- An int is its bit pattern.
pub record Person : Type 0 where
  pub name : Ptr
  pub age : ℕ

-- What `strlen`, `strcpy` and `<<` read of a string.
unfoldable pub read_string : Ptr → Memory Chars → Result (List ℕ)
unfolding read until_zero
read_string p m = do b ← read p m; or_fault (until_zero b.chars)

-- `strncpy` of a string into an array of `n`.
unfoldable pub strncpy : ℕ → List ℕ → List ℕ
strncpy n s = take n s ++ replicate (n - length s) 0

unfoldable pub delete_array : Ptr → Memory Chars → Result (Memory Chars)
unfolding read put
delete_array p m =
    if p == null
    then done m
    else do b ← read p m; elim (b.origin) [ from_new ↦ done (put p none m) | literal ↦ fault ]

-- `name = new char[strlen(other.name) + 1]` and `strcpy`; the `new` returns `q`.
unfoldable pub copy_name : Ptr → Person → Person → Memory Chars → Result (Person × Memory Chars)
unfolding read_string new
copy_name q other p m = do
  s ← read_string other.name m
  done (record p { name = q }, new q (record { origin = from_new; chars = s ++ (0 ∷ []) }) m)

-- `operator=`; `same` is whether `other` is the object itself.
unfoldable pub assign : Bool → Ptr → Person → Person → Memory Chars → Result (Person × Memory Chars)
unfolding delete_array copy_name
assign same q other p m =
    if same then done (p, m) else do m' ← delete_array p.name m; copy_name q other p m'

-- `vzgoll` is the address of the literal.
unfoldable pub get_person : Ptr → Person
get_person vzgoll = record { name = vzgoll; age = 100 }

-- `local` is an array on the stack, which is gone when the function has returned.
unfoldable pub get_person2 : Ptr → Memory Chars → Person × Memory Chars
unfolding put
get_person2 local m = (record { name = local; age = 2 ^ 32 - 100 }, put local none m)

-- With the 13 characters of "local person3".
unfoldable pub get_person3 : Ptr → List ℕ → Memory Chars → Person × Memory Chars
unfolding new strncpy
get_person3 local text m = (
  record { name = local; age = 0 },
  new local (record { origin = from_new; chars = strncpy 13 text }) m,
)

-- `main` up to the first use of `p4.name`, with the text of the third person.
unfoldable pub main : Ptr → Ptr → Ptr → Ptr → List ℕ → Memory Chars → Result (List ℕ)
unfolding get_person get_person2 get_person3 assign read_string
main vzgoll local2 local3 q text m = do
  name1 ← read_string (get_person vzgoll).name m
  let (p2, m2) = get_person2 local2 m
  name2 ← read_string p2.name m2
  let (p3, m3) = get_person3 local3 text m2
  name3 ← read_string p3.name m3
  (p4, m4) ← assign false q p3 (record { name = null; age = 400 }) m3
  name4 ← read_string p4.name m4
  done (name1 ++ (name2 ++ (name3 ++ name4)))
