-- ===== src/Objects/Tests.antt =====
-- Runs of class_copy_delete.cpp, class_copy_usage.cpp and struct_copy.cpp, and the theorems at them.
use ukgoll_github_io.Prelude.{
  ℕ, ◌≡◌, refl, Option, none, some, true, false, ◌==◌, List, [], ◌∷◌, arith,
}
use ukgoll_github_io.Objects.Memory.{Ptr, Result, done, fault, Memory}
use ukgoll_github_io.Objects.Copies
use ukgoll_github_io.Objects.Copies.{test_value_copy, destroy, main_leaves_memory}
use ukgoll_github_io.Objects.CopyClass
use ukgoll_github_io.Objects.CopyClass.{value, copy_called, value_in_copy, destructor_called, Line}
use ukgoll_github_io.Objects.Person
use ukgoll_github_io.Objects.Person.{
  Chars, Person, from_new, literal, assign, read_string, get_person3,
}

abbrev no_memory {ℓ} : {A : Type ℓ} → Ptr → Option A
no_memory p = none

main_leaves_memory_example :
    (m' : Memory ℕ) × (Copies.main 1 2 3 no_memory ≡ done m') × ((j : Ptr) → m' j ≡ none)
main_leaves_memory_example =
    main_leaves_memory 1 2 3 no_memory (omega arith, omega arith, omega arith)
      (omega arith, omega arith, omega arith) (refl, refl, refl)

abbrev one_block : Memory ℕ
one_block p = elim (p == 1) [ true ↦ some 101 | false ↦ none ]

-- What class_copy_usage.cpp prints.
abbrev lines_of : Result (List Line × Memory ℕ) → List Line
lines_of (done (ls, m)) = ls
lines_of fault = []

printed :
    lines_of (CopyClass.main [] 1 2 no_memory)
    ≡ value 42
      ∷ copy_called
      ∷ value_in_copy 43
      ∷ destructor_called 43
      ∷ value 42
      ∷ destructor_called 42
      ∷ []
unfolding CopyClass.main
printed = refl

-- "hi" in the array of one person, "ukgoll" with more behind it in the other's.
abbrev mine : Chars
mine = record { origin = from_new; chars = 104 ∷ 105 ∷ 0 ∷ [] }

abbrev theirs : Chars
theirs = record { origin = literal; chars = 117 ∷ 107 ∷ 0 ∷ 99 ∷ 0 ∷ [] }

abbrev two_names : Memory Chars
two_names p = elim (p == 1) [
  | true ↦ some mine
  | false ↦ elim (p == 2) [ true ↦ some theirs | false ↦ none ]
]

abbrev owner : Person
owner = record { name = 1; age = 10 }

abbrev borrower : Person
borrower = record { name = 2; age = 20 }

-- "local person3"
abbrev person3_text : List ℕ
person3_text = 108 ∷ 111 ∷ 99 ∷ 97 ∷ 108 ∷ 32 ∷ 112 ∷ 101 ∷ 114 ∷ 115 ∷ 111 ∷ 110 ∷ 51 ∷ []

-- `main` of struct_copy.cpp comes to no end.
main_faults : Person.main 7 1 2 3 person3_text two_names ≡ fault
unfolding Person.main
main_faults = refl
