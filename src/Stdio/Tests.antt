-- ===== src/Stdio/Tests.antt =====
-- Runs of dup_usage.c and fork_buff.c over a plain buffer, and the theorems at them.
use ukgoll_github_io.Prelude.{
  ℕ, ◌+◌, ◌≡◌, refl, true, false, if◌then◌else◌, leb, List, [], ◌∷◌, ◌++◌, length, append-nil,
  Bool-cases, inl, inr, arith,
}
use ukgoll_github_io.Stdio.Buffer.{Stdout}
use ukgoll_github_io.Stdio.Redirect
use ukgoll_github_io.Stdio.Redirect.{err_txt, all_ok, nothing_to_output}
use ukgoll_github_io.Stdio.Fork
use ukgoll_github_io.Stdio.Fork.{forked, line_printed_twice}

-- A buffer of 4096 bytes: what does not fit is written behind what is in it.
abbrev print_plain : List ℕ → List ℕ → List ℕ × List ℕ
print_plain text b = if leb (length b + length text) 4096 then ([], b ++ text) else (b ++ text, [])

plain : Stdout (List ℕ)
plain = record {
  fresh = [];
  pending = λ b. b;
  print = print_plain;
  size = 4096;
  fresh-pending = refl;
  print-keeps =
      λ text b h. let e : leb (length b + length text) 4096 ≡ true = ground (arith, h) in rw e refl;
  print-order = λ text b. elim (Bool-cases (leb (length b + length text) 4096)) [
    | inl e ↦ rw e refl
    | inr e ↦ rw e (append-nil (b ++ text))
  ];
}

abbrev dup_texts : Redirect.Texts
dup_texts = record {
  call_error = λ f. 33 ∷ [];
  read_from_stdin = λ bytes. 58 ∷ bytes;
  test_error = 101 ∷ 10 ∷ [];
  test_output = 111 ∷ 10 ∷ [];
}

nothing_to_output_example :
    Redirect.main plain dup_texts (all_ok (104 ∷ 105 ∷ []))
    ≡ (err_txt, 101 ∷ 10 ∷ []) ∷ (err_txt, 111 ∷ 10 ∷ []) ∷ (err_txt, 58 ∷ 104 ∷ 105 ∷ []) ∷ []
unfolding plain
nothing_to_output_example =
    nothing_to_output plain dup_texts (104 ∷ 105 ∷ []) (omega arith) (omega arith) (omega arith)
      (omega arith)

abbrev fork_texts : Fork.Texts
fork_texts = record {
  hello = 104 ∷ 10 ∷ [];
  write_error = 119 ∷ [];
  try_buff = 116 ∷ 10 ∷ [];
  flush_error = 102 ∷ [];
  fork_error = 101 ∷ [];
  summary = λ g v. g ∷ v ∷ 10 ∷ [];
}

both_processes_print :
    Fork.main plain fork_texts
      (record { write_ok = true; flush_argument = false; flush_ok = true; fork_ok = true })
    ≡ forked (104 ∷ 10 ∷ []) (116 ∷ 10 ∷ 100 ∷ 89 ∷ 10 ∷ []) (116 ∷ 10 ∷ 99 ∷ 88 ∷ 10 ∷ [])
unfolding plain
both_processes_print = line_printed_twice plain fork_texts false (omega arith) (omega arith)
