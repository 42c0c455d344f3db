-- ===== src/Stdio/Buffer.antt =====
-- What dup_usage.c and fork_buff.c rely on of <stdio.h>: the buffer of stdout.
use ukgoll_github_io.Prelude.{ℕ, ◌+◌, ◌≤◌, ◌≡◌, List, [], ◌++◌, length}

-- `print` has what is written at once, and the buffer after it. A stream that is fully buffered keeps
-- what fits. `flush` and the end of the process write what is left.
pub record Stdout (B : Type 0) : Type 0 where
  pub fresh : B
  pub pending : B → List ℕ
  pub print : List ℕ → B → List ℕ × B
  pub size : ℕ
  pub fresh-pending : pending fresh ≡ []
  pub print-keeps :
      (text : List ℕ) (b : B) → length (pending b) + length text ≤ size → (print text b).0 ≡ []
  pub print-order :
      (text : List ℕ) (b : B) → (print text b).0 ++ pending (print text b).1 ≡ pending b ++ text

module _ {B : Type 0} (stdio : Stdout B) where
  -- A text that fits is kept behind what is in the buffer.
  pub print-kept :
      (text : List ℕ) (b : B)
      → length (stdio.pending b) + length text ≤ stdio.size
      → stdio.pending (stdio.print text b).1 ≡ stdio.pending b ++ text
  print-kept text b h = rw (stdio.print-keeps text b h) at (stdio.print-order text b)
