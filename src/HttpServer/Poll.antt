-- ===== src/HttpServer/Poll.antt =====
-- poll.h: what the server asks of a back end. The two implementations are Kqueue and Epoll.
use ukgoll_github_io.Prelude.{ℕ, ◌≡◌, Bool, true, false, ◌==◌, if◌then◌else◌, Option, none, some}

-- An address; 0 is NULL.
abbrev pub Ptr : Type 0
Ptr = ℕ

abbrev pub null : Ptr
null = 0

-- `epe`
pub data Interest : Type 0 where
  eread : Interest
  ewrite : Interest

-- What the system has registered is `K`; `add` is `poll_add` and `remove` the system call of
-- `poll_delete`, given whether the call succeeds; `none` is -1. `reading` is the pointer that a
-- readable event of a descriptor comes with.
pub record Backend (K : Type 0) : Type 0 where
  pub add : Bool → ℕ → Interest → Ptr → K → Option K
  pub remove : Bool → ℕ → K → Option K
  pub reading : K → ℕ → Option Ptr
  pub add-fails : (fd : ℕ) (i : Interest) (c : Ptr) (k : K) → add false fd i c k ≡ none
  pub add-succeeds :
      (fd : ℕ) (c : Ptr) (k : K)
      → (k' : K) × (add true fd eread c k ≡ some k')
        × ((j : ℕ) → reading k' j ≡ (if j == fd then some c else reading k j))
  pub remove-fails : (fd : ℕ) (k : K) → remove false fd k ≡ none
  pub remove-succeeds :
      (fd : ℕ) (k : K)
      → (k' : K) × (remove true fd k ≡ some k')
        × ((j : ℕ) → reading k' j ≡ (if j == fd then none else reading k j))
