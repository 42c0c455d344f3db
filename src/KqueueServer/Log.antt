-- ===== src/KqueueServer/Log.antt =====
-- What the log of no_block_server.c says.
use ukgoll_github_io.Prelude.{ℕ, ◌+◌, [], ◌∷◌, ◌==◌, if◌then◌else◌}
use ukgoll_github_io.KqueueServer.Server.{Ptr, allocated, freed, closed, wrote, Log}

abbrev pub is : ℕ → ℕ → ℕ
is i j = if i == j then 1 else 0

-- How often a block was allocated and freed, and a descriptor closed and written to.
abbrev pub allocs : Ptr → Log → ℕ
allocs p [] = 0
allocs p (allocated q ∷ l) = allocs p l + is q p
allocs p (_ ∷ l) = allocs p l

abbrev pub frees : Ptr → Log → ℕ
frees p [] = 0
frees p (freed q ∷ l) = frees p l + is q p
frees p (_ ∷ l) = frees p l

abbrev pub closes : ℕ → Log → ℕ
closes j [] = 0
closes j (closed i ∷ l) = closes j l + is i j
closes j (_ ∷ l) = closes j l

abbrev pub writes : ℕ → Log → ℕ
writes j [] = 0
writes j (wrote i n ∷ l) = writes j l + is i j
writes j (_ ∷ l) = writes j l
