-- ===== src/PollServer/Log.antt =====
-- What the log of poll-server.c says of a descriptor, and what is echoed.
use ukgoll_github_io.Prelude.{
  ℕ, zero, suc, ◌+◌, ◌-◌, ◌<◌, ◌≡◌, refl, true, false, ◌||◌, none, some, List, [], ◌∷◌, ◌++◌, ltb,
  ◌==◌, if◌then◌else◌, length, take, replicate, arith, Bool-cases, ◌⊎◌, inl, inr, Option-cases,
}
use ukgoll_github_io.Prelude.CString.{before_zero, has_zero}
use ukgoll_github_io.PollServer.Server.{
  buf_size, PollFd, pollfd, Call, accepted, read_from, wrote, overrun, closed, strlen, buf_after,
  write_call, echo,
}

abbrev pub is : ℕ → ℕ → ℕ
is i j = if i == j then 1 else 0

-- How often a descriptor was accepted, read and closed.
abbrev pub accepts : ℕ → List Call → ℕ
accepts j [] = 0
accepts j (accepted i ∷ l) = accepts j l + is i j
accepts j (_ ∷ l) = accepts j l

abbrev pub reads : ℕ → List Call → ℕ
reads j [] = 0
reads j (read_from i ∷ l) = reads j l + is i j
reads j (_ ∷ l) = reads j l

abbrev pub closes : ℕ → List Call → ℕ
closes j [] = 0
closes j (closed i ∷ l) = closes j l + is i j
closes j (_ ∷ l) = closes j l

-- 1 where the entry has the descriptor.
abbrev pub holds : ℕ → PollFd → ℕ
holds j (pollfd none r) = 0
holds j (pollfd (some i) r) = is i j

-- 1 where the entry has the descriptor, and it is ready.
abbrev pub due : ℕ → PollFd → ℕ
due j (pollfd none r) = 0
due j (pollfd (some i) r) = if r.pollin || r.pollhup then is i j else 0

-- 1 where the entry has no descriptor.
abbrev pub free : PollFd → ℕ
free (pollfd none r) = 1
free (pollfd (some i) r) = 0

strlen_lem :
    (bs : List ℕ) (n : ℕ)
    → (strlen (bs ++ replicate n 0) ≡ none) × (has_zero bs ≡ false) × (n ≡ 0)
      ⊎ (k : ℕ) × (strlen (bs ++ replicate n 0) ≡ some k)
        × (take k (bs ++ replicate n 0) ≡ before_zero bs)
        × ((has_zero bs ≡ true) ⊎ (0 < n))
unfolding strlen
strlen_lem [] zero = inl (refl, refl, refl)
strlen_lem [] (suc n) = inr (0, refl, refl, inr (omega arith))
strlen_lem (b ∷ bs) n = elim (Bool-cases (b == 0)) [
  | inl z ↦ inr (0, rw z refl, rw z refl, inl (rw z refl))
  | inr z ↦ elim (strlen_lem bs n) [
    | inl (e, h, m) ↦ inl (rw (z, e) refl, rw z h, m)
    | inr (k, e, t, h) ↦ inr (suc k, rw (z, e) refl, rw (z, t) refl, rw z h)
  ]
]

-- What is echoed for the bytes that `read` stored: those before the first 0. Where the buffer is full
-- and no byte is 0, `strlen` runs past its end.
echo_lem :
    (d : ℕ) (bytes : List ℕ)
    → echo d bytes ≡ (
        if has_zero bytes || ltb (length bytes) buf_size
        then wrote d (before_zero bytes)
        else overrun d)
unfolding echo write_call
echo_lem d bytes = elim (strlen_lem bytes (buf_size - length bytes)) [
  | inl (e, h, m) ↦
      let full : ltb (length bytes) buf_size ≡ false = ground (arith, m) in rw (e, h, full) refl
  | inr (k, e, t, inl h) ↦ rw (e, t, h) refl
  | inr (k, e, t, inr h) ↦
      let part : ltb (length bytes) buf_size ≡ true = ground (arith, h) in
      elim (Bool-cases (has_zero bytes)) [
        | inl z ↦ rw (e, t, z) refl
        | inr z ↦ rw (e, t, z, part) refl
      ]
]

-- The call made for the bytes changes no count.
pub echo_counts :
    (d j : ℕ) (bytes : List ℕ) (l : List Call)
    → (accepts j (echo d bytes ∷ l) ≡ accepts j l)
      × (reads j (echo d bytes ∷ l) ≡ reads j l)
      × (closes j (echo d bytes ∷ l) ≡ closes j l)
unfolding echo write_call
echo_counts d j bytes l = elim (Option-cases (strlen (buf_after bytes))) [
  | inl e ↦ rw e (refl, refl, refl)
  | inr (n, e) ↦ rw e (refl, refl, refl)
]
