-- ===== src/Relay/Buffer.antt =====
-- The arrays `to` and `fr` of no_blocking_tcp_client.c with their two pointers each, as indices.
use ukgoll_github_io.Prelude.{
  ℕ, ◌+◌, ◌-◌, ◌≤◌, ◌<◌, ◌≡◌, refl, ◌∙◌, ap, ◌⊎◌, List, ◌++◌, ◌==◌, if◌then◌else◌, arith, length,
  take, drop, overwrite, length-take, length-drop, length-overwrite, take-add, drop-add, take-take,
  take-overwrite, drop-overwrite, Bool-cases, inl, inr, append-nil,
}

-- `mem` is `to`, `start` is `to_sptr - to`, and `stop` is `to_eptr - to`.
pub record Buffer : Type 0 where
  pub mem : List ℕ
  pub start : ℕ
  pub stop : ℕ

-- The size of `to`.
abbrev pub tcp_recv_buf : ℕ
tcp_recv_buf = 1024

-- The size of `fr`.
abbrev pub tcp_send_buf : ℕ
tcp_send_buf = 512

-- `to_eptr - to_sptr`
abbrev pub pending : Buffer → ℕ
pending b = b.stop - b.start

-- The bytes between the two pointers.
abbrev pub contents : Buffer → List ℕ
contents b = take (pending b) (drop b.start b.mem)

-- `read` stored `bytes` at the end pointer, which moves on.
unfoldable pub fill : Buffer → List ℕ → Buffer
fill b bytes = record b { mem = overwrite b.mem b.stop bytes; stop = b.stop + length bytes }

-- `write` took `wn` bytes; both pointers go back to the front once they meet.
unfoldable pub drain : Buffer → ℕ → Buffer
drain b wn =
    if b.start + wn == b.stop
    then record b { start = 0; stop = 0 }
    else record b { start = b.start + wn }

-- The pointers lie in the array in order, and an empty buffer starts at the front.
pub record Fits (cap : ℕ) (b : Buffer) : Type 0 where
  pub size : length b.mem ≡ cap
  pub ordered : b.start ≤ b.stop
  pub bounded : b.stop ≤ cap
  pub rewound : (b.start < b.stop) ⊎ (b.stop ≡ 0)

module _ {cap : ℕ} (b : Buffer) (f : Fits cap b) where
  pub fill-Fits :
      (bytes : List ℕ) → 0 < length bytes → length bytes ≤ cap - b.stop → Fits cap (fill b bytes)
  unfolding fill
  fill-Fits bytes some_read fits = omega (arith, length-overwrite b.mem b.stop bytes)

  pub drain-Fits : (wn : ℕ) → 0 < pending b → wn ≤ pending b → Fits cap (drain b wn)
  unfolding drain
  drain-Fits wn full fits = ground arith

  pub contents-fill :
      (bytes : List ℕ) → length bytes ≤ cap - b.stop → contents (fill b bytes) ≡ contents b ++ bytes
  unfolding fill
  contents-fill bytes fits =
      ap (take (b.stop + length bytes - b.start))
        (drop-overwrite b.start (pending b) b.stop b.mem bytes (omega arith))
      ∙ take-overwrite (pending b) (b.stop + length bytes - b.start) (drop b.start b.mem) bytes
          (omega arith) (omega (arith, length-drop b.start b.mem))

  pub contents-drain :
      (wn : ℕ) → wn ≤ pending b → take wn (contents b) ++ contents (drain b wn) ≡ contents b
  unfolding drain
  contents-drain wn fits = elim (Bool-cases (b.start + wn == b.stop)) [
    | inl met ↦ rw met (
        append-nil _
        ∙ take-take wn (pending b) (drop b.start b.mem) fits
        ∙ ap (λ n. take n (drop b.start b.mem)) (ground arith))
    | inr left ↦
        rw
          (
            left,
            take-take wn (pending b) (drop b.start b.mem) fits,
            ← drop-add b.start wn (b.start + wn) b.mem refl,
          )
          (take-add wn (b.stop - (b.start + wn)) (pending b) (drop b.start b.mem) (omega arith))
  ]

  pub length-contents : length (contents b) ≡ pending b
  length-contents =
      omega (arith, length-take (pending b) (drop b.start b.mem), length-drop b.start b.mem)
