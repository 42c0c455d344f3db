-- ===== src/Relay/Modes.antt =====
-- no_blocking_tcp_client.c: which descriptors block in the loop and after the end.
use ukgoll_github_io.Prelude.{
  ℕ, ◌≡◌, ◌≢◌, refl, subst, Bool, true, false, ◌&&◌, ◌==◌, ==_iff, if◌then◌else◌, none, some, ◌∙◌,
  ◌⊎◌, Option-cases, Bool-cases, inl, inr, arith,
}
use ukgoll_github_io.Relay.Setup.{
  Files, with_nonblock, Fcntl, set_no_blocking, set_blocking, on_exit, Parsed, address, invalid,
  parse_error, Connected, connected, in_progress, connect_error, RelaySetup, Prepared, loop, exits,
  connect_answer, no_block, with_socket, prepare,
}

with_nonblock_same : (b : Bool) (f : ℕ) (files : Files) → (with_nonblock b f files f).nonblock ≡ b
with_nonblock_same b f files = let e : (f == f) ≡ true = (==_iff f f).1 refl in rw e refl

with_nonblock_kept :
    (b : Bool) (f g : ℕ) (files : Files)
    → (files g).nonblock ≡ b
    → (with_nonblock b f files g).nonblock ≡ b
with_nonblock_kept b f g files h = elim (Bool-cases (g == f)) [ inl e ↦ rw e refl | inr e ↦ rw e h ]

with_nonblock_other :
    (b : Bool) (f g : ℕ) (files : Files) → g ≢ f → with_nonblock b f files g ≡ files g
with_nonblock_other b f g files h = let e : (g == f) ≡ false = ground (arith, h) in rw e refl

-- In the loop the three descriptors do not block.
abbrev NonBlocking : ℕ → ℕ → Prepared → Type 0
NonBlocking stdin stdout (loop socket cn files) =
    ((files stdin).nonblock ≡ true)
    × ((files socket).nonblock ≡ true)
    × ((files stdout).nonblock ≡ true)
NonBlocking stdin stdout (exits files) = Unit

connect_answer-NonBlocking :
    (c : Connected) (stdin stdout socket : ℕ) (files : Files)
    → (files stdin).nonblock ≡ true
    → (files socket).nonblock ≡ true
    → (files stdout).nonblock ≡ true
    → NonBlocking stdin stdout (connect_answer c socket files)
unfolding connect_answer
connect_answer-NonBlocking connected stdin stdout socket files a b c = (a, b, c)
connect_answer-NonBlocking in_progress stdin stdout socket files a b c = (a, b, c)
connect_answer-NonBlocking connect_error stdin stdout socket files a b c = tt

set_no_blocking-cases :
    (a : Fcntl) (f : ℕ) (files : Files)
    → (set_no_blocking a f files ≡ none)
      ⊎ (set_no_blocking a f files ≡ some (with_nonblock true f files))
unfolding set_no_blocking
set_no_blocking-cases a f files = elim (Bool-cases a.get_ok) [
  | inr e ↦ inl (rw e refl)
  | inl e ↦ elim (Bool-cases a.set_ok) [
    | inr g ↦ inl (rw (e, g) refl)
    | inl g ↦ inr (rw (e, g) refl)
  ]
]

no_block-NonBlocking :
    (a : RelaySetup) (stdin stdout socket : ℕ) (files : Files)
    → NonBlocking stdin stdout (no_block a stdin stdout socket files)
unfolding no_block
no_block-NonBlocking a stdin stdout socket files =
    let files1 = with_nonblock true stdin files in
    let files2 = with_nonblock true socket files1 in
    let files3 = with_nonblock true stdout files2 in
    elim (set_no_blocking-cases a.stdin_fcntl stdin files) [
      | inl e ↦ rw (e, no_block) tt
      | inr e ↦ elim (set_no_blocking-cases a.socket_fcntl socket files1) [
        | inl f ↦ rw (e, f, no_block) tt
        | inr f ↦ elim (set_no_blocking-cases a.stdout_fcntl stdout files2) [
          | inl g ↦ rw (e, f, g, no_block) tt
          | inr g ↦
              rw (e, f, g, no_block)
                (connect_answer-NonBlocking a.connect stdin stdout socket files3
                  (with_nonblock_kept true stdout stdin files2 (
                    with_nonblock_kept true socket stdin files1
                      (with_nonblock_same true stdin files)))
                  (with_nonblock_kept true stdout socket files2
                    (with_nonblock_same true socket files1))
                  (with_nonblock_same true stdout files2))
        ]
      ]
    ]

with_socket-NonBlocking :
    (a : RelaySetup) (stdin stdout socket : ℕ) (files : Files)
    → NonBlocking stdin stdout (with_socket a stdin stdout socket files)
unfolding with_socket
with_socket-NonBlocking a stdin stdout socket files = elim (Bool-cases (a.port == 0)) [
  | inl e ↦ rw e tt
  | inr e ↦ rw e (go (a.inet_pton))
]
  where
    go :
        (p : Parsed)
        → NonBlocking stdin stdout (elim p [
          | parse_error ↦ exits files
          | invalid ↦ exits files
          | address ↦
              if a.recv_buf_ok && a.send_buf_ok
              then no_block a stdin stdout socket files
              else exits files
        ])
    go parse_error = tt
    go invalid = tt
    go address = elim (Bool-cases (a.recv_buf_ok && a.send_buf_ok)) [
      | inl e ↦ rw e (no_block-NonBlocking a stdin stdout socket files)
      | inr e ↦ rw e tt
    ]

prepare-NonBlocking :
    (a : RelaySetup) (stdin stdout : ℕ) (files : Files)
    → NonBlocking stdin stdout (prepare a stdin stdout files)
unfolding prepare
prepare-NonBlocking a stdin stdout files = elim (Bool-cases (a.argc == 3)) [
  | inr e ↦ rw e tt
  | inl e ↦ elim (Option-cases a.socket) [
    | inl f ↦ rw (e, f) tt
    | inr (socket, f) ↦ rw (e, f) (with_socket-NonBlocking a stdin stdout socket files)
  ]
]

set_blocking-ok :
    (a : Fcntl) (f : ℕ) (files : Files)
    → a.get_ok ≡ true
    → a.set_ok ≡ true
    → set_blocking a f files ≡ some (with_nonblock false f files)
unfolding set_blocking
set_blocking-ok a f files g s = rw (g, s) refl

on_exit-ok :
    (b c : Fcntl) (stdin stdout : ℕ) (files : Files)
    → (b.get_ok ≡ true) × (b.set_ok ≡ true)
    → (c.get_ok ≡ true) × (c.set_ok ≡ true)
    → on_exit b c stdin stdout files ≡ with_nonblock false stdout (with_nonblock false stdin files)
unfolding on_exit
on_exit-ok b c stdin stdout files (b1, b2) (c1, c2) =
    rw
      (
        set_blocking-ok b stdin files b1 b2,
        set_blocking-ok c stdout (with_nonblock false stdin files) c1 c2,
        on_exit,
      )
      refl

-- Where the loop is entered, none of the three descriptors blocks, also where two of them have one open
-- file. At the end, where the calls of `fcntl` in `on_exit` succeed, standard input and standard output
-- block, whichever way it came to that end, and every other file has the flags that it had.
pub blocks_only_outside :
    (a : RelaySetup) (b c : Fcntl) (stdin stdout socket g : ℕ) (cn : Bool)
    (files entered last : Files)
    → prepare a stdin stdout files ≡ loop socket cn entered
    → (b.get_ok ≡ true) × (b.set_ok ≡ true)
    → (c.get_ok ≡ true) × (c.set_ok ≡ true)
    → g ≢ stdin
    → g ≢ stdout
    → ((entered stdin).nonblock ≡ true)
      × ((entered socket).nonblock ≡ true)
      × ((entered stdout).nonblock ≡ true)
      × ((on_exit b c stdin stdout last stdin).nonblock ≡ false)
      × ((on_exit b c stdin stdout last stdout).nonblock ≡ false)
      × (on_exit b c stdin stdout last g ≡ last g)
blocks_only_outside a b c stdin stdout socket g cn files entered last e u v h k =
    let (p, q, r) = subst (NonBlocking stdin stdout) e (prepare-NonBlocking a stdin stdout files) in
    let at_end = on_exit-ok b c stdin stdout last u v in
    let files' = with_nonblock false stdin last in
    (
      p,
      q,
      r,
      rw at_end
          (with_nonblock_kept false stdout stdin files' (with_nonblock_same false stdin last)),
      rw at_end (with_nonblock_same false stdout files'),
      rw at_end
          (with_nonblock_other false stdout g files' k ∙ with_nonblock_other false stdin g last h),
    )
