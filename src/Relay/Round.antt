-- ===== src/Relay/Round.antt =====
-- A round of the relay, and any number of them, keep the invariant.
use ukgoll_github_io.Prelude.{
  ℕ, ◌-◌, ◌≤◌, ◌<◌, ◌≡◌, refl, Bool, true, false, ◌||◌, List, [], ◌∷◌, ltb, length, arith,
  length-replicate, Bool-cases, inl, inr,
}
use ukgoll_github_io.Relay.Buffer.{tcp_recv_buf, tcp_send_buf, pending}
use ukgoll_github_io.Relay.State.{
  ReadResult, got, read_block, read_error, WriteResult, took, Flags, PollSet, PollResult,
  poll_eintr, poll_error, poll_timeout, ready, Answers, Client, log, Outcome, go_on, next_round,
  break_loop, exit_failure, ◌>>=◌, last, initial, read_stdin,
}
use ukgoll_github_io.Relay.Loop.{
  interests, stdin_answer, on_stdin, on_connect, on_socket_read, on_socket_write, on_socket,
  on_stdout, on_ready, on_poll, new_round, round, after_round, relay,
}
use ukgoll_github_io.Relay.Log.{bytes_of, IsHonest}
use ukgoll_github_io.Relay.Inv.{
  IsValid, read_stdin-IsValid, read_socket-IsValid, write_socket-IsValid, write_stdout-IsValid,
}

-- A part that may go on is followed by `f`, which may rely on `Q`.
bind-last :
    {P : Client → Type 0} (Q : Client → Type 0) (o : Outcome) (f : Client → Outcome)
    → P (last o)
    → ((c : Client) → o ≡ go_on c → Q c)
    → ((c : Client) → P c → Q c → P (last (f c)))
    → P (last (o >>= f))
bind-last Q (go_on c) f p q k = k c p (q c refl)
bind-last Q (next_round c) f p q k = p
bind-last Q (break_loop c) f p q k = p
bind-last Q (exit_failure c) f p q k = p

bytes_within :
    (r : ReadResult) (n : ℕ)
    → ((bs : List ℕ) → r ≡ got bs → length bs ≤ n)
    → length (bytes_of r) ≤ n
bytes_within (got bs) n h = h bs refl
bytes_within read_block n h = omega arith
bytes_within read_error n h = omega arith

module _ (q : Flags) (c : Client) (v : IsValid c) where
  on_stdin-IsValid :
      (read : ℕ → ReadResult)
      → ((n : ℕ) (bs : List ℕ) → read n ≡ got bs → length bs ≤ n)
      → (q.pollin ≡ true → (c.stdineof ≡ false) × (c.to.stop < tcp_recv_buf))
      → IsValid (last (on_stdin q read c))
  unfolding on_stdin
  on_stdin-IsValid read h asked = elim (Bool-cases q.pollin) [
    | inl e ↦
        let n : ℕ = tcp_recv_buf - c.to.stop in
        let (live, room) = asked e in
        rw e (
          read_stdin-IsValid c v n (omega arith) (read n) refl (bytes_within (read n) n (h n)) live)
    | inr e ↦ rw e v
  ]

  on_connect-IsValid : (err : ℕ) → IsValid (last (on_connect err c))
  unfolding on_connect
  on_connect-IsValid err = ground arith

  on_socket_read-IsValid :
      (read : ℕ → ReadResult)
      → ((n : ℕ) (bs : List ℕ) → read n ≡ got bs → length bs ≤ n)
      → c.fr.stop < tcp_send_buf
      → IsValid (last (on_socket_read read c))
  unfolding on_socket_read
  on_socket_read-IsValid read h room =
      let n : ℕ = tcp_send_buf - c.fr.stop in
      read_socket-IsValid c v n (omega arith) (read n) refl (bytes_within (read n) n (h n))

  on_socket_write-IsValid :
      (write : ℕ → WriteResult)
      → ((n wn : ℕ) → write n ≡ took wn → wn ≤ n)
      → IsValid (last (on_socket_write write c))
  unfolding on_socket_write
  on_socket_write-IsValid write h = elim (Bool-cases (ltb 0 (pending c.to))) [
    | inl e ↦
        rw e (write_socket-IsValid c v (write (pending c.to)) (ground arith) (h (pending c.to)))
    | inr e ↦ rw e v
  ]

  on_stdout-IsValid :
      (write : ℕ → WriteResult)
      → ((n wn : ℕ) → write n ≡ took wn → wn ≤ n)
      → IsValid (last (on_stdout q write c))
  unfolding on_stdout
  on_stdout-IsValid write h = elim (Bool-cases (ltb 0 (pending c.fr))) [
    | inl e ↦ elim (Bool-cases (c.can_write_out || q.pollout)) [
      | inl d ↦
          rw (d, e)
            (write_stdout-IsValid c v (write (pending c.fr)) (ground arith) (h (pending c.fr)))
      | inr d ↦ rw d v
    ]
    | inr e ↦ ground arith
  ]

  on_socket-IsValid :
      (err : ℕ) (read : ℕ → ReadResult) (write : ℕ → WriteResult)
      → ((n : ℕ) (bs : List ℕ) → read n ≡ got bs → length bs ≤ n)
      → ((n wn : ℕ) → write n ≡ took wn → wn ≤ n)
      → (q.pollin ≡ true → c.connecting ≡ false → c.fr.stop < tcp_send_buf)
      → IsValid (last (on_socket q err read write c))
  unfolding on_socket
  on_socket-IsValid err read write hr hw room = ground (
    arith,
    on_connect-IsValid err,
    on_socket_read-IsValid read hr,
    on_socket_write-IsValid write hw,
  )

stdin_answer-frame :
    (r : ReadResult) (c c' : Client)
    → stdin_answer r c ≡ go_on c'
    → (c'.fr ≡ c.fr) × (c'.connecting ≡ c.connecting)
unfolding stdin_answer
stdin_answer-frame read_block c c' e = ground arith
stdin_answer-frame read_error c c' e = ground arith
stdin_answer-frame (got []) c c' e = ground arith
stdin_answer-frame (got (x ∷ xs)) c c' e = ground arith

on_stdin-frame :
    (q : Flags) (read : ℕ → ReadResult) (c c' : Client)
    → on_stdin q read c ≡ go_on c'
    → (c'.fr ≡ c.fr) × (c'.connecting ≡ c.connecting)
unfolding on_stdin
on_stdin-frame q read c c' e =
    let n : ℕ = tcp_recv_buf - c.to.stop in
    ground (arith, stdin_answer-frame (read n) (log c (read_stdin n (read n))) c')

module _ (a : Answers) (honest : IsHonest a) (c : Client) (v : IsValid c) where
  stdin_asked :
      (p : PollSet)
      → a.polled (interests c) ≡ ready p
      → p.stdin.pollin ≡ true
      → (c.stdineof ≡ false) × (c.to.stop < tcp_recv_buf)
  unfolding interests
  stdin_asked p e on = ground (arith, honest.poll (interests c) p e)

  socket_asked :
      (p : PollSet)
      → a.polled (interests c) ≡ ready p
      → p.socket.pollin ≡ true
      → c.connecting ≡ false
      → c.fr.stop < tcp_send_buf
  unfolding interests
  socket_asked p e on up = ground (arith, honest.poll (interests c) p e)

  on_ready-IsValid :
      (p : PollSet) → a.polled (interests c) ≡ ready p → IsValid (last (on_ready p a (new_round c)))
  unfolding on_ready
  on_ready-IsValid p e =
      bind-last (λ _. Unit {0})
        (on_stdin p.stdin a.stdin_read (new_round c)
          >>= on_socket p.socket a.so_error a.socket_read a.socket_write)
        (on_stdout p.stdout a.stdout_write)
        (bind-last (λ c'. (c'.fr ≡ c.fr) × (c'.connecting ≡ c.connecting))
          (on_stdin p.stdin a.stdin_read (new_round c))
          (on_socket p.socket a.so_error a.socket_read a.socket_write)
          (on_stdin-IsValid p.stdin (new_round c) (ground arith) a.stdin_read honest.stdin_read
            (stdin_asked p e))
          (on_stdin-frame p.stdin a.stdin_read (new_round c))
          (λ c' v' same.
            on_socket-IsValid p.socket c' v' a.so_error a.socket_read a.socket_write
              honest.socket_read honest.socket_write (λ on up. ground (arith, socket_asked p e))))
        (λ _ _. tt) (λ c' v' _. on_stdout-IsValid p.stdout c' v' a.stdout_write honest.stdout_write)

  on_poll-IsValid :
      (r : PollResult) → a.polled (interests c) ≡ r → IsValid (last (on_poll r a (new_round c)))
  unfolding on_poll
  on_poll-IsValid poll_eintr e = ground arith
  on_poll-IsValid poll_error e = ground arith
  on_poll-IsValid poll_timeout e = ground arith
  on_poll-IsValid (ready p) e = on_ready-IsValid p e

  -- One round keeps the invariant, whichever way it ends.
  pub round-IsValid : IsValid (last (round a c))
  unfolding round
  round-IsValid = on_poll-IsValid (a.polled (interests c)) refl

abbrev pub AllHonest : List Answers → Type 0
AllHonest [] = Unit
AllHonest (a ∷ rest) = IsHonest a × AllHonest rest

after_round-IsValid :
    (loop : Client → Outcome) (o : Outcome)
    → ((c : Client) → IsValid c → IsValid (last (loop c)))
    → IsValid (last o)
    → IsValid (last (after_round loop o))
unfolding after_round
after_round-IsValid loop (go_on c) k v = k c v
after_round-IsValid loop (next_round c) k v = k c v
after_round-IsValid loop (break_loop c) k v = ground arith
after_round-IsValid loop (exit_failure c) k v = v

-- So do any number of rounds, with the `close` behind them.
pub relay-IsValid :
    (rounds : List Answers) (c : Client)
    → AllHonest rounds
    → IsValid c
    → IsValid (last (relay rounds c))
unfolding relay
relay-IsValid [] c h v = v
relay-IsValid (a ∷ rest) c h v =
    after_round-IsValid (relay rest) (round a c) (λ c' v'. relay-IsValid rest c' h.1 v')
      (round-IsValid a h.0 c v)

pub initial-IsValid : (connecting : Bool) → IsValid (initial connecting)
unfolding initial
initial-IsValid connecting =
    let zero_byte : ℕ = 0 in
    ground (arith, length-replicate 1024 zero_byte, length-replicate 512 zero_byte)
