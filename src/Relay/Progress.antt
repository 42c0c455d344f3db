-- ===== src/Relay/Progress.antt =====
-- The relay waits for something in every round, and gets rid of what it holds.
use ukgoll_github_io.Prelude.{
  if◌then◌else◌, ◌<◌, ℕ, zero, suc, ◌+◌, ◌-◌, ◌≤◌, ◌≡◌, refl, Bool, true, false, ◌||◌, List, [],
  ◌∷◌, ltb, length, ◌∙◌, arith, sym, append-nil,
}
use ukgoll_github_io.Relay.Buffer.{pending, contents, drain}
use ukgoll_github_io.Relay.State.{
  poll_timeout, took, PollSet, Flags, no_flags, ready, Answers, Client, go_on, last, ◌>>=◌, log,
  write_socket,
}
use ukgoll_github_io.Relay.Loop.{
  interests, on_stdin, on_socket, on_socket_write, socket_write_answer, on_stdout, on_ready,
  on_poll, new_round, round, relay, after_round,
}
use ukgoll_github_io.Relay.Log.{shutdowns, sent_bytes, stdin_bytes}
use ukgoll_github_io.Relay.Inv.{IsValid}
use ukgoll_github_io.Relay.Round.{AllHonest, relay-IsValid}

abbrev pub any_flag : Flags → Bool
any_flag f = f.pollin || f.pollout

-- In a valid state the loop asks `poll` for at least one event; and once it is connected it asks to
-- write to the socket exactly when bytes wait in `to`, and to standard output exactly when bytes
-- wait in `fr`.
interests_live :
    (c : Client)
    → IsValid c
    → ((any_flag (interests c).stdin
          || (any_flag (interests c).socket || any_flag (interests c).stdout))
        ≡ true)
      × (c.connecting ≡ false → (interests c).socket.pollout ≡ ltb 0 (pending c.to))
      × (c.connecting ≡ false → (interests c).stdout.pollout ≡ ltb 0 (pending c.fr))
unfolding interests
interests_live c v = (ground arith, ground arith, ground arith)

-- Only the bit POLLOUT of the socket.
abbrev pub socket_writable : PollSet
socket_writable = record {
  stdin = no_flags;
  socket = record { pollin = false; pollout = true };
  stdout = no_flags;
}

-- A round in which `poll` reports that the socket can be written, if that was asked, and nothing
-- else, and a write takes some bytes.
pub record IsWritable (a : Answers) : Type 0 where
  pub polled :
      (p : PollSet)
      → a.polled p ≡ (if p.socket.pollout then ready socket_writable else poll_timeout)
  pub takes : (n : ℕ) → (wn : ℕ) × (a.socket_write (n + 1) ≡ took (wn + 1)) × (wn ≤ n)

abbrev pub AllWritable : List Answers → Type 0
AllWritable [] = Unit
AllWritable (a ∷ rest) = IsWritable a × AllWritable rest

-- What such a round does to a connected state.
pub record Drained (c c' : Client) : Type 0 where
  pub ordered : c'.to.start ≤ c'.to.stop
  pub less : pending c'.to ≤ pending c.to - 1
  pub linked : c'.connecting ≡ false
  pub ended : c'.stdineof ≡ c.stdineof

module _ (a : Answers) (c : Client) (w : IsWritable a) (up : c.connecting ≡ false) where
  round_empty : pending c.to ≡ 0 → c.to.start ≤ c.to.stop → round a c ≡ go_on (new_round c)
  unfolding round on_poll interests
  round_empty e o = ground (arith, w.polled (interests c))

  round_writable :
      0 < pending c.to
      → round a c
        ≡ (on_socket_write a.socket_write (new_round c) >>= on_stdout no_flags a.stdout_write)
  unfolding round on_poll on_ready on_stdin on_socket
  round_writable full = rw (w.polled (interests c), asked full, up) refl
    where
      asked : 0 < pending c.to → (interests c).socket.pollout ≡ true
      asked full = unfold interests in ground arith

  after_write : ℕ → Client
  after_write wn =
      last
        (socket_write_answer (took wn) (log (new_round c) (write_socket (contents c.to) (took wn))))

  round_taking :
      (n wn : ℕ)
      → pending c.to ≡ n + 1
      → a.socket_write (n + 1) ≡ took wn
      → round a c ≡ go_on (after_write wn)
  unfolding on_socket_write on_stdout socket_write_answer after_write
  round_taking n wn e t = round_writable (omega arith) ∙ rw (e, t) (ground arith)

  after_write-Drained : (wn : ℕ) → wn + 1 ≤ pending c.to → Drained c (after_write (wn + 1))
  unfolding socket_write_answer after_write drain
  after_write-Drained wn h = ground arith

  drains_from :
      (n : ℕ)
      → pending c.to ≡ n
      → c.to.start ≤ c.to.stop
      → (c' : Client) × (round a c ≡ go_on c') × Drained c c'
  drains_from zero e o = (new_round c, round_empty e o, ground arith)
  drains_from (suc n) e o =
      let (wn, t, le) = w.takes n in
      (
        after_write (wn + 1),
        round_taking n (wn + 1) (omega arith) t,
        after_write-Drained wn (omega arith),
      )

relay_drains :
    (rounds : List Answers) (c : Client)
    → AllWritable rounds
    → c.connecting ≡ false
    → c.to.start ≤ c.to.stop
    → pending c.to ≤ length rounds
    → (pending (last (relay rounds c)).to ≡ 0) × ((last (relay rounds c)).stdineof ≡ c.stdineof)
unfolding relay after_round
relay_drains [] c w up o h = (omega arith, refl)
relay_drains (a ∷ rest) c w up o h =
    let (c', e, d) = drains_from a c w.0 up (pending c.to) refl o in
    let (empty, same) = relay_drains rest c' w.1 d.linked d.ordered (omega (arith, d.less)) in
    rw e (empty, same ∙ d.ended)

drained_once :
    (c : Client) → IsValid c → pending c.to ≡ 0 → c.stdineof ≡ true → shutdowns c.calls ≡ 1
drained_once c v empty ended = ground (arith, v.shut)

-- Once standard input has ended and the client is connected, in a valid state: as many rounds as
-- there are bytes in `to`, in each of which `poll` reports just that the socket can be written and
-- the write takes at least one byte, send all of them and shut the sending side down, once.
pub relay_flushes :
    (rounds : List Answers) (c : Client)
    → AllHonest rounds
    → AllWritable rounds
    → IsValid c
    → c.connecting ≡ false
    → c.stdineof ≡ true
    → pending c.to ≤ length rounds
    → (sent_bytes (last (relay rounds c)).calls ≡ stdin_bytes (last (relay rounds c)).calls)
      × (shutdowns (last (relay rounds c)).calls ≡ 1)
relay_flushes rounds c honest w v up ended h =
    let (empty, same) = relay_drains rounds c w up v.to_fits.ordered h in
    let v' = relay-IsValid rounds c honest v in
    (
      sym (v'.to_order ∙ rw empty (append-nil _)),
      drained_once (last (relay rounds c)) v' empty (same ∙ ended),
    )
