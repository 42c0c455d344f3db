-- ===== src/Relay/Tests.antt =====
-- Runs of the relay, and its theorems at them.
use ukgoll_github_io.Prelude.{
  ℕ, ◌≤◌, ◌≡◌, refl, some, Bool, true, false, ◌&&◌, List, [], ◌∷◌, ◌++◌, length, take, min,
  if◌then◌else◌, ◌==◌, arith, length-take, subst, ap,
}
use ukgoll_github_io.Relay.Setup.{
  RelaySetup, Files, Fcntl, address, in_progress, with_nonblock, prepare, on_exit,
}
use ukgoll_github_io.Relay.Modes.{blocks_only_outside}
use ukgoll_github_io.Relay.Buffer.{tcp_recv_buf, tcp_send_buf, contents, fill, drain, Fits}
use ukgoll_github_io.Relay.State.{
  ReadResult, got, read_block, WriteResult, took, write_block, PollSet, PollResult, poll_timeout,
  ready, no_flags, Answers, Client, last, initial,
}
use ukgoll_github_io.Relay.Loop.{
  interests, relay, round, on_poll, on_ready, on_stdin, on_connect, on_socket, on_socket_read,
  on_socket_write, on_stdout, stdin_answer, socket_read_answer, socket_write_answer, stdout_answer,
  after_round,
}
use ukgoll_github_io.Relay.Log.{
  stdin_bytes, sent_bytes, socket_bytes, out_bytes, shutdowns, late_writes, empty_reads, Asked,
  IsHonest,
}
use ukgoll_github_io.Relay.Inv.{IsValid}
use ukgoll_github_io.Relay.Round.{AllHonest, relay-IsValid, initial-IsValid}
use ukgoll_github_io.Relay.Order.{relay_order, relay_shutdown, relay_bounds}
use ukgoll_github_io.Relay.Progress.{IsWritable, relay_flushes, socket_writable}

-- All that was asked for is ready, but the server sends nothing; three bytes are typed, and a write
-- takes two at most.
abbrev busy : Answers
busy = record {
  polled = λ p. ready (record p { socket = record { pollin = false; pollout = p.socket.pollout } });
  stdin_read = λ n. got (take n (1 ∷ 2 ∷ 3 ∷ []));
  so_error = 0;
  socket_read = λ n. read_block;
  socket_write = λ n. took (min n 2);
  stdout_write = λ n. took (min n 2);
}

-- The end of standard input.
abbrev at_eof : Answers
at_eof = record busy { stdin_read = λ n. got [] }

-- Only the socket can be written.
abbrev writable : Answers
writable = record busy {
  polled = λ p. if p.socket.pollout then ready socket_writable else poll_timeout;
}

-- The server has closed the connection.
abbrev hung_up : Answers
hung_up = record busy {
  polled = λ _. ready (record {
    stdin = no_flags;
    socket = record { pollin = true; pollout = false };
    stdout = no_flags;
  });
  socket_read = λ n. got [];
}

abbrev script : List Answers
script = busy ∷ busy ∷ at_eof ∷ busy ∷ busy ∷ []

script_run :
    (sent_bytes (last (relay script (initial true))).calls ≡ 1 ∷ 2 ∷ 3 ∷ [])
    × (shutdowns (last (relay script (initial true))).calls ≡ 1)
unfolding initial relay after_round round on_poll on_ready on_stdin on_connect on_socket
    on_socket_read on_socket_write on_stdout stdin_answer socket_read_answer socket_write_answer
    stdout_answer fill drain interests
script_run = (refl, refl)

revents_of : PollResult → PollSet → PollSet
revents_of (ready q) p = q
revents_of _ p = p

length_within : (n : ℕ) (l bs : List ℕ) → take n l ≡ bs → length bs ≤ n
length_within n l bs e = rw (← e) (omega (arith, length-take n l))

bytes_got : ReadResult → List ℕ
bytes_got (got bs) = bs
bytes_got _ = []

count_took : WriteResult → ℕ
count_took (took wn) = wn
count_took _ = 0

read_honest : (l : List ℕ) (n : ℕ) (bs : List ℕ) → got (take n l) ≡ got bs → length bs ≤ n
unfolding bytes_got
read_honest l n bs e = length_within n l bs (ap bytes_got e)

write_honest : (n wn : ℕ) → took (min n 2) ≡ took wn → wn ≤ n
unfolding count_took
write_honest n wn e = let f : min n 2 ≡ wn = ap count_took e in omega arith

poll_honest :
    (f : PollSet → PollSet)
    → ((p : PollSet) → Asked p (f p))
    → (p q : PollSet) → ready (f p) ≡ ready q
    → Asked p q
unfolding revents_of
poll_honest f h p q e = subst (Asked p) (ap (λ r. revents_of r p) e) (h p)

busy-IsHonest : IsHonest busy
busy-IsHonest = record {
  poll =
      poll_honest (λ p. record p { socket = record { pollin = false; pollout = p.socket.pollout } })
        (λ p. ground arith);
  stdin_read = read_honest (1 ∷ 2 ∷ 3 ∷ []);
  socket_read = λ n bs e. cc;
  socket_write = write_honest;
  stdout_write = write_honest;
}

eof_honest : (n : ℕ) (bs : List ℕ) → got [] ≡ got bs → length bs ≤ n
unfolding bytes_got
eof_honest n bs e = rw (← ap bytes_got e) (omega arith)

at_eof-IsHonest : IsHonest at_eof
at_eof-IsHonest = record {
  poll = busy-IsHonest.poll;
  stdin_read = eof_honest;
  socket_read = λ n bs e. cc;
  socket_write = write_honest;
  stdout_write = write_honest;
}

writable_poll :
    (p q : PollSet) (b : Bool)
    → p.socket.pollout ≡ b
    → (if b then ready socket_writable else poll_timeout) ≡ ready q
    → Asked p q
unfolding revents_of
writable_poll p q true on e = subst (Asked p) (ap (λ r. revents_of r p) e) (ground arith)
writable_poll p q false on e = cc

writable-IsHonest : IsHonest writable
writable-IsHonest = record {
  poll = λ p q e. writable_poll p q p.socket.pollout refl e;
  stdin_read = read_honest (1 ∷ 2 ∷ 3 ∷ []);
  socket_read = λ n bs e. cc;
  socket_write = write_honest;
  stdout_write = write_honest;
}

-- The socket takes nothing yet.
stuck-IsHonest : IsHonest (record busy { socket_write = λ n. write_block })
stuck-IsHonest = record {
  poll = busy-IsHonest.poll;
  stdin_read = read_honest (1 ∷ 2 ∷ 3 ∷ []);
  socket_read = λ n bs e. cc;
  socket_write = λ n wn e. cc;
  stdout_write = write_honest;
}

stuck_eof-IsHonest : IsHonest (record at_eof { socket_write = λ n. write_block })
stuck_eof-IsHonest = record {
  poll = busy-IsHonest.poll;
  stdin_read = eof_honest;
  socket_read = λ n bs e. cc;
  socket_write = λ n wn e. cc;
  stdout_write = write_honest;
}

script-AllHonest : AllHonest script
script-AllHonest =
    (busy-IsHonest, (busy-IsHonest, (at_eof-IsHonest, (busy-IsHonest, (busy-IsHonest, tt)))))

relay_order_example :
    let c = last (relay script (initial true)) in
    (stdin_bytes c.calls ≡ sent_bytes c.calls ++ contents c.to)
    × (socket_bytes c.calls ≡ out_bytes c.calls ++ contents c.fr)
relay_order_example = relay_order true script script-AllHonest

relay_shutdown_example :
    let c = last (relay script (initial true)) in
    (shutdowns c.calls ≡ (if c.stdineof && (c.to.start == c.to.stop) then 1 else 0))
    × (late_writes c.calls ≡ 0)
relay_shutdown_example = relay_shutdown true script script-AllHonest

relay_bounds_example :
    let c = last (relay script (initial true)) in
    Fits tcp_recv_buf c.to × Fits tcp_send_buf c.fr × (empty_reads c.calls ≡ 0)
relay_bounds_example = relay_bounds true script script-AllHonest

abbrev filling : List Answers
filling =
    record busy { socket_write = λ n. write_block }
    ∷ record at_eof { socket_write = λ n. write_block }
    ∷ []

-- Three bytes wait in `to`, and standard input has ended.
abbrev waiting : Client
waiting = last (relay filling (initial false))

waiting-IsValid : IsValid waiting
waiting-IsValid =
    relay-IsValid filling (initial false) (stuck-IsHonest, (stuck_eof-IsHonest, tt))
      (initial-IsValid false)

writable-IsWritable : IsWritable writable
writable-IsWritable = record {
  polled = λ p. refl;
  takes = λ n. (min n 1, ap took (omega arith), omega arith);
}

abbrev three_writable : List Answers
three_writable = writable ∷ writable ∷ writable ∷ []

relay_flushes_example :
    (sent_bytes (last (relay three_writable waiting)).calls
      ≡ stdin_bytes (last (relay three_writable waiting)).calls)
    × (shutdowns (last (relay three_writable waiting)).calls ≡ 1)
unfolding initial relay after_round round on_poll on_ready on_stdin on_socket on_socket_write
    on_stdout stdin_answer socket_write_answer fill interests
relay_flushes_example =
    relay_flushes three_writable waiting
      (writable-IsHonest, (writable-IsHonest, (writable-IsHonest, tt)))
      (writable-IsWritable, (writable-IsWritable, (writable-IsWritable, tt))) waiting-IsValid refl
      refl (omega arith)

-- Two bytes wait in `fr` when the server hangs up.
abbrev holding : Client
holding = record (initial false) { fr = fill (initial false).fr (7 ∷ 8 ∷ []) }

-- A terminal as standard input and output, one open file; the socket is another.
abbrev blocking_files : Files
blocking_files g = record { nonblock = false; others = 2 }

abbrev fcntl_ok : Fcntl
fcntl_ok = record { get_ok = true; set_ok = true }

abbrev connecting : RelaySetup
connecting = record {
  argc = 3;
  socket = some 1;
  port = 6001;
  inet_pton = address;
  recv_buf_ok = true;
  send_buf_ok = true;
  stdin_fcntl = fcntl_ok;
  socket_fcntl = fcntl_ok;
  stdout_fcntl = fcntl_ok;
  connect = in_progress;
}

abbrev loop_files : Files
loop_files = with_nonblock true 0 (with_nonblock true 1 (with_nonblock true 0 blocking_files))

blocks_only_outside_example :
    ((loop_files 0).nonblock ≡ true)
    × ((loop_files 1).nonblock ≡ true)
    × ((loop_files 0).nonblock ≡ true)
    × ((on_exit fcntl_ok fcntl_ok 0 0 loop_files 0).nonblock ≡ false)
    × ((on_exit fcntl_ok fcntl_ok 0 0 loop_files 0).nonblock ≡ false)
    × (on_exit fcntl_ok fcntl_ok 0 0 loop_files 7 ≡ loop_files 7)
unfolding prepare
blocks_only_outside_example =
    blocks_only_outside connecting fcntl_ok fcntl_ok 0 0 1 7 false blocking_files loop_files
      loop_files refl (refl, refl) (refl, refl) (omega arith) (omega arith)
