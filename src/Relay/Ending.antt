-- ===== src/Relay/Ending.antt =====
-- How the relay ends when the server closes the connection.
use ukgoll_github_io.Prelude.{◌+◌, ◌-◌, ◌≡◌, true, false, List, [], ◌∷◌, if◌then◌else◌, arith}
use ukgoll_github_io.Relay.Buffer.{tcp_send_buf, contents}
use ukgoll_github_io.Relay.State.{got, PollSet, ready, Answers, Client, last}
use ukgoll_github_io.Relay.Loop.{
  interests, on_stdin, on_socket, on_socket_read, socket_read_answer, on_ready, on_poll, round,
  relay, after_round,
}
use ukgoll_github_io.Relay.Log.{out_bytes, closes}

-- When a connected client reads the end of the file from the socket, in a round in which standard
-- input is not ready, the loop is left at once: the bytes that wait in `fr` are not written to
-- standard output, in this round or after it, and the socket is closed twice, or once if standard
-- input has ended.
relay_server_eof :
    (a : Answers) (rest : List Answers) (c : Client) (p : PollSet)
    → c.connecting ≡ false
    → a.polled (interests c) ≡ ready p
    → p.stdin.pollin ≡ false
    → p.socket.pollin ≡ true
    → a.socket_read (tcp_send_buf - c.fr.stop) ≡ got []
    → (contents (last (relay (a ∷ rest) c)).fr ≡ contents c.fr)
      × (out_bytes (last (relay (a ∷ rest) c)).calls ≡ out_bytes c.calls)
      × (closes (last (relay (a ∷ rest) c)).calls ≡ closes c.calls + (if c.stdineof then 1 else 2))
unfolding relay after_round round on_poll on_ready on_stdin on_socket on_socket_read
    socket_read_answer
relay_server_eof a rest c p up e quiet hup eof =
    rw (e, quiet, up, hup, eof) (ground arith, ground arith, ground arith)
