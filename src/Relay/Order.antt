-- ===== src/Relay/Order.antt =====
-- What any run of the relay guarantees about the bytes, the shutdown and its reads.
use ukgoll_github_io.Prelude.{◌≡◌, Bool, ◌&&◌, List, ◌++◌, ◌==◌, if◌then◌else◌}
use ukgoll_github_io.Relay.Buffer.{tcp_recv_buf, tcp_send_buf, contents, Fits}
use ukgoll_github_io.Relay.State.{Answers, Client, last, initial}
use ukgoll_github_io.Relay.Loop.{relay}
use ukgoll_github_io.Relay.Log.{
  stdin_bytes, sent_bytes, socket_bytes, out_bytes, shutdowns, late_writes, empty_reads,
}
use ukgoll_github_io.Relay.Inv.{IsValid}
use ukgoll_github_io.Relay.Round.{AllHonest, relay-IsValid, initial-IsValid}

module _ (connecting : Bool) (rounds : List Answers) (honest : AllHonest rounds) where
  abbrev end : Client
  end = last (relay rounds (initial connecting))

  end-IsValid : IsValid end
  end-IsValid = relay-IsValid rounds (initial connecting) honest (initial-IsValid connecting)

  -- After any number of rounds with honest answers, from the start of the loop: the bytes read from
  -- standard input are those that the socket took followed by those that wait in `to`, and the
  -- bytes read from the socket are those that standard output took followed by those in `fr`.
  pub relay_order :
      (stdin_bytes end.calls ≡ sent_bytes end.calls ++ contents end.to)
      × (socket_bytes end.calls ≡ out_bytes end.calls ++ contents end.fr)
  relay_order = (end-IsValid.to_order, end-IsValid.fr_order)

  -- After any number of rounds with honest answers, from the start of the loop: the sending side
  -- has been shut down once if standard input has ended and `to` is empty, and otherwise never; and
  -- no write to the socket came after the shutdown.
  pub relay_shutdown :
      (shutdowns end.calls ≡ (if end.stdineof && (end.to.start == end.to.stop) then 1 else 0))
      × (late_writes end.calls ≡ 0)
  relay_shutdown = (end-IsValid.shut, end-IsValid.quiet)

  -- After any number of rounds with honest answers, from the start of the loop: both pointers of
  -- each array lie in it, in order, and an empty array is used from its front; and no read asked for
  -- zero bytes, so that a read that returned 0 has met the end of the file.
  pub relay_bounds :
      Fits tcp_recv_buf end.to × Fits tcp_send_buf end.fr × (empty_reads end.calls ≡ 0)
  relay_bounds = (end-IsValid.to_fits, end-IsValid.fr_fits, end-IsValid.sized)
