-- ===== src/Relay/Inv.antt =====
-- The invariant of the relay loop, and that each block keeps it.
use ukgoll_github_io.Prelude.{
  ℕ, ◌-◌, ◌≤◌, ◌<◌, ◌≡◌, refl, sym, false, ◌&&◌, List, [], ◌∷◌, ◌++◌, ◌==◌, if◌then◌else◌, length,
  take, arith, append_assoc, append-nil,
}
use ukgoll_github_io.Relay.Buffer.{
  tcp_recv_buf, tcp_send_buf, pending, contents, drain, Fits, fill-Fits, drain-Fits, contents-fill,
  contents-drain,
}
use ukgoll_github_io.Relay.State.{
  ReadResult, got, read_block, read_error, WriteResult, took, write_block, write_error, read_stdin,
  read_socket, write_socket, write_stdout, Client, log, last,
}
use ukgoll_github_io.Relay.Loop.{
  stdin_answer, socket_read_answer, socket_write_answer, stdout_answer,
}
use ukgoll_github_io.Relay.Log.{
  bytes_of, stdin_bytes, sent_bytes, socket_bytes, out_bytes, shutdowns, late_writes, empty_reads,
}

pub record IsValid (c : Client) : Type 0 where
  pub to_fits : Fits tcp_recv_buf c.to
  pub fr_fits : Fits tcp_send_buf c.fr
  pub to_order : stdin_bytes c.calls ≡ sent_bytes c.calls ++ contents c.to
  pub fr_order : socket_bytes c.calls ≡ out_bytes c.calls ++ contents c.fr
  pub shut : shutdowns c.calls ≡ (if c.stdineof && (c.to.start == c.to.stop) then 1 else 0)
  pub quiet : late_writes c.calls ≡ 0
  pub sized : empty_reads c.calls ≡ 0

module _ {A : Type 0} where
  order_fill : {a t' : List A} (s t bs : List A) → a ≡ s ++ t → t' ≡ t ++ bs → a ++ bs ≡ s ++ t'
  order_fill s t bs e f = rw (e, f) (append_assoc s t bs)

  order_drain : {a t : List A} (s t' bs : List A) → a ≡ s ++ t → bs ++ t' ≡ t → a ≡ (s ++ bs) ++ t'
  order_drain s t' bs e f = rw (e, ← f) (sym (append_assoc s bs t'))

-- A read that asks for room in the array and is answered within it.
module _ (c : Client) (v : IsValid c) (n : ℕ) (room : 0 < n) where
  pub read_stdin-IsValid :
      (r : ReadResult)
      → n ≡ tcp_recv_buf - c.to.stop
      → length (bytes_of r) ≤ n
      → c.stdineof ≡ false
      → IsValid (last (stdin_answer r (log c (read_stdin n r))))
  unfolding stdin_answer
  read_stdin-IsValid read_block e h live = ground (arith, append-nil (stdin_bytes c.calls))
  read_stdin-IsValid read_error e h live = ground (arith, append-nil (stdin_bytes c.calls))
  read_stdin-IsValid (got []) e h live = ground (arith, append-nil (stdin_bytes c.calls))
  read_stdin-IsValid (got (x ∷ xs)) e h live = record {
    to_fits = fill-Fits c.to v.to_fits (x ∷ xs) (omega arith) (omega arith);
    fr_fits = v.fr_fits;
    to_order = order_fill _ _ _ v.to_order (contents-fill c.to v.to_fits (x ∷ xs) (omega arith));
    fr_order = v.fr_order;
    shut = rw live (ground arith);
    quiet = v.quiet;
    sized = ground arith;
  }

  pub read_socket-IsValid :
      (r : ReadResult)
      → n ≡ tcp_send_buf - c.fr.stop
      → length (bytes_of r) ≤ n
      → IsValid (last (socket_read_answer r (log c (read_socket n r))))
  unfolding socket_read_answer
  read_socket-IsValid read_block e h = ground (arith, append-nil (socket_bytes c.calls))
  read_socket-IsValid read_error e h = ground (arith, append-nil (socket_bytes c.calls))
  read_socket-IsValid (got []) e h = ground (arith, append-nil (socket_bytes c.calls))
  read_socket-IsValid (got (x ∷ xs)) e h = record {
    to_fits = v.to_fits;
    fr_fits = fill-Fits c.fr v.fr_fits (x ∷ xs) (omega arith) (omega arith);
    to_order = v.to_order;
    fr_order = order_fill _ _ _ v.fr_order (contents-fill c.fr v.fr_fits (x ∷ xs) (omega arith));
    shut = v.shut;
    quiet = v.quiet;
    sized = ground arith;
  }

module _ (c : Client) (v : IsValid c) where
  not_shut : 0 < pending c.to → shutdowns c.calls ≡ 0
  not_shut full = ground (arith, v.shut)

  pub write_socket-IsValid :
      (r : WriteResult)
      → 0 < pending c.to
      → ((wn : ℕ) → r ≡ took wn → wn ≤ pending c.to)
      → IsValid (last (socket_write_answer r (log c (write_socket (contents c.to) r))))
  unfolding socket_write_answer
  write_socket-IsValid write_block full h =
      ground (arith, append-nil (sent_bytes c.calls), not_shut full)
  write_socket-IsValid write_error full h =
      ground (arith, append-nil (sent_bytes c.calls), not_shut full)
  write_socket-IsValid (took wn) full h = record {
    to_fits = ground (arith, drain-Fits c.to v.to_fits wn full (h wn refl));
    fr_fits = ground arith;
    to_order = ground (arith, sent);
    fr_order = ground (arith, v.fr_order);
    shut = unfold drain in ground (arith, not_shut full);
    quiet = ground (arith, not_shut full);
    sized = ground arith;
  }
    where
      sent :
          stdin_bytes c.calls
          ≡ (sent_bytes c.calls ++ take wn (contents c.to)) ++ contents (drain c.to wn)
      sent =
          order_drain (sent_bytes c.calls) (contents (drain c.to wn)) (take wn (contents c.to))
            v.to_order (contents-drain c.to v.to_fits wn (h wn refl))

  pub write_stdout-IsValid :
      (r : WriteResult)
      → 0 < pending c.fr
      → ((wn : ℕ) → r ≡ took wn → wn ≤ pending c.fr)
      → IsValid (last (stdout_answer r (log c (write_stdout (contents c.fr) r))))
  unfolding stdout_answer
  write_stdout-IsValid write_block full h = ground (arith, append-nil (out_bytes c.calls))
  write_stdout-IsValid write_error full h = ground (arith, append-nil (out_bytes c.calls))
  write_stdout-IsValid (took wn) full h = record {
    to_fits = v.to_fits;
    fr_fits = drain-Fits c.fr v.fr_fits wn full (h wn refl);
    to_order = v.to_order;
    fr_order = order_drain _ _ _ v.fr_order (contents-drain c.fr v.fr_fits wn (h wn refl));
    shut = v.shut;
    quiet = v.quiet;
    sized = v.sized;
  }
