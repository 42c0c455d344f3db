-- ===== src/TcpClient/Sending.antt =====
-- What tcp-client.c sends.
use ukgoll_github_io.Prelude.{
  ℕ, ◌+◌, ◌*◌, ◌≡◌, ◌&&◌, ◌∙◌, Bool, true, false, Option, none, some, List, [], ◌∷◌, ◌++◌,
  overwrite, length, arith, Bool-cases, inl, inr, length-overwrite, length-replicate,
}
use ukgoll_github_io.TcpClient.Client.{
  line_size, Call, got_line, wrote, closed, Client, ReadResult, got, read_error, WriteResult, sent,
  not_sent, Answers, Selected, ready, timed_out, interrupted, failed, Outcome, go_on, break_loop,
  exit_failure, is_end, on_read, on_written, on_line, then_stdin, round, run, initial, log,
}

-- How many lines were read, and how many bytes were given to `write`.
abbrev pub lines : List Call → ℕ
lines [] = 0
lines (got_line l ∷ ks) = lines ks + 1
lines (_ ∷ ks) = lines ks

abbrev pub written : List Call → ℕ
written [] = 0
written (wrote bytes ∷ ks) = written ks + length bytes
written (_ ∷ ks) = written ks

abbrev pub client_of : Outcome → Client
client_of (go_on c) = c
client_of (break_loop c) = c
client_of (exit_failure c) = c

-- The array has its size, and each line was sent with the whole array.
pub record Inv (c : Client) : Type 0 where
  pub size : length c.sendline ≡ line_size
  pub whole : written c.calls ≡ line_size * lines c.calls

module _ (testing : Bool) where
  on_read-Inv : (r : ReadResult) (c : Client) → Inv c → Inv (client_of (on_read testing r c))
  unfolding on_read
  on_read-Inv read_error c v = v
  on_read-Inv (got []) c v = record { size = v.size; whole = v.whole }
  on_read-Inv (got (b ∷ bs)) c v = elim (Bool-cases (is_end (b ∷ bs) && c.stdineof)) [
    | inl e ↦ rw e (record { size = v.size; whole = v.whole })
    | inr e ↦ elim (Bool-cases testing) [
      | inl t ↦ rw (e, t) (record { size = v.size; whole = v.whole })
      | inr t ↦ rw (e, t) (record { size = v.size; whole = v.whole })
    ]
  ]

  on_written-Inv : (w : WriteResult) (c : Client) → Inv c → Inv (client_of (on_written testing w c))
  unfolding on_written
  on_written-Inv sent c v = v
  on_written-Inv (not_sent true) c v = v
  on_written-Inv (not_sent false) c v = v

  on_line-Inv :
      (o : Option (List ℕ)) (w : WriteResult) (c : Client)
      → Inv c
      → Inv (client_of (on_line testing o w c))
  unfolding on_line on_written
  on_line-Inv none w c v = record { size = v.size; whole = v.whole }
  on_line-Inv (some line) w c v =
      let c' : Client = record c {
        sendline = overwrite c.sendline 0 (line ++ (0 ∷ []));
        calls = wrote (overwrite c.sendline 0 (line ++ (0 ∷ []))) ∷ got_line line ∷ c.calls;
      } in
      let n = length-overwrite c.sendline 0 (line ++ (0 ∷ [])) in
      let v' : Inv c' = record { size = n ∙ v.size; whole = omega (arith, n, v.size, v.whole) } in
      on_written-Inv w c' v'

  then_stdin-Inv :
      (a : Answers) (o : Outcome) → Inv (client_of o) → Inv (client_of (then_stdin testing a o))
  unfolding then_stdin
  then_stdin-Inv a (go_on c) v = elim (Bool-cases (a.stdin_set)) [
    | inl e ↦ rw e (on_line-Inv a.fgets a.write c v)
    | inr e ↦ rw e v
  ]
  then_stdin-Inv a (break_loop c) v = v
  then_stdin-Inv a (exit_failure c) v = v

  round-Inv : (s : Selected) (c : Client) → Inv c → Inv (client_of (round testing s c))
  unfolding round
  round-Inv (ready a) c v = elim (Bool-cases (a.socket_set)) [
    | inl e ↦ rw e (then_stdin-Inv a (on_read testing a.read c) (on_read-Inv a.read c v))
    | inr e ↦ rw e (then_stdin-Inv a (go_on c) v)
  ]
  round-Inv timed_out c v = v
  round-Inv interrupted c v = v
  round-Inv failed c v = v

  run-Inv : (ss : List Selected) (c : Client) → Inv c → Inv (client_of (run testing ss c))
  unfolding run
  run-Inv [] c v = v
  run-Inv (s ∷ ss) c v = go (λ c' v'. run-Inv ss c' v') (round testing s c) (round-Inv s c v)
    where
      go :
          (again : (c' : Client) → Inv c' → Inv (client_of (run testing ss c'))) (o : Outcome)
          → Inv (client_of o)
          → Inv (
              client_of (elim o [
                | go_on c' ↦ run testing ss c'
                | break_loop c' ↦ break_loop (log c' closed)
                | exit_failure c' ↦ exit_failure c'
              ]))
      go again (go_on c') v' = again c' v'
      go again (break_loop c') v' = record { size = v'.size; whole = v'.whole }
      go again (exit_failure c') v' = v'

  -- After any turns, whatever the calls answer: the program has given `write` 256 bytes for each line
  -- that it has read, however short the line is.
  pub sends_whole_array :
      (ss : List Selected)
      → written (client_of (run testing ss initial)).calls
        ≡ line_size * lines (client_of (run testing ss initial)).calls
  sends_whole_array ss =
      (run-Inv ss initial
        (record { size = length-replicate {A = ℕ} line_size 0; whole = omega arith })).whole
