-- ===== src/StaleBuffer/Tests.antt =====
-- Runs of proc_grp.c, sh_sleep.c and client.cpp, and the theorems at them.
use ukgoll_github_io.Prelude.{true, false, List, [], ◌∷◌, ◌≡◌, refl, arith, replicate}
use ukgoll_github_io.StaleBuffer.ProcGrp
use ukgoll_github_io.StaleBuffer.ShSleep
use ukgoll_github_io.StaleBuffer.Client
use ukgoll_github_io.StaleBuffer.Bounds.{OutcomeInBounds, main-InBounds}
use ukgoll_github_io.StaleBuffer.Lines.{client_prints}

abbrev texts : ProcGrp.Texts
texts = record {
  ids = 73 ∷ 10 ∷ [];
  ids_and_rule = 73 ∷ 10 ∷ 45 ∷ 10 ∷ [];
  proc2_error = 112 ∷ 114 ∷ 111 ∷ 99 ∷ 50 ∷ 32 ∷ 101 ∷ 114 ∷ 114 ∷ 111 ∷ 114 ∷ [];
  start = 115 ∷ 116 ∷ 97 ∷ 114 ∷ 116 ∷ 0 ∷ [];
  continue_text = 99 ∷ 111 ∷ 110 ∷ 116 ∷ 105 ∷ 110 ∷ 117 ∷ 101 ∷ 0 ∷ [];
}

-- "abc\n" and then "x\n": the second comes out as "x\nc\n".
tail_of_first :
    ProcGrp.main texts 2 ProcGrp.proc2 true true true
      ((97 ∷ 98 ∷ 99 ∷ 10 ∷ [], true) ∷ (120 ∷ 10 ∷ [], true) ∷ [])
      []
    ≡ ProcGrp.waiting (
        ProcGrp.to_stdout (97 ∷ 98 ∷ 99 ∷ 10 ∷ [])
        ∷ ProcGrp.to_stdout (73 ∷ 10 ∷ [])
        ∷ ProcGrp.to_stdout (120 ∷ 10 ∷ 99 ∷ 10 ∷ [])
        ∷ ProcGrp.to_stdout (73 ∷ 10 ∷ [])
        ∷ [])
unfolding ProcGrp.main ProcGrp.work ProcGrp.loop2 ProcGrp.process_of
tail_of_first = refl

main-InBounds_example :
    OutcomeInBounds
      (ProcGrp.main texts 2 ProcGrp.proc3 false true true [] ((97 ∷ 98 ∷ []) ∷ (0 ∷ []) ∷ [] ∷ []))
main-InBounds_example =
    main-InBounds texts 2 ProcGrp.proc3 false true true [] ((97 ∷ 98 ∷ []) ∷ (0 ∷ []) ∷ [] ∷ []) tt
      (omega arith, (omega arith, (omega arith, tt)))

-- The eleventh character of the message is not written.
proc2_error_cut :
    ProcGrp.main texts 2 ProcGrp.proc2 true true true ((97 ∷ [], false) ∷ ([], true) ∷ []) []
    ≡ ProcGrp.returned
        (ProcGrp.to_stdout (112 ∷ 114 ∷ 111 ∷ 99 ∷ 50 ∷ 32 ∷ 101 ∷ 114 ∷ 114 ∷ 111 ∷ []) ∷ [])
unfolding ProcGrp.main ProcGrp.work ProcGrp.loop2 ProcGrp.process_of
proc2_error_cut = refl

-- With an argument that is none of the three, the process is P1.
invalid_is_p1 :
    ProcGrp.main texts 2 ProcGrp.invalid true true true [] ((1 ∷ []) ∷ [])
    ≡ ProcGrp.waiting (ProcGrp.to_stdout (73 ∷ 10 ∷ []) ∷ ProcGrp.slept ∷ [])
unfolding ProcGrp.main ProcGrp.work ProcGrp.loop1 ProcGrp.process_of
invalid_is_p1 = refl

-- "abc", a signal, and then "x": the second comes out as "xbc", in `read form stdin: [1] byte`.
tail_printed :
    ShSleep.main true
      (ShSleep.got (97 ∷ 98 ∷ 99 ∷ []) ∷ ShSleep.interrupted ∷ ShSleep.got (120 ∷ []) ∷ [])
    ≡ ShSleep.waiting
        (ShSleep.data_is 3 (97 ∷ 98 ∷ 99 ∷ []) ∷ ShSleep.data_is 1 (120 ∷ 98 ∷ 99 ∷ []) ∷ [])
unfolding ShSleep.main ShSleep.loop
tail_printed = refl

abbrev reads : List Client.ReadResult
reads = Client.got 72 (105 ∷ []) true ∷ Client.got 1 (0 ∷ 2 ∷ []) true ∷ Client.end_of_file ∷ []

client_prints_example :
    Client.main 2
      (replicate 257 7)
      (record { socket_ok = true; inet_pton_ok = true; connect_ok = true; reads = reads })
    ≡ Client.returned_0 (
        Client.create_success
        ∷ Client.server_ip_success
        ∷ Client.connect_success
        ∷ Client.send Client.greeting
        ∷ Client.send_start
        ∷ Client.send_end Client.greeting
        ∷ Client.n_is 2
        ∷ Client.fputs (72 ∷ 105 ∷ [])
        ∷ Client.n_is 3
        ∷ Client.fputs (1 ∷ [])
        ∷ Client.server_closed
        ∷ Client.close
        ∷ Client.close_success
        ∷ [])
client_prints_example = client_prints (replicate 257 7) reads refl (omega arith, (omega arith, tt))
