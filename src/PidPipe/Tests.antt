-- ===== src/PidPipe/Tests.antt =====
-- Runs of parent_child_tell.c, and the theorems at them.
use ukgoll_github_io.Prelude.{◌≡◌, refl, true, false, none, [], ◌∷◌, ◌⊎◌}
use ukgoll_github_io.PidPipe.System.{
  cf_argument, invalid_argument, main, Sender, telling, Waiter, reading, exec_first, exec_second,
  write_error, System, SenderStep, WaiterStep, by_sender, by_waiter, Reachable, start, next,
  write_pid, tell, read_pid, check,
}
use ukgoll_github_io.PidPipe.Handshake.{both_told}

-- The process that waits prints that it is the second before the other prints that it is the first, since
-- that one writes to the pipe before it prints.
abbrev second_told : System
second_told = record {
  sender = telling;
  waiter = Waiter.closing_read_end;
  pipe = none;
  sender_writes = true;
  waiter_writes = false;
  printed = exec_second 42 ∷ [];
}

second_told_Reachable : Reachable 42 false second_told
second_told_Reachable =
    let r1 : Reachable 42 false _ = next start (by_sender (SenderStep.close_read_end refl)) in
    let r2 : Reachable 42 false _ = next r1 (by_waiter (WaiterStep.close_write_end refl)) in
    let r3 : Reachable 42 false _ = next r2 (by_sender (write_pid refl)) in
    let r4 : Reachable 42 false _ = next r3 (by_waiter (read_pid 42 refl refl)) in
    next r4 (by_waiter (check 42 refl))

abbrev both_ended : System
both_ended = record {
  sender = Sender.ended;
  waiter = Waiter.ended;
  pipe = none;
  sender_writes = false;
  waiter_writes = false;
  printed = exec_first 42 ∷ exec_second 42 ∷ [];
}

both_ended_Reachable : Reachable 42 false both_ended
both_ended_Reachable =
    let r1 : Reachable 42 false _ = next second_told_Reachable (by_sender (tell refl)) in
    let r2 : Reachable 42 false _ = next r1 (by_sender (SenderStep.close_write_end refl)) in
    next r2 (by_waiter (WaiterStep.close_read_end refl))

both_told_example :
    (both_ended.printed ≡ exec_second 42 ∷ exec_first 42 ∷ [])
    ⊎ (both_ended.printed ≡ exec_first 42 ∷ exec_second 42 ∷ [])
both_told_example = both_told 42 both_ended_Reachable refl refl

-- The write has failed.
abbrev write_failed : System
write_failed = record {
  sender = Sender.ended;
  waiter = reading;
  pipe = none;
  sender_writes = false;
  waiter_writes = false;
  printed = exec_first 42 ∷ write_error ∷ [];
}

-- An argument that is not valid goes on as `cf`.
invalid_goes_on : main 2 invalid_argument true true ≡ main 2 cf_argument true true
unfolding main
invalid_goes_on = refl
