-- ===== src/PidPipe/Progress.antt =====
-- codes/apue/process/parent_child_tell.c: how its runs go on and end.
use ukgoll_github_io.Prelude.{ℕ, ◌+◌, ◌≡◌, Bool, true, false}
use ukgoll_github_io.PidPipe.System.{
  Sender, writing, telling, Waiter, reading, checking, System, Reachable, start, next,
}

abbrev open_in_sender : Sender → Bool
open_in_sender Sender.ended = false
open_in_sender _ = true

abbrev open_in_waiter : Waiter → Bool
open_in_waiter Waiter.closing_write_end = true
open_in_waiter _ = false

-- A bound on the steps that are left.
abbrev left_in_sender : Sender → ℕ
left_in_sender Sender.closing_read_end = 4
left_in_sender writing = 3
left_in_sender telling = 2
left_in_sender Sender.closing_write_end = 1
left_in_sender Sender.ended = 0

abbrev left_in_waiter : Waiter → ℕ
left_in_waiter Waiter.closing_write_end = 4
left_in_waiter reading = 3
left_in_waiter (checking p) = 2
left_in_waiter Waiter.closing_read_end = 1
left_in_waiter Waiter.ended = 0

abbrev steps_left : System → ℕ
steps_left s = left_in_sender s.sender + left_in_waiter s.waiter

module _ (pid : ℕ) (may_fail : Bool) where
  -- Each process keeps its write end open up to the call that closes it.
  Ends : System → Type 0
  Ends s = (s.sender_writes ≡ open_in_sender s.sender) × (s.waiter_writes ≡ open_in_waiter s.waiter)

  abbrev pub length_of : {s : System} → Reachable pid may_fail s → ℕ
  length_of start = 0
  length_of (next r m) = length_of r + 1
