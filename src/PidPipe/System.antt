-- ===== src/PidPipe/System.antt =====
-- codes/apue/process/parent_child_tell.c: the process that goes first sends the child's pid over a pipe,
-- the other waits for it.
use ukgoll_github_io.Prelude.{
  ℕ, ◌≡◌, Bool, true, false, not, ◌==◌, if◌then◌else◌, Option, none, some, List, [], ◌∷◌,
}

-- What `argv[1]` starts with.
pub data Argument : Type 0 where
  pf_argument : Argument
  cf_argument : Argument
  invalid_argument : Argument

pub data Process : Type 0 where
  parent : Process
  child : Process

-- `main` up to the fork: an exit, or two processes, with the one that goes first.
pub data Forked : Type 0 where
  exit_failure : Forked
  first_is : Process → Forked

unfoldable pub main : ℕ → Argument → Bool → Bool → Forked
main argc argument pipe_ok fork_ok =
    if not (argc == 2)
    then exit_failure
    else if not pipe_ok
    then exit_failure
    else if not fork_ok
    then exit_failure
    else elim argument [
      | pf_argument ↦ first_is parent
      | cf_argument ↦ first_is child
      | invalid_argument ↦ first_is child
    ]

-- The next call in `parent_first` and `child_first`.
pub data Sender : Type 0 where
  closing_read_end : Sender
  writing : Sender
  telling : Sender
  closing_write_end : Sender
  ended : Sender

-- The next call in `child_wait` and `parent_wait`; `checking` has `newPid`.
pub data Waiter : Type 0 where
  closing_write_end : Waiter
  reading : Waiter
  checking : ℕ → Waiter
  closing_read_end : Waiter
  ended : Waiter

pub data Message : Type 0 where
  exec_first : ℕ → Message
  exec_second : ℕ → Message
  write_error : Message
  read_error : Message
  invalid_data : Message

-- The pipe with its write ends, which the fork has doubled; what both processes print, the latest first.
pub record System : Type 0 where
  pub sender : Sender
  pub waiter : Waiter
  pub pipe : Option ℕ
  pub sender_writes : Bool
  pub waiter_writes : Bool
  pub printed : List Message

abbrev pub print : System → Message → System
print s m = record s { printed = m ∷ s.printed }

-- `may_fail`: whether `write` and `read` may return -1.
module _ (pid : ℕ) (may_fail : Bool) where
  -- `parent_first`, with `pid` from `fork`, and `child_first`, with `pid` from `getpid`. A write of one pid is
  -- whole or fails.
  pub data SenderStep (s : System) : System → Type 0 where
    close_read_end :
        s.sender ≡ Sender.closing_read_end → SenderStep s (record s { sender = writing })
    write_pid : s.sender ≡ writing → SenderStep s (record s { sender = telling; pipe = some pid })
    write_fails :
        may_fail ≡ true
        → s.sender ≡ writing
        → SenderStep s (record (print s write_error) { sender = telling })
    tell :
        s.sender ≡ telling
        → SenderStep s (record (print s (exec_first pid)) { sender = Sender.closing_write_end })
    close_write_end :
        s.sender ≡ Sender.closing_write_end
        → SenderStep s (record s { sender = Sender.ended; sender_writes = false })

  -- `child_wait` and `parent_wait`. The read waits while the pipe is empty and a write end is open; where it
  -- fails or finds the end, `newPid` keeps whatever it held.
  pub data WaiterStep (s : System) : System → Type 0 where
    close_write_end :
        s.waiter ≡ Waiter.closing_write_end
        → WaiterStep s (record s { waiter = reading; waiter_writes = false })
    read_pid :
        (p : ℕ)
        → s.waiter ≡ reading
        → s.pipe ≡ some p
        → WaiterStep s (record s { waiter = checking p; pipe = none })
    read_end :
        (garbage : ℕ)
        → s.waiter ≡ reading
        → s.pipe ≡ none
        → s.sender_writes ≡ false
        → s.waiter_writes ≡ false
        → WaiterStep s (record (print s read_error) { waiter = checking garbage })
    read_fails :
        (garbage : ℕ)
        → may_fail ≡ true
        → s.waiter ≡ reading
        → WaiterStep s (record (print s read_error) { waiter = checking garbage })
    check :
        (p : ℕ)
        → s.waiter ≡ checking p
        → WaiterStep s (record (print s (if p == pid then exec_second p else invalid_data)) {
          waiter = Waiter.closing_read_end;
        })
    close_read_end :
        s.waiter ≡ Waiter.closing_read_end → WaiterStep s (record s { waiter = Waiter.ended })

  pub data Step (s s' : System) : Type 0 where
    by_sender : SenderStep s s' → Step s s'
    by_waiter : WaiterStep s s' → Step s s'

  -- After the fork.
  abbrev pub initial : System
  initial = record {
    sender = Sender.closing_read_end;
    waiter = Waiter.closing_write_end;
    pipe = none;
    sender_writes = true;
    waiter_writes = true;
    printed = [];
  }

  pub data Reachable : System → Type 0 where
    start : Reachable initial
    next : {s s' : System} → Reachable s → Step s s' → Reachable s'
