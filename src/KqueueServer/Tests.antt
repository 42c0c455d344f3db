-- ===== src/KqueueServer/Tests.antt =====
-- Runs of no_block_server.c, and the theorems at them.
use ukgoll_github_io.Prelude.{◌≡◌, refl, true, false, some, List, [], ◌∷◌, arith}
use ukgoll_github_io.KqueueServer.Server.{
  null, read_from, wrote, Fcntl, Log, Setup, Connection, on_listener, got, end_of_file, again,
  ReadResult, read_loop, reading, Event, Answers, go_on, stuck, on_event,
}
use ukgoll_github_io.KqueueServer.Log.{allocs, frees, writes}
use ukgoll_github_io.KqueueServer.Events.{quiet_client_stuck}
use ukgoll_github_io.KqueueServer.Blocking.{BlockingSetup, Replies}
use ukgoll_github_io.KqueueServer.Burst.{hang_ups, block_freed_per_connection}

abbrev fcntl_ok : Fcntl
fcntl_ok = record { getfl_ok = true; setfl_ok = true }

-- `read` fails with EAGAIN, and the length given to `write` is the greatest `size_t`.
quiet_calls :
    read_loop 7 900 (again ∷ []) [] ≡ reading (wrote 7 18446744073709551615 ∷ read_from 7 ∷ [])
unfolding read_loop
quiet_calls = refl

abbrev client : Event
client = record { ident = 7; readable = true; negative = false; eof = true; udata = 900 }

abbrev talks : Answers
talks = record { block = null; connections = []; reads = got 5 ∷ end_of_file ∷ [] }

abbrev pauses : Answers
pauses = record { block = null; connections = []; reads = got 5 ∷ again ∷ [] }

quiet_client_stuck_example :
    (l' : Log) × (on_event 3 pauses client [] ≡ stuck l') × (writes 7 l' ≡ 2)
quiet_client_stuck_example = quiet_client_stuck 3 pauses client [] (omega arith) refl refl refl

abbrev all_ok : Setup
all_ok = record {
  kqueue_ok = true;
  socket = some 3;
  fcntl = fcntl_ok;
  bind_ok = true;
  listen_ok = true;
  kevent_ok = true;
}

-- Two connections come with one event.
abbrev two : List Connection
two =
    record { fd = 7; fcntl = fcntl_ok; kevent_ok = true }
    ∷ record { fd = 8; fcntl = fcntl_ok; kevent_ok = true }
    ∷ []

block_freed_per_connection_example :
    (l' : Log) × (hang_ups 3 900 two (on_listener 900 two []) ≡ go_on l')
    × (frees 900 l' ≡ 2)
    × (allocs 900 l' ≡ 1)
block_freed_per_connection_example =
    block_freed_per_connection 3 900 two [] (omega arith) (omega arith)

abbrev replies : List ReadResult → Replies
replies rs = record { block = 900; accept = some 7; kevent_ok = true; reads = rs }

abbrev at_listener : Event
at_listener = record { ident = 3; readable = true; negative = false; eof = false; udata = null }

abbrev five_ok : BlockingSetup
five_ok = record {
  kqueue_ok = true;
  socket = some 3;
  bind_ok = true;
  listen_ok = true;
  kevent_ok = true;
}
