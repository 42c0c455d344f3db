-- ===== src/Lib.antt =====
-- The C and C++ programs of the site's code directory, codes/, modelled and verified.
--
-- The programs are independent of one another, and so are the parts of this library; all of them use
-- Prelude (tests on numbers, lists as C arrays, strings in them, sums over lists).
--
-- Relay: codes/apue/io-multiply-server/no_blocking_tcp_client.c. Relay/Buffer.antt has the arrays
-- `to` and `fr` with their two pointers, as indices; Relay/State.antt the variables of the loop, the
-- system calls and what they answer; Relay/Loop.antt the body of the loop, one function for each
-- block of it, composed in `round` and `relay`. What the calls answer in a round is an input,
-- `Answers`; a run is a list of rounds, of any length, so no fuel is needed. `IsHonest` is what POSIX
-- promises of `poll`, `read` and `write`. The log of calls is read by Relay/Log.antt. Relay/Setup.antt
-- has `main` before the loop and `on_exit`, with `set_no_blocking` and `set_blocking` of
-- codes/apue/utils.c, over the open files' flags; Relay/Modes.antt what blocks when. All printing is
-- left out.
--
-- ThreadPool: codes/apue/threadpool/main.c. ThreadPool/Store.antt has the struct ThreadPool and the
-- Task nodes in an explicit heap; ThreadPool/Queue.antt `add_task` and `thread_pool_item` up to the
-- unlock; ThreadPool/System.antt interleaves the workers and the main thread, what runs under the
-- mutex being one step; ThreadPool/Create.antt has `create_thread_pool` and the joins of
-- `release_thread_poll`. The mutex and the condition variable are the steps of the system: a signal
-- wakes a waiting worker if there is one, a broadcast all, and a worker may wake for no reason. The
-- signal handlers and the demonstration in `main` are left out.
--
-- DirCount: codes/apue/timec/duc.c, ducfd.c and duclinkfd.c. DirCount/Tree.antt has what `readdir`
-- and the calls that open a directory answer, as a tree, and the counters; DirCount/Paths.antt
-- `caculate_dir` of duc.c with the buffers of its paths, where a read or write beyond a block is a
-- fault; DirCount/Programs.antt that of the two others. The recursive ones recurse on the tree; the one
-- with a list runs on fuel, one unit for each directory that can be opened and one for the end. The
-- `openat` of duclinkfd.c answers by the number of descriptors held; that of ducfd.c, which holds one
-- for each level, only by the tree. Printing and `main` are left out.
--
-- SelectServer: codes/apue/io-multiply-server/select-server.c. SelectServer/Server.antt has the loop:
-- an fd_set is a function to Bool, `serve` the loop over the descriptors on fuel, of which
-- `maxfd - sfd + 1` is enough, and `round` one turn of `for (;;)`. What `select`, `accept` and `read`
-- answer is an input. That a descriptor of FD_SETSIZE or more does not fit an fd_set is not modelled.
--
-- PollServer: codes/apue/io-multiply-server/poll-server.c. PollServer/Server.antt has the loop; the
-- table `clientPoll` is the entry 0, of which only `revents` matters, and the list of the others, so
-- the loops over it recurse on that list and need no fuel. What the memory of `clientPoll` holds at
-- the start is an input, as is what the calls answer. A `strlen` that leaves its array is a call of
-- the log of its own, `overrun`.
--
-- KqueueServer: codes/apue/kqueue_server/no_block_server.c. KqueueServer/Server.antt has the setup,
-- the handling of one event and `delete_kevent`; the state is the log of calls. The connections that
-- `accept` returns and the results of `read` are lists, on which the two inner loops recurse; a loop
-- over `read` that has used up its list without a `break` is `stuck`, and a longer list continues it.
-- The `size_t` has 64 bits.
--
-- KqueueServer/Blocking.antt: codes/apue/kqueue_server/server.c, on the log and the events of the
-- other server; libaco_kqueue_server.c beside it is the same program.
--
-- Rotation: codes/algorithm/overflow_uint64.c. Rotation/Tree.antt has the nodes in a store, addressed
-- by numbers, and the two rotations, each assignment in its place. The code follows no pointer that it
-- has not tested, given that the node is there, so that the store is total.
--
-- TcpClient: codes/apue/io-multiply-server/tcp-client.c. TcpClient/Client.antt has the loop, one
-- function for each block of it; what the calls answer is an input, and a run is a list of turns.
--
-- HttpServer: codes/aco_httpd. HttpServer/Poll.antt is poll.h, as a record of the operations of a back
-- end and their laws; HttpServer/Kqueue.antt and HttpServer/Epoll.antt are its two implementations,
-- unix_kqueue.c and unix_epoll.c. HttpServer/State.antt has the connections and routines in a store,
-- HttpServer/Accept.antt `handle_accept`, HttpServer/Routine.antt `client_routine` and `poll_delete`,
-- HttpServer/Loop.antt the loop over the events, HttpServer/Setup.antt `poll_init` and the setup. The
-- coroutine library lib/aco.c is third-party code: `aco_resume` is the routine's code up to its next
-- switch, and what `aco_create` returns is an input, as is what the system calls answer. A loop that
-- has used up its answers is `running`, and the use of an address that is not allocated is `fault`.
--
-- CopyFile/Program.antt models codes/apue/timec/splice_copy_file.c: `copy_file_read_write`,
-- `copy_file_splice` and `main`, over the bytes of the first file, those in the pipe and those in the
-- second file. How many bytes the system moves per call is an input; a pipe that is full is not
-- modelled, nor are the names and modes of the files. CopyFile/Copying.antt has its theorems.
--
-- WriteRace/System.antt models codes/apue/pthreadl/write_race.c as steps of `main`, `thread1_func` and
-- `thread2_func`: a call is a step, and the threads' steps are taken in any order. The writes stand for
-- the file, in their order, since both threads write to one descriptor. WriteRace/Blocks.antt and
-- WriteRace/Order.antt have the order of the writes, WriteRace/Progress.antt how the runs go on and end.
--
-- PidPipe/System.antt models codes/apue/process/parent_child_tell.c: `main` up to the fork, then the
-- process that sends (`parent_first`, `child_first`) and the one that waits (`child_wait`,
-- `parent_wait`) as steps over the pipe and its two write ends. The signal that a write gets after the
-- reader has gone is not modelled. PidPipe/Handshake.antt has what is printed, PidPipe/Progress.antt
-- how the runs go on and end.
--
-- SignalMask/Program.antt models codes/apue/signal/sig_mask.c: the loop of `main`, whose calls are
-- interleaved with SIGINT and SIGTERM, and `handle_signal`. Signals before the loop are not modelled.
-- SignalMask/Pending.antt has what becomes of SIGINT.
--
-- ForkWait/Program.antt models codes/apue/process/fork_wait.c: `test_fws` in the child and in the
-- parent, and `fork_wait_status`. The status and its macros are the record `WaitStatus`, with what
-- <sys/wait.h> says of a child that has exited or was ended by a signal. ForkWait/Reports.antt has what
-- the parent prints.
--
-- Terminal/Program.antt models codes/apue/signal/get_terminal_size.c: `speed_to_baud`,
-- `get_win_size` and `main` up to its loop. The values of the constants of <termios.h>, and which of
-- them are defined, are inputs. Terminal/Speeds.antt has the table.
--
-- Bank/Account.antt models codes/cplusplus/classInheritance/brass_bank.cpp: `BrassAccount` and
-- `BrassPlusAccount`, whose balances are unsigned 64-bit integers, and `main`. Bank/Ledger.antt has the
-- account as one number.
--
-- Objects/Memory.antt is the memory of new and delete. Objects/Copies.antt models
-- codes/cplusplus/class_copy_delete.cpp, Objects/CopyClass.antt models class_copy_usage.cpp, whose int
-- does not overflow, and Objects/Person.antt models struct_copy.cpp, without the helpers that its
-- `main` does not call; Objects/Strings.antt has what is said of its names.
--
-- Stdio/Buffer.antt is the buffer of stdout as an interface. Stdio/Redirect.antt models
-- codes/apue/chapter3/dup_usage.c and Stdio/Fork.antt models codes/apue/process/fork_buff.c over it.
--
-- StaleBuffer/ProcGrp.antt models codes/apue/process/proc_grp.c, StaleBuffer/ShSleep.antt models
-- codes/apue/signal/sh_sleep.c and StaleBuffer/Client.antt models codes/apue/kqueue_server/client.cpp:
-- what is read into one array again and again and printed as a string. StaleBuffer/Stale.antt,
-- StaleBuffer/Bounds.antt and StaleBuffer/Lines.antt have what is said of them.
--
-- BigWrite/System.antt models codes/apue/process/pipe_oversize_write.c as steps of the parent and
-- its two children over a pipe of any capacity, once it has been made: a child's write is taken in
-- parts of any length, until SIGPIPE ends it (its own read end is closed as it is forked), and the
-- parent's reads and writes may fail or fall short. BigWrite/Counts.antt has the invariant,
-- BigWrite/Ends.antt what comes out and BigWrite/Progress.antt how the runs go on and end.
--
-- ThreadPool/Task.antt models `print_task` of codes/apue/threadpool/main.c, the task that the program
-- gives to its pool, and ThreadPool/Release.antt has how the joins of `release_thread_poll` end.
--
-- Not modelled: codes/aco_httpd/lib, a copy of the coroutine library libaco, whose calls are a
-- parameter; codes/algorithm/head_sort.c, which does not compile; codes/apue/pthreadl/mutex_test.c,
-- whose locks of a default mutex are not laid down by POSIX; logger.c and parse_http.c of
-- codes/aco_httpd, which do nothing that the server needs; and the programs that show one system
-- call or one feature of the language and print what they get, such as codes/apue/timec/unamec.c,
-- codes/apue/ls-endian or most of codes/cplusplus. The site itself is text.
pub mod Prelude
pub mod Bank
pub mod BigWrite
pub mod CopyFile
pub mod DirCount
pub mod ForkWait
pub mod HttpServer
pub mod KqueueServer
pub mod Objects
pub mod PidPipe
pub mod PollServer
pub mod Relay
pub mod Rotation
pub mod SelectServer
pub mod SignalMask
pub mod StaleBuffer
pub mod Stdio
pub mod TcpClient
pub mod Terminal
pub mod ThreadPool
pub mod WriteRace
