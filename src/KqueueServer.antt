-- ===== src/KqueueServer.antt =====
-- codes/apue/kqueue_server/no_block_server.c and server.c: echo servers round `kevent`.
pub mod Server
pub mod Log
pub mod Events
pub mod Burst
pub mod Blocking
mod Tests
