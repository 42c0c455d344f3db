-- ===== src/PollServer.antt =====
-- codes/apue/io-multiply-server/poll-server.c: an echo server round `poll`.
pub mod Server
pub mod Log
pub mod Table
pub mod Rounds
mod Tests
