-- ===== src/SelectServer.antt =====
-- codes/apue/io-multiply-server/select-server.c: an echo server round `select`.
pub mod Server
pub mod Inv
pub mod Serve
pub mod Runs
mod Tests
