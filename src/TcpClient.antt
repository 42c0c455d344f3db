-- ===== src/TcpClient.antt =====
-- codes/apue/io-multiply-server/tcp-client.c: a client round `select`.
pub mod Client
pub mod Sending
mod Tests
