-- ===== src/Relay.antt =====
-- codes/apue/io-multiply-server/no_blocking_tcp_client.c: the client that copies standard input to
-- a socket and the socket to standard output, with non-blocking calls round one `poll`.
pub mod Buffer
pub mod State
pub mod Loop
pub mod Log
pub mod Inv
pub mod Round
pub mod Order
pub mod Progress
pub mod Ending
pub mod Setup
pub mod Modes
mod Tests
