-- ===== src/HttpServer.antt =====
-- codes/aco_httpd: an HTTP server with a coroutine for each connection.
pub mod Poll
pub mod Kqueue
pub mod Epoll
pub mod State
pub mod Accept
pub mod Routine
pub mod Loop
pub mod Inv
pub mod Turns
pub mod Lifecycle
pub mod Setup
pub mod Agree
mod Tests
pub mod Batch
