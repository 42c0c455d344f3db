-- ===== src/ThreadPool.antt =====
-- codes/apue/threadpool/main.c: a pool of worker threads that share a doubly linked list of tasks
-- under one mutex and one condition variable.
pub mod Store
pub mod Queue
pub mod Linked
pub mod Refine
pub mod System
pub mod Inv
pub mod MainSteps
pub mod WorkerSteps
pub mod Safety
pub mod Guarantees
pub mod Create
mod Tests
mod Task
mod Release
