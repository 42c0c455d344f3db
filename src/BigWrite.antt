-- ===== src/BigWrite.antt =====
-- codes/apue/process/pipe_oversize_write.c: two children write more into a pipe than it may hold.
mod System
mod Counts
mod Progress
mod Ends
mod Tests
