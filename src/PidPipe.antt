-- ===== src/PidPipe.antt =====
-- codes/apue/process/parent_child_tell.c: the two processes as steps, what they print, and runs.
mod System
mod Handshake
mod Progress
mod Tests
