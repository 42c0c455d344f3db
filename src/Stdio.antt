-- ===== src/Stdio.antt =====
-- Programs that print through the buffer of stdout: codes/apue/chapter3/dup_usage.c and
-- codes/apue/process/fork_buff.c.
mod Buffer
mod Redirect
mod Fork
mod Tests
