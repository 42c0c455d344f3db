-- ===== src/StaleBuffer.antt =====
-- codes/apue/process/proc_grp.c, codes/apue/signal/sh_sleep.c and codes/apue/kqueue_server/client.cpp:
-- programs that read into one array again and again and print it as a string.
mod ProcGrp
mod ShSleep
mod Stale
mod Bounds
mod Client
mod Lines
mod Tests
