-- ===== src/SignalMask.antt =====
-- codes/apue/signal/sig_mask.c: the program under signals, what becomes of SIGINT, and runs.
mod Program
mod Pending
mod Tests
