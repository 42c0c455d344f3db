-- ===== src/ForkWait.antt =====
-- codes/apue/process/fork_wait.c: the children and what the parent prints of them, and runs.
mod Program
mod Reports
mod Tests
