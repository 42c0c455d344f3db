-- ===== src/Terminal.antt =====
-- codes/apue/signal/get_terminal_size.c: the program, its table of speeds, and runs.
mod Program
mod Speeds
mod Tests
