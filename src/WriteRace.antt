-- ===== src/WriteRace.antt =====
-- codes/apue/pthreadl/write_race.c: its threads as steps, the order of what they write, and a run.
mod System
mod Blocks
mod Order
mod Progress
mod Tests
