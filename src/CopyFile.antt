-- ===== src/CopyFile.antt =====
-- codes/apue/timec/splice_copy_file.c: the program itself, what its two copies do, and runs of it.
mod Program
mod Copying
mod Tests
