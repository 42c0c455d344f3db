-- ===== src/DirCount.antt =====
-- codes/apue/timec/duc.c, ducfd.c and duclinkfd.c: three programs that count the files below a
-- directory by their type.
pub mod Tree
pub mod Programs
pub mod Paths
pub mod Spec
pub mod Depth
pub mod Worklist
pub mod Compare
mod Tests
