-- ===== src/Rotation.antt =====
-- codes/algorithm/overflow_uint64.c: the rotations of a red-black tree with parent pointers.
pub mod Tree
pub mod Inverse
mod Tests
