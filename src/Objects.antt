-- ===== src/Objects.antt =====
-- The classes under codes/cplusplus that own memory: class_copy_delete.cpp, class_copy_usage.cpp and
-- struct_copy.cpp.
mod Memory
mod Copies
mod CopyClass
mod Person
mod Strings
mod Tests
