-- ===== src/Sorts.antt =====
-- The sorts of A4/q1/q1.c on arrays of int.
pub mod Array
pub mod Insertion
pub mod Partition
pub mod Split
pub mod Quick
pub mod Tests
