-- ===== src/Userspace.antt =====
-- The library of user programs.
pub mod Malloc
pub mod Printf
