-- ===== src/Xv6.antt =====
-- The modified xv6 kernel of A5/xv6-public.
pub mod Types
pub mod Ring
pub mod Kalloc
pub mod Kernel
pub mod Mlfq
pub mod Scheduler
pub mod Table
pub mod Trap
pub mod Pipe
pub mod Memory
pub mod Log
pub mod Bcache
pub mod Fs
pub mod Inode
pub mod Icache
pub mod Path
pub mod File
pub mod Spin
pub mod Machine
mod Tests
