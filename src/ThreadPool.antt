-- ===== src/ThreadPool.antt =====
-- libraries/core_libs/network: the thread pool that processes packets, its priority queue and the
-- mask of blocked packets.
pub mod Packet
pub mod Mask
pub mod Queue
pub mod Blocking
pub mod Priority
