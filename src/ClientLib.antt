-- ===== src/ClientLib.antt =====
-- client-lib/: what the threads of a client are to share.
pub mod Semaphores
pub mod SystemV
pub mod Threads
pub mod SharedMemory
