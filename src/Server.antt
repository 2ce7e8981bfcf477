-- ===== src/Server.antt =====
-- The files of server/.
pub mod Conffile
pub mod Fds
pub mod Ports
pub mod State
pub mod Select
pub mod PortQueue
pub mod Invariant
pub mod Auth
pub mod Monitor
pub mod Commands
pub mod PortServer
pub mod Fifo
pub mod Daemon
pub mod Main
pub mod Process
pub mod Userid
pub mod Access
