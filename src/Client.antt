-- ===== src/Client.antt =====
-- client/: the curses client that shows what diald does.
pub mod Printf
pub mod Window
pub mod Rows
pub mod Status
pub mod Pipe
pub mod Startup
pub mod Refresh
pub mod Reports
pub mod Running
pub mod Tester
pub mod Lexer
pub mod Titles
pub mod Help
pub mod Resolve
pub mod Screen
pub mod Service
pub mod Main
