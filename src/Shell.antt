-- ===== src/Shell.antt =====
-- kernel/shell.c, the command line: `execute_command` cuts the line into words in place and calls the
-- handler of the first of them.
pub mod System
pub mod Commands
pub mod Programs
pub mod Dispatch
pub mod Lookup
pub mod Arguments
pub mod StoredName
pub mod WriteCat
pub mod Echo
pub mod Math
pub mod Line
pub mod Keeps
pub mod Examples
mod Tests
