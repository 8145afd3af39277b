-- ===== src/Commands.antt =====
-- project1/commands.c: the built-in commands of the shell.
mod Tests
pub mod Args
pub mod Text
pub mod Files
pub mod Listing
