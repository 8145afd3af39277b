-- ===== src/Shell.antt =====
-- project1/myshell.c and lab2/ch8/simplesh.c: how the two shells cut a line into words, in place, and
-- what project1's shell does with the line.
mod Tests
pub mod Parse
pub mod Simple
pub mod Line
pub mod Session
pub mod Processes
pub mod Descriptors
