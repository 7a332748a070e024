-- ===== src/Tools.antt =====
-- The commands of Assignment1, each as a function of its arguments, its environment and the host.
-- A result is the exit status, as main returns it, with the host afterwards.
pub mod Options
pub mod Sudo
pub mod Reading
pub mod Writing
pub mod Acls
pub mod Dirs
pub mod Making
