-- ===== src/Examples.antt =====
-- The programs in examples/ that call the library.
pub mod Reactors
pub mod Drained
pub mod Sync
pub mod Programs
pub mod Answered
pub mod Unique
pub mod Launched
pub mod Shown
pub mod Said
pub mod Coroutines
pub mod Settled
