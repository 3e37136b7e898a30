-- ===== src/Command.antt =====
-- internal/command: which keys a command has, virtual databases, and commands over many slots.
pub mod Table
pub mod Positions
pub mod Keys
pub mod Classify
pub mod Database
pub mod Reply
pub mod Fanout
