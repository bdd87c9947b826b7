-- ===== src/Tests.antt =====
-- Runs of the models on concrete inputs, and the theorems at concrete servers.
pub mod Session
pub mod Servers
pub mod Writes
pub mod Full
pub mod Backups
mod Appends
mod Swaps
mod Limits
pub mod Lists
pub mod Removals
mod Transfer
mod Rounds
mod Calls
mod Threads
mod Clients
