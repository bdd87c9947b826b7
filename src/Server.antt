-- ===== src/Server.antt =====
-- source/server.c
pub mod State
pub mod Capacity
pub mod Open
pub mod Access
pub mod Write
pub mod Walk
pub mod Worker
pub mod Invariant
pub mod Spec
pub mod Refine
pub mod Handled
pub mod Create
pub mod Stored
pub mod Appended
pub mod Evict
pub mod Limits
pub mod Removed
pub mod Expelled
pub mod Full
pub mod Swapped
pub mod Release
pub mod Ended
pub mod Sent
pub mod Plain
pub mod Rounds
pub mod Drain
pub mod Message
pub mod Dispatch
pub mod Config
pub mod Shutdown
pub mod Stop
pub mod Private
