-- ===== src/Tests.antt =====
-- Runs of the models on concrete inputs, and instances of the theorems.
pub mod Scheduling
pub mod Messages
pub mod Owners
pub mod Sockets
pub mod Listeners
pub mod Calls
pub mod Files
pub mod Values
