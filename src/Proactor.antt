-- ===== src/Proactor.antt =====
-- The proactor of codes/network/proactor: proactor.h, proactor.c and async_server_proactor.c.
pub mod Connection
pub mod Completion
pub mod Dispatcher
pub mod Server
pub mod Lifecycle
pub mod Main
pub mod Workers
mod Ownership
mod Changes
mod Safety
mod Setup
mod Dispatching
mod Stale
mod Echo
mod Order
mod Creation
mod Stopping
mod Ending
mod Tests
