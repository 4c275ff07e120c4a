-- ===== src/Hybrid.antt =====
-- The hybrid of reactor and proactor in codes/network/proactor_epoll: hybrid_proactor.h,
-- hybrid_proactor.c and efficient_hybrid_server.c.
pub mod Connection
pub mod Events
pub mod Accept
pub mod Worker
pub mod Lifecycle
pub mod Server
pub mod Main
mod Ownership
mod Keeping
mod Writing
mod Answering
mod Reading
mod Faults
mod Safety
mod Newcomer
mod Admission
mod Rounds
mod Shutdown
mod Starting
mod Ending
mod Tests
