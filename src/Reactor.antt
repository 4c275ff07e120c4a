-- ===== src/Reactor.antt =====
-- codes/network/reactor: connections, reactor threads and the reactor that owns them.
pub mod Connection
pub mod Echo
pub mod ReadLoop
pub mod Session
pub mod Table
pub mod Thread
pub mod Events
pub mod MainLoop
pub mod Ownership
pub mod Adding
pub mod Accepting
pub mod Handlers
pub mod Sorting
pub mod Stuck
pub mod Safety
pub mod Core
pub mod Server
pub mod Destruction
pub mod Serving
pub mod Threads
pub mod Fresh
pub mod Exit
pub mod Lifecycle
pub mod Distribution
mod Tests
