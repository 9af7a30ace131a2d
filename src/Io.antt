-- ===== src/Io.antt =====
-- crates/n3io: the reactor.
mod Defs
pub mod Reactor
pub mod Await
pub mod Timeout
pub mod Net
pub mod Copy
pub mod Halves
pub use Defs.*
