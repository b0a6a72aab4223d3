-- ===== src/Cartman/Invariant.antt =====
-- What holds of the threads and of the calls in every state.
mod Defs
mod Moves
mod Awake
mod Steps
pub use Defs.*
pub use Steps.*
