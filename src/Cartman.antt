-- ===== src/Cartman.antt =====
-- Assignment3/cartman.c: carts that cross critical sections of track, one thread for each arrival.
mod Claim
mod Threads
mod Rules
mod Invariant
mod Safety
mod Examples
pub use Claim.*
pub use Threads.*
