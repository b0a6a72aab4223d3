-- ===== src/Pager.antt =====
-- Assignment5/pager.c: the page replacement algorithms.
mod State
mod Search
mod Request
pub mod Pages
pub mod Finding
pub mod Clock
pub mod Residency
pub mod History
pub mod Frequency
pub mod LeastFrequent
mod Examples
unfoldable pub use State.*
unfoldable pub use Search.*
unfoldable pub use Request.*
