-- ===== src/Scheduler.antt =====
-- Assignment4/scheduler.c: the thread scheduler that the simulator drives by callbacks.
mod State
mod Handlers
mod Report
pub mod Trace
pub mod Conserve
pub mod Policy
pub mod Preemption
pub mod Faults
pub mod Device
pub mod Totals
mod Examples
unfoldable pub use State.*
unfoldable pub use Handlers.*
unfoldable pub use Report.*
