-- ===== src/Kernel.antt =====
-- The Pintos kernel of Lab2 (and the timer of Lab1): threads, synchronization and the timer.
mod State
mod Ordered
mod Threads
mod Sync
mod Invariant
mod Keeping
mod Actions
mod Timer
mod Intq
mod Waiting
mod Sleepers
mod Waking
mod Examples
