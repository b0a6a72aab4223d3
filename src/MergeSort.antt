-- ===== src/MergeSort.antt =====
-- Merge sort of a range of an array, by one thread, four threads, and two processes.
mod Ranges
mod Merge
mod Sort
mod Process
mod Single
mod Multi
mod Halves
mod Listed
mod Examples
