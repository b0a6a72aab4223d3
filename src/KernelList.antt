-- ===== src/KernelList.antt =====
-- Lab2/pintos/src/lib/kernel/list.c: doubly linked lists in a heap of links.
mod Links
mod Ops
mod Chain
mod Relink
mod Lists
mod Walk
mod Turn
mod Reverse
mod Examples
