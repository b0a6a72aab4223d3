-- ===== src/Fileman.antt =====
-- Assignment6/fileman.c: reading, writing and copying files, and printing directory trees.
mod Bytes
mod Names
mod Files
mod Read
mod Write
mod Tree
mod Examples
