-- ===== src/Manpage.antt =====
-- Assignment3/manpage.c: seven threads that show seven paragraphs in their order.
mod Threads
mod Order
mod Examples
