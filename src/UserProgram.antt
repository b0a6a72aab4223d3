-- ===== src/UserProgram.antt =====
-- Lab3/pintos/src/userprog: the command line on the stack of a process, process_execute, the system calls.
mod Stack
mod Push
mod Calls
mod Execute
mod Examples
