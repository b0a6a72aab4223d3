-- ===== src/Lib.antt =====
-- A model of the programs of CSE130_git: a CPU scheduler simulation, a pager, carts on a railway, and
-- the threads of a small kernel, files and directories, and the start of programs, with the theorems about them.
--
-- The parts. Each assignment is a program of its own. Its code is called by a simulator that the
-- repository holds as a compiled library, so the callbacks are the operations of the model, and any
-- sequence of them is a run. Lab1 and Lab2 are copies of the Pintos kernel, each with the changes of
-- its exercise.
--
--   Scheduler/   Assignment4/scheduler.c. State.antt holds the global variables as the record State,
--                Handlers.antt one function for each callback (sys_exec, tick, sys_exit, sys_read,
--                sys_write, io_complete, io_starting), Report.antt the function stats. Trace.antt
--                composes callbacks into runs. The others are proofs, named for what they prove.
--   Pager/       Assignment5/pager.c. State.antt and pager_init, Search.antt find_elem and
--                find_elem_freq, Request.antt pager_request and the code of its five algorithms.
--   Queue.antt   The queues of queue.a, which comes without its source: the record QueueLib of
--                operations and laws, the parameter of Scheduler and of Pager. Queue/Listed.antt fills
--                it with lists and insertion sort.
--   Cartman/     Assignment3/cartman.c. Claim.antt holds the tests of cart_start, Threads.antt the
--                threads as a step relation: one step is what a thread does between two points where
--                others can come in. Rules.antt reads the rules of cartman.h as a check of the calls.
--   Manpage/     Assignment3/manpage.c, in the same way.
--   Kernel/      Lab2/pintos/src/threads (thread.c, semaphore.c, lock.c, condvar.c, and intr_handler of
--                interrupt.c) and devices/timer.c of Lab1 and Lab2. Threads.antt, Sync.antt, Intq.antt (devices/intq.c) and
--                Timer.antt hold the operations; a switch of threads is a change of the field cur.
--                The kernel's lists are lists of thread numbers there.
--   KernelList/  Lab2/pintos/src/lib/kernel/list.c. Links.antt holds the memory, two links for each
--                address, Ops.antt the functions, Chain.antt what it is for a heap to hold a list.
--                The loops run on fuel, and more than the length of the list is enough.
--   Bitmap/      Lab2/pintos/src/lib/kernel/bitmap.c. Ops.antt holds the functions on an array of words of
--                32 bits, Digits.antt the masks, Values.antt a bitmap as a function to booleans,
--                Ranges.antt and Scans.antt the loops.
--   Palloc/      Lab2/pintos/src/threads/palloc.c, over the bitmaps; Pages.antt and Freed.antt are about pages handed out and
--                taken back, Init.antt about the pools at the start.
--   MergeSort/   Assignment2/sort.c, and in Process.antt Assignment1/usort.c and psort.c. Merge.antt is what merge.h says of merge, as the record MergeLib, a
--                parameter; Listed.antt fills it. Sort.antt holds the two sorts; a fuel of the number of
--                elements is enough. The threads of the second sort work on ranges of their own and are
--                taken one after the other.
--   Fileman/     Assignment6/fileman.c. Files.antt holds the functions on files, over the bytes of the files
--                by name; Tree.antt the printing of directories over the parameter scandir, which
--                stands for the library's. Tree/Hierarchy.antt says what is to be printed.
--   Strings/     Lab2/pintos/src/lib/string.c: blocks and strings in a memory of bytes, without overflow
--                of addresses, Tokens.antt for strchr, the functions over a set of characters, and
--                strtok_r, whose save_ptr is not NULL. The loops over a string run on fuel, and more
--                than its length is enough.
--   UserProgram/ Lab3/pintos/src/userprog. Push.antt holds push_command of process.c, Execute.antt
--                process_execute and start_process, Calls.antt umem.c and syscall.c. elf_load, the
--                contents of the stack's page and what is mapped of the memory are parameters.
--   Prelude/     What the parts share: tests on numbers, lists, integers.
--
-- How code becomes a function. A C function is a function from the state to the state, of the same
-- name. What cannot go on (a null pointer that is read, an index beyond an array, an ASSERT that
-- fails) is the result none. A loop over a list is recursion on that list; the loops over a queue of
-- the pager run on fuel, and the theorems prove that the queue's size, or that size and two for the
-- clock hand, is enough. file_rec and file_rec2 run on fuel, and more than the height of the tree
-- is enough. unsigned int wraps at 2 ^ 32; an int is taken as a number without overflow.
-- A thread of cartman.c that waits on the condition variable may wake with no broadcast.
--
-- Not modelled: the simulators and the queue and merge libraries (compiled), printing, freeing of
-- memory, and in Kernel the stacks, switch_threads and thread_init. Of Lab2's kernel library
-- list_splice, list_unique, list_sort and hash.c, of its devices all but the timer and intq.c, and of
-- Lab3 all but userprog.
pub mod Prelude
pub mod Queue
pub mod Scheduler
pub mod Pager
pub mod Cartman
pub mod UserProgram
pub mod Bitmap
pub mod Palloc
pub mod Strings
pub mod Fileman
pub mod Manpage
pub mod MergeSort
pub mod KernelList
pub mod Kernel
