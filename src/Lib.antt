-- ===== src/Lib.antt =====
-- Operating systems assignments: the modified xv6 kernel of A5/xv6-public, the cab service of
-- A4/q3, and the quicksort of A4/q1.
--
-- The kernel (module Xv6) is the process table of proc.c with four schedulers, one of which is
-- chosen when the kernel is built (SCHEDULER in the Makefile): round robin, first come first
-- served, priority based, and a multilevel feedback queue. The table, the five rows of prioQ, the
-- clock and the free list of kalloc.c make one record, Kernel. Each function of proc.c holds
-- ptable.lock for its whole work, so a call is one step on that record; locks and interrupts do
-- not show. A process is named by its slot in ptable.proc.
--
-- Under the system calls stands the file system, a layer to a module: open files (file.c) read
-- and write inodes (fs.c), whose blocks come from the free map (fs.c); every change of a block is
-- noted in a transaction of the log (log.c), which reads and writes the disk through the buffer
-- cache (bio.c). Each layer has a state of its own, and uses of the layer below are its calls in
-- the model where they change what the layer promises: filewrite calls writei, dirlookup calls
-- readi, writei calls bmap, bmap calls balloc, iput calls itrunc.
--
--   Base: names and lemmas that all parts share; tables are functions of the index.
--   Xv6/Types.antt, Xv6/Kernel.antt: struct proc, the outcome of a function that may panic, the
--     state, loops over the table.
--   Xv6/Ring.antt: a row of prioQ (getFront, popFront, the loops of pushBack and deleteIdx);
--     Ring/Refine.antt and Ring/Delete.antt relate it to a list of slots.
--   Xv6/Mlfq.antt: pushBack, popFront, deleteIdx, incPrio, decPrio and updateStatsAndAging on the
--     whole state; Mlfq/Invariant.antt states when the queues are valid, Mlfq/Valid.antt,
--     Mlfq/Frame.antt and Mlfq/Promote.antt prove what the functions keep.
--   Xv6/Scheduler.antt: scheduler under its four build options, procIsDead, timeToPreempt;
--     Scheduler/Serve.antt, Scheduler/Pick.antt, Scheduler/Choice.antt, Scheduler/Requeue.antt
--     and Scheduler/Preempt.antt prove what they choose.
--   Xv6/Table.antt: allocproc, fork, exit, waitx (and wait, which returns the pid alone), sleep,
--     wakeup1, yield, kill, set_prio, getpinfo; its children prove what each leaves.
--   Xv6/Trap.antt: the timer interrupt of trap.c and the decision to yield.
--   Xv6/Pipe.antt: pipewrite, piperead and pipeclose of pipe.c, from one sleep to the next, on
--     the pipe and the kernel; Pipe/Fifo.antt, Pipe/Fill.antt, Pipe/Drain.antt and
--     Pipe/Turns.antt relate a pipe to the list of its bytes.
--   Xv6/Memory.antt: the functions of string.c; Memory/Move.antt, Memory/Strings.antt and
--     Memory/Set.antt prove what memmove, memcmp, safestrcpy, memset and strlen do.
--   Xv6/Kalloc.antt: kalloc, kfree and freerange of kalloc.c on the free list.
--   Xv6/Log.antt: log.c, on one record with the log in memory, the disk, the cached contents and
--     the number of block writes that still reach the disk: with a number too small for a commit,
--     the machine stops in the middle of it. Log/Writes.antt, Log/Install.antt, Log/Crash.antt,
--     Log/Commit.antt and Log/Recover.antt prove what a commit leaves and what recovery makes of
--     a disk that was cut off; Log/Calls.antt, Log/Note.antt and Log/Space.antt treat begin_op,
--     end_op and log_write.
--   Xv6/Bcache.antt: bget, bread, bwrite, brelse and binit of bio.c and iderw of memide.c;
--     Bcache/Search.antt, Bcache/Serve.antt, Bcache/Unique.antt, Bcache/Calls.antt and
--     Bcache/Steps.antt prove what bget returns and what all calls keep.
--   Xv6/Fs.antt, Fs/Bitmap.antt: the blocks of the file system, balloc and bfree of fs.c.
--   Xv6/Inode.antt: bmap, readi, writei and itrunc of fs.c. Inode/Place.antt states when the
--     block numbers of a file are sound and what its bytes are; Inode/Grow.antt, Inode/Slot.antt
--     and Inode/Map.antt treat bmap, Inode/Read.antt and Inode/Readi.antt reading,
--     Inode/Write.antt and Inode/Written.antt writing, Inode/Roundtrip.antt both,
--     Inode/Free.antt, Inode/Truncate.antt, Inode/Direct.antt and Inode/Itrunc.antt the freeing
--     of a file.
--   Xv6/Icache.antt: iget, idup, ialloc, iupdate, ilock and iput of fs.c; Icache/Search.antt,
--     Icache/Unique.antt and Icache/Put.antt prove what they do.
--   Xv6/File.antt: filealloc, filedup, fileclose, fileread and filewrite of file.c;
--     File/Chunks.antt treats the loop of filewrite.
--   Xv6/Spin.antt: pushcli, popcli, holding, acquire and release of spinlock.c; Spin/Nesting.antt
--     treats matched calls.
--   Xv6/Path.antt: skipelem and namex of fs.c; Path/Elements.antt relates a path to its elements,
--     and Path/Directory.antt is dirlookup; Directory/Entry.antt treats one entry,
--     Directory/Reply.antt says what a reply is, and Directory/Lookup.antt treats the loop.
--   Xv6/Machine.antt, Xv6/Tests.antt, and the module Tests of each part: the theorems at a
--     concrete machine.
--
-- The cab service (module Cabs) is A4/q3: threads of riders that book cabs, share or leave them
-- under the mutex checkCab.
--
--   Cabs/Types.antt, Cabs/Ride.antt: the shared table, findCab and bookCab of rider.c, usefulCab
--     and endRide of cab.c.
--   Cabs/System.antt: the threads as steps, one for each stretch of code that holds the mutex.
--   Cabs/Load.antt, Cabs/Crew.antt, Cabs/Board.antt, Cabs/Seats.antt, Cabs/Invariant.antt,
--     Cabs/Moves.antt: how many rides are under way, who sits in which cab, and what each move
--     keeps; Cabs/Runs.antt, Cabs/Promise.antt, Cabs/Search.antt: what holds in every run.
--   Cabs/Pay.antt: makePayment and madePayment of rider.c and the loop of initServer in server.c;
--     Pay/Pile.antt and Pay/Kept.antt prove what they keep.
--   Cabs/Tests.antt, Cabs/Pay/Tests.antt: the theorems at a concrete run.
--
-- The sorts (module Sorts) are those of A4/q1/q1.c on an array of int, a function of the index.
--
--   Sorts/Array.antt: swap, and when an array comes from another by swaps within a part.
--   Sorts/Insertion.antt: insertionSort; Sorts/Partition.antt, Sorts/Split.antt: partition;
--     Sorts/Quick.antt: normal_quicksort.
--   Sorts/Tests.antt: the theorems at a concrete array.
--
-- Bounds. The loop of pushBack and that of deleteIdx go round a row once at most, so
-- MAX_PROC_COUNT rounds of fuel are enough, and the lemmas on them give the result for every
-- valid queue. The loop that drops dead processes makes its queue shorter each round, and has one
-- round more than the queue has entries. freerange has one round more than there are pages below
-- its end. The search of endRide has one round more than there are riders. The loops of partition
-- have as many rounds as the part has values, the outer one one more, and normal_quicksort calls
-- itself no deeper than that. Clock values are 32-bit patterns with their wrap-around; getTicks
-- reads the difference as an int. Pids, and the counters of a process, do not wrap. An access
-- that C leaves undefined, an index outside its array or a null pointer followed, is the outcome
-- fault; so is prioQSize going below zero.
--
-- The file system. A block's contents are kept in three readings, as bits, as bytes and as block
-- numbers, since no block is read in two ways at once; bread, log_write and brelse are reads and
-- writes of these. The loops of readi and writei move at least a byte a pass, so as many passes
-- as bytes are enough; the outer loop of balloc has as many passes as the disk has blocks. off +
-- n in readi and writei wraps at 32 bits, and the theorems ask for a sum that does not. namex
-- takes the test for a directory and dirlookup as arguments, and has a pass more than the path
-- has characters. The log_write of a pass of writei may find the log full: writei takes this as
-- an argument, a function of the bytes stored before the pass. filewrite gives writei at most
-- 1536 bytes in a transaction, few enough for the log, so its argument is the function that is
-- never true. The soundness of an inode speaks of all places of its indirect block, also of those
-- past its end, which are never written.
--
-- Addresses in Xv6/Memory.antt do not wrap.
--
-- Not modelled of the kernel: page tables (copyuvm, what it makes of the free list, is an
-- argument of fork, and the pages that freevm finds in an address space are an argument of
-- waitx), trap frames, the context switch itself (what a process does while it runs is an
-- argument of the scheduler), the per-CPU structures, dirlink, the system calls, program loading,
-- the devices, user programs, and console output. Not modelled of the cab service: the clock and
-- the random choices of the riders (a wait may end at any time, for either reason) and messages.
-- Not modelled of A4/q1: the quicksorts with processes and threads, which sort disjoint parts.
-- The other assignments (A1, A2, A4/q2) mostly work on files, processes and terminals.
pub mod Base
pub mod Xv6
pub mod Cabs
pub mod Sorts
