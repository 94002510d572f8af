-- ===== src/Lib.antt =====
-- Verification of cgc1, a conservative mark and sweep garbage collector for C++.
--
-- The program. A kernel state (cgc1/src/global_kernel_state.cpp) owns two allocators of the mcppalloc
-- library, a sparse one and a bitmap one, and a collector thread (cgc1/src/gc_thread.cpp). A collection
-- stops the program's threads and has the collector thread clear all marks, mark what the roots and the
-- stacks lead to, and sweep its blocks; once the threads have resumed it finalizes what was swept.
-- Finalizers bound to a thread are put aside and run later (cgc1/src/sparse_finalization.hpp). What is
-- swept in the bitmap allocator is finalized by the collecting thread (cgc1/src/bitmap_finalization.cpp).
-- The program reaches the kernel by the functions of cgc1/src/kernel.cpp.
--
-- The files.
--   Base: shared names and lemmas, and tests on the native numbers.
--   Word: cgc1/include/cgc1/hide_pointer.hpp. Word/Flags: the flag bits of cgc1/src/gc_allocator_impl.hpp.
--   Roots: cgc1/src/root_collection.hpp, a record of two lists; Roots/History runs calls on it.
--   Heap: what the collector uses of mcppalloc, mcpputil and boost, as interfaces: ObjectHeader is the
--     state of a sparse object, Layout says where things lie and reads memory, AddressSet is the set of
--     addresses put off. They are arguments of the model, with laws that state documented behaviour.
--     Heap/Sample is an instance with three objects.
--   Mark: the mark phase of cgc1/src/gc_thread.cpp behind the scan of the stacks, function by function.
--     Mark/Reach describes which object a word leads to and what can be reached; Steps, Visit, Walk, Ends,
--     Rounds and Exact prove that the phase ends and marks exactly that.
--   Thread: cgc1/src/thread_local_kernel_state_impl.hpp, the state of one thread and `scan_stack`.
--     Thread/Gather: `handle_thread` and the whole of `_mark`. Scan, Stopped and Marked are about what is
--     scanned.
--   Sweep: `_clear_marks`, `_sweep`, `_finalize` and `do_local_sparse_finalization`. The calls of
--     finalizers, the deallocations and the destruction of memory are a list of events. Clear, Swept,
--     Trace, Finalized, Totals and Passes prove what they do.
--   Passing: the vectors of the kernel in which collector threads leave what program threads finalize, and
--     what the kernel reports of them.
--   BitmapFinal: `finalize` of cgc1/src/bitmap_finalization.cpp, with a list of events as well.
--   Collectors: the guards of `collect` and `force_collect`, as acts of any number of threads.
--   Collection: a round of the loop of a collector thread, its phases one after the other and the
--     finalization behind them. Correct is about the phases, Stacks takes the scan of the stacks in, and
--     Cycle is about the round with the finalizers that it runs. Bitmap: the mark phase and BitmapFinal.
--   Waits: `wait_for_collection`, `wait_for_collection2` and their callers against the mutexes that
--     `force_collect` and `_u_suspend_threads` take and give up, as steps of any number of threads.
--     Owners, Excluded, Sending, Stopped and Blocked say who owns what, and what follows.
--   Setup: `_u_setup_gc_threads`, which hands out threads, blocks and roots to the collector threads.
--   Protocol: `_run`, `reset`, `shutdown` and the start_ and wait_until_ members as steps of two threads
--     that take turns in any order. Protocol/States lists the states that they can be in, Explored checks
--     that no step leads out, and Correct draws the conclusions for all runs.
--   World: how a collection stops the other threads of the program and lets them go on, as steps of any
--     number of threads.
--   Suspending: the same on Windows, `_u_suspend_threads` and `_u_resume_threads`.
--   Kernel: enabling, initialization and registration of threads in cgc1/src/global_kernel_state.cpp.
--     Kernel/Memory: allocation and deallocation there, and the calls of cgc1/src/kernel.cpp on top.
--   Api: the look-up of addresses in cgc1/src/kernel.cpp, and Api/Calls the calls on one object, with
--     cgc1/src/bitmap_gc_user_data.hpp. Their state is a store of object states, user data and user bits.
--     Api/Compat: the functions with C linkage.
--   Lifetime: `shutdown` and the destructors of the kernel and of a collector thread, as events, with a
--     monitor of them.
--   Spawning: the thread wrapper of cgc1/include/cgc1/allocated_thread_timpl.hpp, and the block that its
--     constructor hands to the thread.
--   Signals: the table of signal handlers of cgc1/src/posix.cpp, write by write.
--   Allocators: the adapters for containers, of cgc1/src/internal_allocator.hpp and of
--     cgc_internal_malloc_allocator.hpp and gc_allocator.hpp in cgc1/include/cgc1.
--   RootCalls: the calls of cgc1/src/kernel.cpp that are meant to change the kernel's roots.
--   Handles: the root handles of cgc1/include/cgc1/cgc_root.hpp and cgc_root_pointer.hpp.
--   Examples: the theorems at concrete inputs, and runs of the code.
--
-- Bounds and fuel. `_mark_addrs` recurses on a count of levels, 301 less the depth: beyond depth 300 the
-- code makes no further call, and the recursion equation of the code is proved for it. The loop over the
-- addresses put off runs for a number of rounds; that some number is enough is part of the theorems. The
-- scan of a stack runs for a number of rounds that is larger than the number of its slots. A word has 64
-- bits; `~` and the flag masks are written on numbers, and the masks are those of the source.
-- Locks of single members are left out, since a call is then one step; in Protocol the mutex is modelled, as
-- are those of the kernel in Waits, and World keeps the order in which the threads see each other's stores.
-- The finalization passes read object states and user data as they were when the pass began.
-- In Protocol a wait ends by a notification only; a spurious wake-up is not a step.
--
-- In Waits the mutexes of the allocators are taken and given up all at once by `force_collect`, which in
-- the loop before its stores gives some of them up for a moment; finalizers call nothing there.
--
-- Not modelled: the time spans, the libraries themselves, the Windows part but for Suspending, the C
-- functions that answer a constant, the printing to a property tree, and of the platform layer the assembly
-- that cleans the stack and the operators new and delete.
pub mod Base
pub mod Word
pub mod Roots
pub mod Heap
pub mod Mark
pub mod Examples
pub mod Sweep
pub mod Collection
pub mod Protocol
pub mod RootCalls
pub mod Api
pub mod Thread
pub mod World
pub mod Setup
pub mod Spawning
pub mod Suspending
pub mod Kernel
pub mod BitmapFinal
pub mod Handles
pub mod Collectors
pub mod Passing
pub mod Waits
pub mod Signals
pub mod Allocators
pub mod Lifetime
