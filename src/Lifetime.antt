-- ===== src/Lifetime.antt =====
-- The end of a kernel's life: `shutdown` and the destructor of cgc1/src/global_kernel_state.cpp,
-- `cgc_shutdown` of cgc1/src/kernel.cpp, and `shutdown` and the destructor of a collector thread in
-- cgc1/src/gc_thread.cpp. What they do to collector threads and allocators is a list of events; the
-- protocol by which a collector thread comes to its end is in Protocol; here it ends, so that every join
-- returns. The vectors of the kernel lie in the internal allocator; destroying a member without memory
-- is no event.
pub mod Monitor
pub mod Ordered
use cgc.Base.{ℕ, Bool, true, false, Option, none, some, List, [], ◌∷◌, ◌++◌, if◌then◌else◌}
use cgc.Kernel.{Kernel, disable}

pub data Event : Type 0 where
  -- The thread function ends, with the destruction of its internal allocator; the thread is joined; its
  -- vectors, which lie in the internal allocator, give up their memory; its `gc_thread_t` is freed.
  exits joins clears frees : ℕ → Event
  -- `wait_for_finalization`, which takes `m_need_special_finalizing_collection_sparse` out and gives up
  -- its memory, and a vector of the kernel gives up its memory.
  waits frees_vector : Event
  shuts_bitmap shuts_sparse shuts_internal : Event

-- A `gc_thread_t`, by a number.
pub record GcThread : Type 0 where
  pub id : ℕ
  pub run : Bool

-- `gc_thread_t::shutdown`.
unfoldable pub gc_thread_shutdown : GcThread → GcThread × List Event
gc_thread_shutdown t = (record t { run = false }, exits t.id ∷ joins t.id ∷ clears t.id ∷ [])

-- `~gc_thread_t`, and the memory of the thread given back by its owner.
unfoldable pub gc_thread_destructor : GcThread → List Event
gc_thread_destructor t = (if t.run then (gc_thread_shutdown t).1 else []) ++ (frees t.id ∷ [])

-- `m_gc_threads.clear()`.
unfoldable pub clear_gc_threads : List GcThread → List Event
clear_gc_threads [] = []
clear_gc_threads (t ∷ ts) = gc_thread_destructor t ++ clear_gc_threads ts

-- The `for_each` with `shutdown_ptr_functional`.
unfoldable pub shutdown_gc_threads : List GcThread → List GcThread × List Event
shutdown_gc_threads [] = ([], [])
shutdown_gc_threads (t ∷ ts) =
    let (u, es) = gc_thread_shutdown t in
    let (us, fs) = shutdown_gc_threads ts in (u ∷ us, es ++ fs)

-- The kernel with its collector threads, whether `m_need_special_finalizing_collection_sparse` has
-- memory, `m_in_destructor`, and what has been done so far.
pub record Owner : Type 0 where
  pub kernel : Kernel
  pub gc_threads : List GcThread
  pub special_memory : Bool
  pub in_destructor : Bool
  pub events : List Event

-- `global_kernel_state_t::shutdown`.
unfoldable pub shutdown : Owner → Owner
shutdown o = record {
  kernel = disable o.kernel;
  gc_threads = [];
  special_memory = false;
  in_destructor = o.in_destructor;
  events = o.events ++ (waits ∷ clear_gc_threads o.gc_threads);
}

-- `~global_kernel_state_t`, with the destruction of the members behind its body.
unfoldable pub destructor : Owner → Owner
destructor o =
    let (stopped, es) = shutdown_gc_threads o.gc_threads in
    record {
      kernel = o.kernel;
      gc_threads = [];
      special_memory = false;
      in_destructor = false;
      events =
          o.events
          ++ (es
              ++ (shuts_bitmap
                  ∷ shuts_sparse
                  ∷ (clear_gc_threads stopped
                      ++ (frees_vector
                          ∷ frees_vector
                          ∷ shuts_internal
                          ∷ (if o.special_memory then frees_vector ∷ [] else [])))));
    }

-- `g_gks`, null or not, with the kernel.
pub record Program : Type 0 where
  pub is_null : Bool
  pub owner : Owner

-- `cgc_shutdown`; `none` is the use of a null pointer.
unfoldable pub cgc_shutdown : Program → Option Program
cgc_shutdown p =
    if p.is_null then none else some (record { is_null = true; owner = shutdown p.owner })
