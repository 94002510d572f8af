-- ===== src/Kernel.antt =====
-- cgc1/src/global_kernel_state.cpp, what the kernel state keeps beside the collection: whether it collects
-- at all (`enable`, `disable`, `enabled`), `initialize`, `_u_initialize`, and the threads that are known to
-- it (`initialize_current_thread`, `destroy_current_thread`, and `cgc_register_thread` of
-- cgc1/src/kernel.cpp). A call is one step here: the waits for a collection and the locks are in Waits.
pub mod Enabled
pub mod Threads
pub mod Registered
pub mod Memory
pub mod Sizes
use cgc.Base.{
  ℕ, ◌+◌, ◌-◌, ◌%◌, Bool, true, false, ◌&&◌, not, List, [], ◌∷◌, ◌++◌, if◌then◌else◌, ◌==◌, ltb,
  contains, erase, nat_eq,
}
use cgc.Word.{word_mod}
use cgc.Heap.{update}
use cgc.Thread.{
  ThreadState, new_thread_state, set_top_of_stack, set_thread_allocator,
  set_bitmap_thread_allocator,
}

-- How a call ends; `faults` is the use of a null pointer.
pub data Ended : Type 0 where
  returns throws terminates faults : Ended

-- `enabled_count` is a word of 64 bits in two's complement. `types` are the bitmap types added, and
-- `gc_threads` the number of collector threads. The thread states lie in memory at addresses; `current` is
-- for each thread, by its id, what `get_tlks` answers, 0 if it is null.
pub record Kernel : Type 0 where
  pub enabled_count : ℕ
  pub initialize_called : Bool
  pub initialized : Bool
  pub types : List (ℕ × ℕ)
  pub gc_threads : ℕ
  pub threads : List ℕ
  pub states : ℕ → ThreadState
  pub current : ℕ → ℕ

-- The state behind the constructor, with nothing known of the memory.
unfoldable pub new_kernel : (ℕ → ThreadState) → Kernel
new_kernel memory = record {
  enabled_count = 1;
  initialize_called = false;
  initialized = false;
  types = [];
  gc_threads = 0;
  threads = [];
  states = memory;
  current = λ id. 0;
}

unfoldable pub enable : Kernel → Kernel
enable k = record k { enabled_count = (k.enabled_count + 1) % word_mod }

unfoldable pub disable : Kernel → Kernel
disable k = record k { enabled_count = (k.enabled_count + (word_mod - 1)) % word_mod }

-- `m_enabled_count > 0`, of a signed number.
unfoldable pub enabled : Kernel → Bool
enabled k = ltb 0 k.enabled_count && ltb k.enabled_count 9223372036854775808

unfoldable pub initialize : Kernel → Ended × Kernel
initialize k = if k.initialize_called then (throws, k) else (
  returns,
  record k { initialize_called = true; types = k.types ++ (0, 0) ∷ (1, 0) ∷ (2, 2) ∷ [] },
)

unfoldable pub u_initialize : Kernel → Kernel
u_initialize k =
    if k.initialized then k else record k { gc_threads = k.gc_threads + 1; initialized = true }

-- The state for the thread `id` with the handle `handle`; `fresh` is the address of the new thread state.
unfoldable pub add_current_thread : ℕ → ℕ → ℕ → ℕ → Kernel → Kernel
add_current_thread fresh id handle top k =
    let k' = u_initialize (record k { current = update k.current id fresh }) in
    record k' {
      states = update k'.states fresh (set_top_of_stack top (new_thread_state id handle));
      threads = k'.threads ++ fresh ∷ [];
    }

unfoldable pub initialize_current_thread : ℕ → ℕ → ℕ → ℕ → Kernel → Ended × Kernel
initialize_current_thread fresh id handle top k =
    if k.current id == 0
    then (returns, add_current_thread fresh id handle top k)
    else (terminates, k)

-- The two caches of allocators, in the state of the thread.
unfoldable pub set_allocators : ℕ → ℕ → ℕ → Kernel → Kernel
set_allocators id sparse bitmap k =
    let p = k.current id in
    record k {
      states =
          update k.states p
            (set_bitmap_thread_allocator bitmap (set_thread_allocator sparse (k.states p)));
    }

-- What `cgc_register_thread` does once the kernel has initialized the thread.
unfoldable pub finish_registration : ℕ → ℕ → ℕ → Ended × Kernel → Ended × Kernel
finish_registration id sparse bitmap (returns, k) = (returns, set_allocators id sparse bitmap k)
finish_registration id sparse bitmap (throws, k) = (throws, k)
finish_registration id sparse bitmap (terminates, k) = (terminates, k)
finish_registration id sparse bitmap (faults, k) = (faults, k)

-- `sparse` and `bitmap` are what `initialize_thread` of the two allocators answers.
unfoldable pub cgc_register_thread : ℕ → ℕ → ℕ → ℕ → ℕ → ℕ → Kernel → Ended × Kernel
cgc_register_thread fresh id handle top sparse bitmap k =
    finish_registration id sparse bitmap (initialize_current_thread fresh id handle top k)

-- Where the thread is not known, its state is asked for its id before the program is terminated.
unfoldable pub destroy_current_thread : ℕ → Kernel → Ended × Kernel
destroy_current_thread id k =
    let p = k.current id in
    if contains p k.threads
    then (returns, record k { threads = erase p k.threads })
    else if p == 0
    then (faults, k)
    else (terminates, k)
