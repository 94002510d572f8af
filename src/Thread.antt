-- ===== src/Thread.antt =====
-- cgc1/src/thread_local_kernel_state.hpp, thread_local_kernel_state_impl.hpp and
-- thread_local_kernel_state.cpp (the POSIX part): what the collector keeps for a thread of the program, and
-- the scan of its stack. A null pointer is 0.
pub mod Scan
pub mod Gather
pub mod Stopped
pub mod Marked
use cgc.Base.{
  ℕ, zero, suc, ◌+◌, Bool, true, false, ◌&&◌, ◌||◌, Option, none, some, List, [], ◌∷◌, ◌++◌, length,
  if◌then◌else◌, ◌==◌, ltb, leb,
}
use cgc.Heap.{Layout}

-- `thread_local_kernel_state_t`; `root_capacity` is the capacity of the vector of potential roots.
pub record ThreadState : Type 0 where
  pub thread_allocator : ℕ
  pub bitmap_thread_allocator : ℕ
  pub thread_handle : ℕ
  pub thread_id : ℕ
  pub top_of_stack : ℕ
  pub stack_ptr : ℕ
  pub in_signal_handler : Bool
  pub potential_roots : List ℕ
  pub root_capacity : ℕ

-- The constructor, in the thread `id` whose handle is `handle`.
unfoldable pub new_thread_state : ℕ → ℕ → ThreadState
new_thread_state id handle = record {
  thread_allocator = 0;
  bitmap_thread_allocator = 0;
  thread_handle = handle;
  thread_id = id;
  top_of_stack = 0;
  stack_ptr = 0;
  in_signal_handler = false;
  potential_roots = [];
  root_capacity = 0;
}

unfoldable pub set_top_of_stack : ℕ → ThreadState → ThreadState
set_top_of_stack top t = record t { top_of_stack = top }

unfoldable pub set_stack_ptr : ℕ → ThreadState → ThreadState
set_stack_ptr p t = record t { stack_ptr = p }

unfoldable pub set_in_signal_handler : Bool → ThreadState → ThreadState
set_in_signal_handler b t = record t { in_signal_handler = b }

unfoldable pub set_thread_allocator : ℕ → ThreadState → ThreadState
set_thread_allocator a t = record t { thread_allocator = a }

unfoldable pub set_bitmap_thread_allocator : ℕ → ThreadState → ThreadState
set_bitmap_thread_allocator a t = record t { bitmap_thread_allocator = a }

-- `none` is the exception for a full vector.
unfoldable pub add_potential_root : ℕ → ThreadState → Option ThreadState
add_potential_root root t =
    if length t.potential_roots == t.root_capacity
    then none
    else some (record t { potential_roots = t.potential_roots ++ root ∷ [] })

unfoldable pub clear_potential_roots : ThreadState → ThreadState
clear_potential_roots t = record t { potential_roots = [] }

-- How a scan ends: with the container, with `std::abort`, or not within the rounds given.
pub data Scanned : Type 0 where
  found : List ℕ → Scanned
  aborts runs_on : Scanned

-- The arguments `begin`, `end`, `fast_slab_begin` and `fast_slab_end` of the scan.
pub record Bounds : Type 0 where
  pub slab_begin : ℕ
  pub slab_end : ℕ
  pub fast_slab_begin : ℕ
  pub fast_slab_end : ℕ

module _ (L : Layout) (B : Bounds) where
  -- The tests on the word in a slot.
  unfoldable pub is_candidate : ℕ → Bool
  is_candidate word =
      let os = L.from_object_start word in
      if leb B.slab_begin os && ltb os B.slab_end
      then true
      else leb B.fast_slab_begin word && ltb word B.fast_slab_end

  -- The loop, for a number of rounds.
  unfoldable pub scan_from : ℕ → ℕ → ℕ → List ℕ → Scanned
  scan_from zero top v container = runs_on
  scan_from (suc rounds) top v container = elim (v == top) [
    | true ↦ found container
    | false ↦
        scan_from rounds top (v + 8)
          (if is_candidate (L.load v) then container ++ v ∷ [] else container)
  ]

  -- `align` is `mcpputil::align_pow2(…, 3)`.
  unfoldable pub scan_stack : (ℕ → ℕ) → ℕ → List ℕ → ThreadState → Scanned
  scan_stack align rounds container t =
      if t.stack_ptr == 0 || t.top_of_stack == 0
      then aborts
      else scan_from rounds t.top_of_stack (align t.stack_ptr) container
