-- ===== src/Examples/Scanning.antt =====
-- The stack of a thread with one slot, that holds the address of the first object of the sample heap.
use cgc.Base.{ℕ, ◌≡◌, refl, true, false, some, List, [], ◌∷◌, Memᴰ, arith}
use cgc.Heap.Sample.{header, layout, address_set}
use cgc.Mark.{Marking}
use cgc.Mark.Reach.{Object, resolve, marked, Fits}
use cgc.Thread.{ThreadState, Bounds}
use cgc.Thread.Scan.{Covers}
use cgc.Thread.Gather.{tlks, mark_phase}
use cgc.Thread.Stopped.{stack_slots, IsStopped}
use cgc.Thread.Marked.{mark_phase-stacks}
use cgc.Examples.Marking.{before, objects, finite, clear}

abbrev pub bounds : Bounds
bounds = record { slab_begin = 96; slab_end = 160; fast_slab_begin = 1000; fast_slab_end = 1096 }

pub bounds-Covers : Covers layout bounds
bounds-Covers = record {
  fast_begin = omega arith;
  fast_end = omega arith;
  current = λ os h. ground arith;
}

abbrev pub one_thread : ThreadState
one_thread = record {
  thread_allocator = 0;
  bitmap_thread_allocator = 0;
  thread_handle = 3;
  thread_id = 7;
  top_of_stack = 16;
  stack_ptr = 8;
  in_signal_handler = false;
  potential_roots = [];
  root_capacity = 0;
}

abbrev pub same : ℕ → ℕ
same p = p

pub thread-IsStopped : IsStopped same 2 one_thread
thread-IsStopped = record {
  stack_set = λ e. cc;
  top_set = λ e. cc;
  aligned = refl;
  whole = refl;
  enough = omega arith;
}

mark_phase-stacks_example :
    (mark_rounds : ℕ) × (after : List ThreadState) × (t : Marking header layout address_set)
    × (mark_phase layout bounds address_set same 2 header mark_rounds
          (7 ∷ [])
          []
          []
          []
          (one_thread ∷ [])
          before
        ≡ some (after, t))
    × Fits header layout address_set before.states t
    × ((id : ℕ) (thread : ThreadState)
        → Memᴰ id (7 ∷ [])
        → tlks id (one_thread ∷ []) ≡ some thread
        → (p : ℕ) → Memᴰ p (stack_slots thread)
        → (o : Object) → resolve header layout before.states (layout.load p) ≡ some o
        → marked header layout address_set t o ≡ true)
    × ((p : ℕ)
        → Memᴰ p []
        → (o : Object) → resolve header layout before.states (layout.load p) ≡ some o
        → marked header layout address_set t o ≡ true)
mark_phase-stacks_example =
    mark_phase-stacks layout bounds address_set same 2 header bounds-Covers (7 ∷ []) [] [] []
      (one_thread ∷ []) before objects (thread-IsStopped, tt) finite clear
