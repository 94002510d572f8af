-- ===== src/Examples/Stacks.antt =====
-- A whole collection of the sample heap, with one stopped thread whose stack leads to the first object.
use cgc.Base.{ℕ, ◌≡◌, ◌⊎◌, some, List, [], ◌∷◌, Memᴰ}
use cgc.Heap.Sample.{header, layout, address_set}
use cgc.Mark.Reach.{Object, resolve}
use cgc.Thread.{ThreadState}
use cgc.Thread.Gather.{tlks}
use cgc.Thread.Stopped.{stack_slots}
use cgc.Sweep.{Sweeping, clear_marks}
use cgc.Collection.{collect_stopped}
use cgc.Collection.Correct.{Collects}
use cgc.Collection.Stacks.{collect_stopped-Collects}
use cgc.Examples.Collecting.{
  user_data, before, blocks, objects, blocks-Distinct, finite, unmarked_outside,
}
use cgc.Examples.Scanning.{bounds, bounds-Covers, same, one_thread, thread-IsStopped}

collect_stopped-Collects_example :
    (mark_rounds : ℕ) × (after : List ThreadState) × (w : Sweeping header) × (found : List ℕ)
    × (put_off : address_set.Set) × (collect_stopped header layout address_set user_data bounds same
          2 mark_rounds blocks
          (7 ∷ [])
          []
          []
          []
          []
          (one_thread ∷ [])
          before
        ≡ some (after, w))
    × ((p : ℕ) → Memᴰ p [] → Memᴰ p found)
    × ((id : ℕ) (thread : ThreadState)
        → Memᴰ id (7 ∷ [])
        → tlks id (one_thread ∷ []) ≡ some thread
        → (p : ℕ) → Memᴰ p (stack_slots thread)
        → (o : Object)
        → resolve header layout (clear_marks header blocks before.states) (layout.load p) ≡ some o
        → Memᴰ p found)
    × ((p : ℕ)
        → Memᴰ p found
        → Memᴰ p []
          ⊎ ((id : ℕ) × (thread : ThreadState) × Memᴰ id (7 ∷ [])
              × (tlks id (one_thread ∷ []) ≡ some thread)
              × Memᴰ p (stack_slots thread)))
    × ((a : ℕ)
        → Memᴰ a (address_set.elems put_off)
        → Memᴰ a (address_set.elems before.to_mark)
          ⊎ ((id : ℕ) × (thread : ThreadState) × Memᴰ id (7 ∷ [])
              × (tlks id (one_thread ∷ []) ≡ some thread)
              × Memᴰ a thread.potential_roots))
    × Collects header layout address_set user_data blocks found [] [] []
        (record before { to_mark = put_off })
        w
collect_stopped-Collects_example =
    collect_stopped-Collects header layout address_set user_data bounds same 2 blocks (7 ∷ []) [] []
      [] [] (one_thread ∷ []) before objects bounds-Covers (thread-IsStopped, tt) blocks-Distinct
      unmarked_outside (finite (clear_marks header blocks before.states))
