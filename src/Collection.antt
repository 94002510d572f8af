-- ===== src/Collection.antt =====
-- A round of the loop of a collector thread (`_run` of cgc1/src/gc_thread.cpp), where it is the only one:
-- all marks are cleared, those of the bitmap states by the collecting thread meanwhile
-- (cgc1/src/global_kernel_state.cpp), the reachable objects are marked, the blocks are swept, and once the
-- threads have resumed, what was swept is finalized. What the collecting thread does beside the sweep, the
-- finalization of the bitmap states, is in BitmapFinal and no part of a round here.
pub mod Queue
pub mod Correct
pub mod Stacks
pub mod Cycle
pub mod Bitmap
use mathlib.Core.List.Memᴰ
use cgc.Base.{
  ℕ, ◌≡◌, refl, sym, ap, subst, ◌∙◌, ◌⊎◌, inl, inr, ⊎_elim, ◌↔◌, Bool, true, false, not, ◌||◌,
  Option, none, some, List, [], ◌∷◌, ◌++◌, Memᴰ, Distinct, Bool-cases, contains, contains_iff,
  nat_eq, ◌≢◌, if◌then◌else◌, ◌==◌, arith,
}
use cgc.Word.Flags.{is_marked}
use cgc.Heap.{ObjectHeader, Layout, AddressSet}
use cgc.Mark.{Marking, mark_roots}
use cgc.Mark.Reach.{Object, packed, sparse, resolve, marked, Fits}
use cgc.Mark.Exact.{IsReachable, mark_roots-exact}
use cgc.Thread.{ThreadState, Bounds}
use cgc.Thread.Gather.{mark_phase}
use cgc.Sweep.{UserData, Sweeping, clear_marks, sweep}
use cgc.Passing.{Passing, add_num_freed, collector_finalizes}
use cgc.Sweep.Clear.{all_states, SameButMark, Clears, clear_marks_at}
use cgc.Sweep.Swept.{
  Fate, fate, swept, queue_of, Sweeps, sweep-Sweeps, kept, quasi_freed, queued, is_quasi, is_queued,
}

module _ (H : ObjectHeader) (L : Layout) (A : AddressSet) where
  -- The marking that the mark phase starts from: `_clear_marks` on the blocks, and `clear_mark_bits` on
  -- every bitmap state, which leaves no bit set.
  unfoldable pub cleared_marking : List (List ℕ) → Marking H L A → Marking H L A
  cleared_marking blocks m = record m {
    states = clear_marks H blocks m.states;
    bits = λ state index. false;
  }

module _ (H : ObjectHeader) (L : Layout) (A : AddressSet) (user_data : ℕ → UserData) where
  -- The phases over the blocks, from the given roots, with the list of objects to be freed as it was.
  unfoldable pub collect_phases :
      ℕ → List (List ℕ) → List ℕ → List ℕ → List ℕ → List ℕ → Marking H L A → Option (Sweeping H)
  collect_phases rounds blocks stack_roots roots range_points to_be_freed m =
      elim (mark_roots H L A rounds stack_roots roots range_points
        (cleared_marking H L A blocks m)) [
          | none ↦ none
          | some t ↦ some (sweep H user_data blocks t.states to_be_freed)
        ]

  -- The same with the whole of `_mark`, for the stopped threads.
  unfoldable pub collect_stopped :
      Bounds
      → (ℕ → ℕ)
      → ℕ
      → ℕ
      → List (List ℕ)
      → List ℕ
      → List ℕ
      → List ℕ
      → List ℕ
      → List ℕ
      → List ThreadState
      → Marking H L A
      → Option (List ThreadState × Sweeping H)
  collect_stopped B align rounds mark_rounds blocks watched stack_roots roots range_points
        to_be_freed threads m =
      elim (mark_phase L B A align rounds H mark_rounds watched stack_roots roots range_points
        threads (cleared_marking H L A blocks m)) [
          | none ↦ none
          | some (after, t) ↦ some (after, sweep H user_data blocks t.states to_be_freed)
        ]

  -- One round of `_run` of a collector thread, whose sweep tells the kernel how many it has freed: the
  -- phases, with the bitmap states cleared, and then its finalization.
  unfoldable pub collector_round :
      ℕ
      → List (List ℕ)
      → List ℕ
      → List ℕ
      → List ℕ
      → List ℕ
      → Marking H L A
      → Passing
      → Option (Sweeping H × Passing)
  collector_round rounds blocks stack_roots roots range_points to_be_freed m p =
      elim (collect_phases rounds blocks stack_roots roots range_points to_be_freed m) [
        | none ↦ none
        | some w ↦ some (
          w,
          collector_finalizes H L w.states user_data w.to_be_freed (add_num_freed w.num_freed p),
        )
      ]
