-- ===== src/Sweep.antt =====
-- cgc1/src/gc_thread.cpp, the other phases of a collector thread over its blocks: `_clear_marks`,
-- `_sweep` and `_finalize`; cgc1/src/gc_user_data.hpp, the user data of an object; and
-- cgc1/src/sparse_finalization.hpp, the finalizers that another thread runs. A block is the list of
-- the object states that the code's iterators walk over, `blocks` those of the thread.
pub mod Clear
pub mod Swept
pub mod Trace
pub mod Finalized
pub mod Totals
pub mod Passes
use cgc.Base.{
  ℕ, zero, suc, ◌+◌, ◌-◌, Bool, true, false, not, ◌&&◌, ◌||◌, Option, none, some, List, [], ◌∷◌,
  ◌++◌, if◌then◌else◌, ◌==◌,
}
use cgc.Word.{hide_pointer}
use cgc.Word.Flags.{is_marked, clear_mark}
use cgc.Heap.{ObjectHeader, Layout, update}

-- `gc_user_data_t`. A finalizer is known by a number, and `none` is the empty `std::function`.
pub record UserData : Type 0 where
  pub is_default : Bool
  pub uncollectable : Bool
  pub allow_arbitrary_finalizer_thread : Bool
  pub finalizer : Option ℕ

-- `c_gc_verbose_track`.
abbrev pub c_gc_verbose_track : Bool
c_gc_verbose_track = false

abbrev pub has_finalizer : UserData → Bool
has_finalizer ud = elim ud.finalizer [ none ↦ false | some f ↦ true ]

module _ (H : ObjectHeader) where
  -- `clear_mark(os)` on the states.
  unfoldable pub clear_state : ℕ → (ℕ → H.State) → ℕ → H.State
  clear_state os states =
      update states os (H.set_user_flags (clear_mark (H.user_flags (states os))) (states os))

  -- The loop over a block.
  unfoldable pub clear_block : List ℕ → (ℕ → H.State) → ℕ → H.State
  clear_block [] states = states
  clear_block (os ∷ rest) states = clear_block rest (clear_state os states)

  -- `_clear_marks`.
  unfoldable pub clear_marks : List (List ℕ) → (ℕ → H.State) → ℕ → H.State
  clear_marks [] states = states
  clear_marks (block ∷ rest) states = clear_marks rest (clear_block block states)

  -- What `_sweep` changes: the states, `m_to_be_freed` and its counter.
  pub record Sweeping : Type 0 where
    pub states : ℕ → H.State
    pub to_be_freed : List ℕ
    pub num_freed : ℕ

  -- The branches on the user data of an object that is to be freed. `count` is the counter after
  -- `++num_freed`.
  unfoldable pub sweep_garbage : (ℕ → UserData) → ℕ → ℕ → Sweeping → Sweeping
  sweep_garbage user_data os count w =
      let s = w.states os in
      let ud = user_data (H.user_data s) in
      let quasi = update w.states os (H.set_quasi_freed s) in
      let pushed = w.to_be_freed ++ os ∷ [] in
      if not (H.user_data s == 0)
      then (if ud.is_default
          then record {
            states = quasi;
            to_be_freed = if c_gc_verbose_track then pushed else w.to_be_freed;
            num_freed = count;
          }
          else (if ud.uncollectable
              then record w { num_freed = count - 1 }
              else (if has_finalizer ud
                  then record w { to_be_freed = pushed; num_freed = count }
                  else record w { to_be_freed = pushed; num_freed = count })))
      else record w { states = quasi; num_freed = count }

  unfoldable pub sweep_state : (ℕ → UserData) → ℕ → Sweeping → Sweeping
  sweep_state user_data os w =
      let s = w.states os in
      if H.in_use s && not (is_marked (H.user_flags s))
      then sweep_garbage user_data os (w.num_freed + 1) w
      else w

  unfoldable pub sweep_block : (ℕ → UserData) → List ℕ → Sweeping → Sweeping
  sweep_block user_data [] w = w
  sweep_block user_data (os ∷ rest) w = sweep_block user_data rest (sweep_state user_data os w)

  unfoldable pub sweep_blocks : (ℕ → UserData) → List (List ℕ) → Sweeping → Sweeping
  sweep_blocks user_data [] w = w
  sweep_blocks user_data (block ∷ rest) w =
      sweep_blocks user_data rest (sweep_block user_data block w)

  -- `_sweep`, for the list `m_to_be_freed` as it is. The counter is added to that of the kernel.
  unfoldable pub sweep : (ℕ → UserData) → List (List ℕ) → (ℕ → H.State) → List ℕ → Sweeping
  sweep user_data blocks states to_be_freed =
      sweep_blocks user_data blocks
        (record { states = states; to_be_freed = to_be_freed; num_freed = 0 })

-- What finalization does to the world, in order.
pub data Event : Type 0 where
  -- A finalizer is called on an object.
  runs : ℕ → ℕ → Event
  -- User data is destroyed and deallocated, at the end of the scope of a `unique_ptr`.
  deletes : ℕ → Event
  -- An object is overwritten by zeros, from its start, so many bytes.
  zeroes : ℕ → ℕ → Event
  -- `bulk_destroy_memory` for the objects of these states.
  destroys : List ℕ → Event

-- The events so far, the hidden pointers of the objects to be freed and, for `_finalize`, the states
-- put aside for their own thread.
pub record Finalizing : Type 0 where
  pub events : List Event
  pub to_be_freed : List ℕ
  pub special_finalization : List ℕ

module _ (H : ObjectHeader) (L : Layout) (states : ℕ → H.State) (user_data : ℕ → UserData) where
  -- The end of the loop body: the object is zeroed and its pointer hidden in the list.
  unfoldable pub release : ℕ → List Event → Finalizing → Finalizing
  release os before z =
      let start = L.object_start os in
      record z {
        events = z.events ++ (before ++ zeroes start (L.object_end os - start) ∷ []);
        to_be_freed = z.to_be_freed ++ hide_pointer start ∷ [];
      }

  -- The loop body of `_finalize`.
  unfoldable pub finalize_state : ℕ → Finalizing → Finalizing
  finalize_state os z =
      let p = H.user_data (states os) in
      let ud = user_data p in
      let start = L.object_start os in
      if not (p == 0) && not ud.is_default
      then elim ud.finalizer [
        | none ↦ release os (deletes p ∷ []) z
        | some f ↦
            if ud.allow_arbitrary_finalizer_thread
            then release os (runs f start ∷ deletes p ∷ deletes p ∷ []) z
            else record z { special_finalization = z.special_finalization ++ os ∷ [] }
      ]
      else release os [] z

  unfoldable pub finalize_each : List ℕ → Finalizing → Finalizing
  finalize_each [] z = z
  finalize_each (os ∷ rest) z = finalize_each rest (finalize_state os z)

  -- `_finalize` for `m_to_be_freed`: the kernel is told of the two lists, and the memory of all that
  -- was to be freed is destroyed.
  unfoldable pub finalize : List ℕ → Finalizing
  finalize to_be_freed =
      let z =
        finalize_each to_be_freed
          (record { events = []; to_be_freed = []; special_finalization = [] }) in
      record z { events = z.events ++ destroys to_be_freed ∷ [] }

  -- The loop body of `do_local_sparse_finalization`.
  unfoldable pub finalize_local_state : ℕ → Finalizing → Finalizing
  finalize_local_state os z =
      let p = H.user_data (states os) in
      let ud = user_data p in
      if not (p == 0) && not ud.is_default
      then elim ud.finalizer [
        | none ↦ release os (deletes p ∷ []) z
        | some f ↦ release os (runs f (L.object_start os) ∷ deletes p ∷ []) z
      ]
      else release os [] z

  unfoldable pub finalize_local_each : List ℕ → Finalizing → Finalizing
  finalize_local_each [] z = z
  finalize_local_each (os ∷ rest) z = finalize_local_each rest (finalize_local_state os z)

  -- `do_local_sparse_finalization` for the states in `vec`.
  unfoldable pub do_local_sparse_finalization : List ℕ → Finalizing
  do_local_sparse_finalization vec =
      let z =
        finalize_local_each vec
          (record { events = []; to_be_freed = []; special_finalization = [] }) in
      record z { events = z.events ++ destroys vec ∷ [] }
