-- ===== src/Api/Calls.antt =====
-- cgc1/src/kernel.cpp, the calls that change what the collector does with one object:
-- `cgc_register_finalizer`, `cgc_set_abort_on_collect`, `cgc_set_uncollectable` and `cgc_set_atomic`, with
-- `bitmap_gc_user_data_t` of cgc1/src/bitmap_gc_user_data.hpp. `fresh` is the address at which
-- `make_unique_allocator` puts a new copy of user data.
pub mod Failures
pub mod Owned
pub mod Effects
use cgc.Base.{ℕ, Bool, true, false, not, Option, none, some, if◌then◌else◌, ◌==◌}
use cgc.Word.Flags.{set_complex, set_atomic}
use cgc.Heap.{ObjectHeader, Layout, update}
use cgc.Mark.{npos}
use cgc.Sweep.{UserData}
use cgc.Api.{
  Regions, is_bitmap_allocator, is_sparse_allocator, bitmap_allocator_user_data, cgc_start,
}

-- `bitmap_gc_user_data_t`.
pub record BitmapUserData : Type 0 where
  pub gc_user_data : UserData
  pub atomic : Bool
  pub abort_on_collect : Bool

-- The messages of the exceptions.
pub data Failure : Type 0 where
  null_address no_state wrong_type no_index no_user_bits bad_sparse_address bad_address : Failure
  abort_in_sparse abort_in_bitmap abort_in_unknown uncollectable_in_bitmap atomic_in_bitmap :
      Failure

-- How a call ends: `aborts` is `std::abort`, `faults` the use of a null pointer.
pub data Outcome : Type 0 where
  returns aborts faults : Outcome
  throws : Failure → Outcome

-- `cs_bitmap_allocation_user_bit_…`, the two fields of user bits, by state and index; the user data at
-- each address, and the user data behind the entries of the bitmap allocator.
pub record Store (H : ObjectHeader) : Type 0 where
  pub states : ℕ → H.State
  pub user_data : ℕ → UserData
  pub bitmap_data : ℕ → BitmapUserData
  pub finalizeable : ℕ → ℕ → Bool
  pub arbitrary_thread : ℕ → ℕ → Bool

-- `set_bit(index, value)` on a field of user bits.
abbrev pub set_bit : (ℕ → ℕ → Bool) → ℕ → ℕ → Bool → ℕ → ℕ → Bool
set_bit bits state index value = update bits state (update (bits state) index value)

module _ (H : ObjectHeader) where
  -- The new copy of default user data, and the object state that it is for.
  unfoldable pub give_data : ℕ → ℕ → UserData → Store H → Store H
  give_data fresh os ud s = record s {
    states = update s.states os (H.set_user_data fresh (s.states os));
    user_data = update s.user_data fresh ud;
  }

  unfoldable pub set_data : ℕ → UserData → Store H → Store H
  set_data p ud s = record s { user_data = update s.user_data p ud }

  -- Where the argument `throws` decides.
  unfoldable pub fails : Bool → Failure → Store H → Outcome × Store H
  fails may_throw f s = (if may_throw then throws f else returns, s)

  -- `set_complex(os, true)`.
  unfoldable pub set_state_complex : ℕ → Store H → Store H
  set_state_complex os s =
      let state = s.states os in
      record s {
        states =
            update s.states os (H.set_user_flags (set_complex (H.user_flags state) true) state);
      }

  -- `set_atomic(os, is_atomic)`.
  unfoldable pub set_state_atomic : ℕ → Bool → Store H → Store H
  set_state_atomic os is_atomic s =
      let state = s.states os in
      record s {
        states =
            update s.states os (H.set_user_flags (set_atomic (H.user_flags state) is_atomic) state);
      }

module _ (H : ObjectHeader) (L : Layout) (R : Regions) where
  -- For an entry of the bitmap allocator, with its user data at `p`.
  unfoldable pub register_bitmap_finalizer : ℕ → ℕ → Option ℕ → Bool → Store H → Outcome × Store H
  register_bitmap_finalizer p addr finalizer allow s =
      let state = L.get_state addr in
      let index = L.get_index state addr in
      let bd = s.bitmap_data p in
      if state == 0
      then (throws no_state, s)
      else if not (L.type_id state == 2)
      then (throws wrong_type, s)
      else if index == npos
      then (throws no_index, s)
      else if not (R.num_user_bit_fields state == 2)
      then (throws no_user_bits, s)
      else (
        returns,
        record s {
          finalizeable = set_bit s.finalizeable state index true;
          arbitrary_thread = set_bit s.arbitrary_thread state index allow;
          bitmap_data = update s.bitmap_data p (record bd {
            gc_user_data = record bd.gc_user_data {
              is_default = false;
              allow_arbitrary_finalizer_thread = allow;
              finalizer = finalizer;
            };
          });
        },
      )

  -- For the object state `os` of the sparse allocator.
  unfoldable pub register_state_finalizer : ℕ → ℕ → Option ℕ → Bool → Store H → Outcome × Store H
  register_state_finalizer fresh os finalizer allow s =
      let p = H.user_data (s.states os) in
      let ud = s.user_data p in
      let own = record ud {
        is_default = false;
        allow_arbitrary_finalizer_thread = allow;
        finalizer = finalizer;
      } in
      if p == 0
      then (faults, s)
      else if ud.is_default
      then (returns, give_data H fresh os own s)
      else (returns, set_data H p (record ud { finalizer = finalizer }) s)

  unfoldable pub cgc_register_finalizer :
      ℕ → ℕ → Option ℕ → Bool → Bool → Store H → Outcome × Store H
  cgc_register_finalizer fresh addr finalizer allow may_throw s =
      if addr == 0
      then fails H may_throw null_address s
      else elim (bitmap_allocator_user_data L R addr) [
        | some p ↦ register_bitmap_finalizer p addr finalizer allow s
        | none ↦
            if is_sparse_allocator R addr
            then elim (cgc_start H L R s.states addr) [
              | none ↦ fails H may_throw bad_sparse_address s
              | some start ↦
                  register_state_finalizer fresh (L.from_object_start start) finalizer allow s
            ]
            else fails H may_throw bad_address s
      ]

  unfoldable pub cgc_set_abort_on_collect : ℕ → Bool → Store H → Outcome × Store H
  cgc_set_abort_on_collect addr abort_on_collect s = elim (bitmap_allocator_user_data L R addr) [
    | none ↦
        if is_sparse_allocator R addr
        then (throws abort_in_sparse, s)
        else if is_bitmap_allocator L addr
        then (throws abort_in_bitmap, s)
        else (throws abort_in_unknown, s)
    | some p ↦ (
      returns,
      record s {
        bitmap_data =
            update s.bitmap_data p
              (record (s.bitmap_data p) { abort_on_collect = abort_on_collect });
      },
    )
  ]

  -- For the object state `os` of the sparse allocator.
  unfoldable pub set_state_uncollectable : ℕ → ℕ → Bool → Store H → Outcome × Store H
  set_state_uncollectable fresh os is_uncollectable s =
      let p = H.user_data (s.states os) in
      let ud = s.user_data p in
      let own = record ud { is_default = false; uncollectable = is_uncollectable } in
      if p == 0
      then (faults, s)
      else if ud.is_default
      then (returns, set_state_complex H os (give_data H fresh os own s))
      else (
        returns,
        set_state_complex H os (set_data H p (record ud { uncollectable = is_uncollectable }) s),
      )

  unfoldable pub cgc_set_uncollectable : ℕ → ℕ → Bool → Store H → Outcome × Store H
  cgc_set_uncollectable fresh addr is_uncollectable s =
      if addr == 0 then (returns, s) else elim (bitmap_allocator_user_data L R addr) [
        | some p ↦ (throws uncollectable_in_bitmap, s)
        | none ↦
            if is_sparse_allocator R addr
            then elim (cgc_start H L R s.states addr) [
              | none ↦ (returns, s)
              | some start ↦
                  set_state_uncollectable fresh (L.from_object_start start) is_uncollectable s
            ]
            else (throws bad_address, s)
      ]

  unfoldable pub cgc_set_atomic : ℕ → Bool → Store H → Outcome × Store H
  cgc_set_atomic addr is_atomic s =
      if addr == 0 then (returns, s) else elim (cgc_start H L R s.states addr) [
        | none ↦ (returns, s)
        | some start ↦ elim (bitmap_allocator_user_data L R addr) [
          | some p ↦ (throws atomic_in_bitmap, s)
          | none ↦
              if not (is_sparse_allocator R addr)
              then (aborts, s)
              else (returns, set_state_atomic H (L.from_object_start start) is_atomic s)
        ]
      ]
