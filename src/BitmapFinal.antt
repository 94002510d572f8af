-- ===== src/BitmapFinal.antt =====
-- cgc1/src/bitmap_finalization.cpp, `finalize`: what is swept from one state of the bitmap allocator is
-- finalized, zeroed and freed. The calls that can be seen from outside are a list of events.
pub mod Exact
use cgc.Base.{
  ℕ, zero, suc, ◌+◌, ◌-◌, ◌*◌, Bool, true, false, ◌&&◌, not, Option, none, some, List, [], ◌∷◌,
  ◌++◌, map, if◌then◌else◌, ◌==◌,
}
use cgc.Heap.{Layout, update}
use cgc.Sweep.{UserData}
use cgc.Api.{Regions, bitmap_allocator_user_data}
use cgc.Api.Calls.{BitmapUserData}

-- How the call of a finalizer ends: normally, with a `std::exception`, or with something else thrown.
pub data Called : Type 0 where
  finishes throws_exception throws_other : Called

-- The call of a finalizer on an object, bytes set to zero from an address on, and `free_unmarked`.
pub data Event : Type 0 where
  ran : Option ℕ → ℕ → Event
  zeroed : ℕ → ℕ → Event
  unmarked_freed : Event

-- What mcppalloc gives for the state: how many entries it has, which are to be freed, and the two passes
-- over the bits that are set, as the runs that the first one takes out and the single bits that are left.
pub record Pass : Type 0 where
  pub state : ℕ
  pub size : ℕ
  pub to_be_freed : ℕ → Bool
  pub contiguous : (ℕ → Bool) → ℕ → List (ℕ × ℕ)
  pub left : (ℕ → Bool) → ℕ → List ℕ

-- The two fields of user bits of the state, the user data by address, and the events so far.
pub record Bits : Type 0 where
  pub finalizeable : ℕ → Bool
  pub arbitrary_thread : ℕ → Bool
  pub user_data : ℕ → BitmapUserData
  pub trace : List Event

-- A call of a `std::function`; one that is empty throws `std::bad_function_call`.
unfoldable pub call_finalizer : (ℕ → ℕ → Called) → Option ℕ → ℕ → Called
call_finalizer behaviour none object = throws_exception
call_finalizer behaviour (some f) object = behaviour f object

-- `ud->gc_user_data_ref().m_finalizer` after it has been moved from.
abbrev pub moved_from : BitmapUserData → BitmapUserData
moved_from d = record d { gc_user_data = record d.gc_user_data { finalizer = none } }

module _ (L : Layout) (R : Regions) (behaviour : ℕ → ℕ → Called) (s : Pass) where
  abbrev pub object : ℕ → ℕ
  object i = L.get_object s.state i

  abbrev pub entry_size : ℕ
  entry_size = L.real_entry_size s.state

  -- What the call of the finalizer leaves, with the user data at `p`.
  abbrev pub after_finalizer : ℕ → ℕ → Bits → Bits
  after_finalizer i p b = record {
    finalizeable = update b.finalizeable i false;
    arbitrary_thread = update b.arbitrary_thread i false;
    user_data = update b.user_data p (moved_from (b.user_data p));
    trace =
        b.trace
        ++ ran (b.user_data p).gc_user_data.finalizer (object i)
          ∷ zeroed (object i) entry_size
          ∷ [];
  }

  -- Behind the `try` block.
  unfoldable pub end_call : Called → Bits → Option Bits
  end_call finishes b = some b
  end_call throws_exception b = some b
  end_call throws_other b = none

  -- The user data is at `p`. `none` is the end of the program.
  unfoldable pub finalize_data : ℕ → ℕ → Bits → Option Bits
  finalize_data i p b =
      if (b.user_data p).abort_on_collect
      then none
      else end_call (call_finalizer behaviour (b.user_data p).gc_user_data.finalizer (object i))
          (after_finalizer i p b)

  -- The body of the loop, with the bitmap of entries to be freed that have a finalizer.
  unfoldable pub finalize_index : (ℕ → Bool) → ℕ → Bits → Option Bits
  finalize_index free_with_finalizer i b =
      if not (free_with_finalizer i)
      then some b
      else if b.finalizeable i
      then elim (bitmap_allocator_user_data L R (object i)) [
        | none ↦ some b
        | some p ↦ finalize_data i p b
      ]
      else some b

  -- The loop from the index `i` on.
  unfoldable pub finalize_indices : (ℕ → Bool) → ℕ → ℕ → Bits → Option Bits
  finalize_indices free_with_finalizer zero i b = some b
  finalize_indices free_with_finalizer (suc count) i b =
      elim (finalize_index free_with_finalizer i b) [
        | none ↦ none
        | some b' ↦ finalize_indices free_with_finalizer count (i + 1) b'
      ]

  -- The two passes over the entries without a finalizer.
  unfoldable pub zero_rest : (ℕ → Bool) → List Event
  zero_rest bits =
      map (λ (r : ℕ × ℕ). zeroed (object r.0) (entry_size * (r.1 - r.0))) (s.contiguous bits s.size)
      ++ map (λ i. zeroed (object i) entry_size) (s.left bits s.size)

  unfoldable pub finalize_bitmap : Bits → Option Bits
  finalize_bitmap b =
      let free_with_finalizer : ℕ → Bool = λ i. s.to_be_freed i && b.finalizeable i in
      elim (finalize_indices free_with_finalizer s.size 0 b) [
        | none ↦ none
        | some b' ↦ some (record b' {
          trace =
              b'.trace
              ++ (zero_rest (λ i. s.to_be_freed i && not (free_with_finalizer i))
                  ++ unmarked_freed ∷ []);
        })
      ]
