-- ===== src/Api.antt =====
-- cgc1/src/kernel.cpp, the part of the public interface that looks up an address: `cgc_start`,
-- `cgc_size`, `cgc_is_cgc`, and `bitmap_allocator_user_data` of cgc1/src/bitmap_gc_user_data.hpp. A
-- pointer that may be null is an option, or 0 where the source takes it as an argument.
pub mod Start
pub mod Calls
pub mod Compat
use cgc.Base.{
  ℕ, ◌+◌, ◌-◌, ◌*◌, ◌%◌, ◌≡◌, Bool, true, false, not, ◌&&◌, Option, none, some, if◌then◌else◌, ◌==◌,
  ltb, leb,
}
use cgc.Word.{word_mod}
use cgc.Heap.{ObjectHeader, Layout}
use cgc.Mark.{is_valid_object_state, find_valid_object_state}

-- What the interface uses of the two allocators beside what the collector uses: the memory of the sparse
-- allocator, and of a bitmap state where its entries begin, the size that its entries were declared with
-- and how many fields of user bits it has; `sizeof(bitmap_gc_user_data_t)`.
pub record Regions : Type 0 where
  pub slab_begin : ℕ
  pub slab_end : ℕ
  pub state_begin : ℕ → ℕ
  pub declared_entry_size : ℕ → ℕ
  pub num_user_bit_fields : ℕ → ℕ
  pub user_data_size : ℕ

-- What the libraries promise: entries lie one behind the other, and an object is found again from its
-- start.
pub record RegionLaws (L : Layout) (R : Regions) : Type 0 where
  pub entry_at :
      (state addr : ℕ)
      → L.get_object state (L.get_index state addr)
        ≡ (R.state_begin state + L.get_index state addr * L.real_entry_size state) % word_mod
  pub state_of_start : (os : ℕ) → L.from_object_start (L.object_start os) ≡ os

abbrev pub is_bitmap_allocator : Layout → ℕ → Bool
is_bitmap_allocator L addr = leb L.fast_heap_begin addr && ltb addr L.fast_heap_end

abbrev pub is_sparse_allocator : Regions → ℕ → Bool
is_sparse_allocator R addr = leb R.slab_begin addr && ltb addr R.slab_end

-- The address of the user data behind an object of the bitmap allocator.
unfoldable pub bitmap_allocator_user_data : Layout → Regions → ℕ → Option ℕ
bitmap_allocator_user_data L R addr =
    let state = L.get_state addr in
    if not (is_bitmap_allocator L addr)
    then none
    else if not (L.has_valid_magic_numbers state)
    then none
    else if not (L.type_id state == 2)
    then none
    else some (addr + L.real_entry_size state - R.user_data_size)

module _ (H : ObjectHeader) (L : Layout) (R : Regions) (states : ℕ → H.State) where
  -- The branch of `cgc_start` for the sparse allocator.
  unfoldable pub sparse_start : ℕ → Option ℕ
  sparse_start addr =
      let os = L.from_object_start addr in
      if is_valid_object_state L os
      then some (L.object_start os)
      else elim (find_valid_object_state H L states addr) [
        | none ↦ none
        | some found ↦ some (L.object_start found)
      ]

  unfoldable pub cgc_start : ℕ → Option ℕ
  cgc_start addr =
      let state = L.get_state addr in
      if addr == 0
      then none
      else if is_bitmap_allocator L addr
      then (if L.has_valid_magic_numbers state
          then some
              ((R.state_begin state + L.get_index state addr * L.real_entry_size state) % word_mod)
          else none)
      else if is_sparse_allocator R addr
      then sparse_start addr
      else none

  unfoldable pub cgc_size : ℕ → ℕ
  cgc_size addr =
      let state = L.get_state addr in
      if addr == 0 then 0 else elim (cgc_start addr) [
        | none ↦ 0
        | some start ↦
            let os = L.from_object_start start in
            if is_bitmap_allocator L start
            then (if L.has_valid_magic_numbers state then R.declared_entry_size state else 0)
            else if not (os == 0)
            then L.object_end os - L.object_start os
            else 0
      ]

  unfoldable pub cgc_is_cgc : ℕ → Bool
  cgc_is_cgc addr = ltb 0 (cgc_size addr)
