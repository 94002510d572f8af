-- ===== src/Kernel/Memory.antt =====
-- cgc1/src/global_kernel_state.cpp, `allocate`, `allocate_atomic`, `allocate_raw`, `allocate_sparse` and
-- `deallocate`, and the calls of cgc1/src/kernel.cpp that pass them on: `cgc_malloc`, `cgc_hidden_malloc`,
-- `cgc_realloc`, `cgc_free`, `cgc_malloc_atomic` and `cgc_malloc_uncollectable`. They run in a registered
-- thread, with the allocators of its state.
use cgc.Base.{ℕ, ◌+◌, ◌%◌, Bool, true, false, Option, none, some, if◌then◌else◌, ◌==◌}
use cgc.Word.{word_mod, hide_pointer}
use cgc.Heap.{ObjectHeader, Layout, update}
use cgc.Api.{Regions, bitmap_allocator_user_data}
use cgc.Api.Calls.{
  BitmapUserData, Outcome, returns, faults, Store, set_state_atomic, cgc_set_uncollectable,
}
use cgc.Thread.{ThreadState}

-- A block of memory: `m_ptr` and its size.
pub record Block : Type 0 where
  pub ptr : ℕ
  pub size : ℕ

-- The allocators, as the kernel calls them, with the address of a thread's allocator. They keep a state of
-- their own and write the states of objects. `align` is `mcpputil::align(sz,
-- sizeof(user_data_alignment_t))`, and `base_is_default` what `user_data_base_t` starts with.
pub record Allocators (H : ObjectHeader) : Type 1 where
  pub Heap : Type 0
  pub align : ℕ → ℕ
  pub fits_in_bins : ℕ → Bool
  pub base_is_default : Bool
  pub bitmap_allocate : ℕ → ℕ → ℕ → Heap → Block × Heap
  pub bitmap_deallocate : ℕ → ℕ → Heap → Bool × Heap
  pub sparse_allocate : ℕ → ℕ → Heap → (ℕ → H.State) → Block × Heap × (ℕ → H.State)
  pub sparse_allocate_detailed : ℕ → ℕ → Heap → (ℕ → H.State) → Block × ℕ × Heap × (ℕ → H.State)
  pub sparse_deallocate : ℕ → ℕ → Heap → (ℕ → H.State) → Heap × (ℕ → H.State)

module _ (H : ObjectHeader) (L : Layout) (R : Regions) (A : Allocators H) where
  -- `bitmap_gc_user_data_t()`.
  abbrev pub new_user_data : BitmapUserData
  new_user_data = record {
    gc_user_data = record {
      is_default = A.base_is_default;
      uncollectable = false;
      allow_arbitrary_finalizer_thread = false;
      finalizer = none;
    };
    atomic = false;
    abort_on_collect = false;
  }

  pub record Memory : Type 0 where
    pub heap : A.Heap
    pub store : Store H

  -- The size that `allocate` asks the bitmap allocator for.
  abbrev pub size_with_user_data : ℕ → ℕ
  size_with_user_data sz = (A.align sz + R.user_data_size) % word_mod

  unfoldable pub allocate_sparse : ThreadState → ℕ → Memory → Block × Memory
  allocate_sparse t sz m =
      let (block, heap, states) = A.sparse_allocate t.thread_allocator sz m.heap m.store.states in
      (block, record { heap = heap; store = record m.store { states = states } })

  unfoldable pub allocate : ThreadState → ℕ → Memory → Outcome × Block × Memory
  allocate t sz m =
      if A.fits_in_bins (size_with_user_data sz)
      then (let (block, heap) =
            A.bitmap_allocate t.bitmap_thread_allocator (size_with_user_data sz) 2 m.heap in
          elim (bitmap_allocator_user_data L R block.ptr) [
            | none ↦ (faults, block, record m { heap = heap })
            | some p ↦ (
              returns,
              block,
              record {
                heap = heap;
                store = record m.store { bitmap_data = update m.store.bitmap_data p new_user_data };
              },
            )
          ])
      else (let (block, m') = allocate_sparse t sz m in (returns, block, m'))

  unfoldable pub allocate_atomic : ThreadState → ℕ → Memory → Block × Memory
  allocate_atomic t sz m =
      if A.fits_in_bins sz
      then (let (block, heap) = A.bitmap_allocate t.bitmap_thread_allocator sz 1 m.heap in
          (block, record m { heap = heap }))
      else (let (block, os, heap, states) =
            A.sparse_allocate_detailed t.thread_allocator sz m.heap m.store.states in
          (
            block,
            record {
              heap = heap;
              store = set_state_atomic H os true (record m.store { states = states });
            },
          ))

  unfoldable pub allocate_raw : ThreadState → ℕ → Memory → Block × Memory
  allocate_raw t sz m =
      if A.fits_in_bins sz
      then (let (block, heap) = A.bitmap_allocate t.bitmap_thread_allocator sz 0 m.heap in
          (block, record m { heap = heap }))
      else allocate_sparse t sz m

  unfoldable pub deallocate : ThreadState → ℕ → Memory → Memory
  deallocate t v m =
      let (done, heap) = A.bitmap_deallocate t.bitmap_thread_allocator v m.heap in
      if done
      then record m { heap = heap }
      else (let (heap', states) = A.sparse_deallocate t.thread_allocator v heap m.store.states in
          record { heap = heap'; store = record m.store { states = states } })

  unfoldable pub cgc_malloc : ThreadState → ℕ → Memory → Outcome × ℕ × Memory
  cgc_malloc t sz m = let (outcome, block, m') = allocate t sz m in (outcome, block.ptr, m')

  unfoldable pub cgc_hidden_malloc : ThreadState → ℕ → Memory → Outcome × ℕ × Memory
  cgc_hidden_malloc t sz m =
      let (outcome, p, m') = cgc_malloc t sz m in (outcome, hide_pointer p, m')

  -- The words that `memcpy` copies: from, to, and how many bytes.
  pub record Copy : Type 0 where
    pub from : ℕ
    pub to : ℕ
    pub bytes : ℕ

  unfoldable pub cgc_realloc : ThreadState → ℕ → ℕ → Memory → Outcome × ℕ × Option Copy × Memory
  cgc_realloc t v sz m =
      let (outcome, p, m') = cgc_malloc t sz m in
      (outcome, p, (if v == 0 then none else some (record { from = v; to = p; bytes = sz })), m')

  unfoldable pub cgc_free : ThreadState → ℕ → Memory → Memory
  cgc_free t v m = deallocate t v m

  unfoldable pub cgc_malloc_atomic : ThreadState → ℕ → Memory → ℕ × Memory
  cgc_malloc_atomic t sz m = let (block, m') = allocate_atomic t sz m in (block.ptr, m')

  -- `fresh` is where new user data would be put.
  unfoldable pub cgc_malloc_uncollectable : ThreadState → ℕ → ℕ → Memory → Outcome × ℕ × Memory
  cgc_malloc_uncollectable t fresh sz m =
      let (block, m') = allocate_sparse t sz m in
      let (outcome, s) = cgc_set_uncollectable H L R fresh block.ptr true m'.store in
      (outcome, block.ptr, record m' { store = s })
