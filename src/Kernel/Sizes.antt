-- ===== src/Kernel/Sizes.antt =====
-- The sizes that are asked for, and the user data behind an object of the bitmap allocator.
use cgc.Base.{
  ℕ, ◌+◌, ◌-◌, ◌≤◌, ◌<◌, ◌≡◌, ◌≢◌, refl, sym, ap, ◌∙◌, ◌⊎◌, inl, inr, true, false, some, Bool-cases,
  ==_refl, arith,
}
use cgc.Word.{word_mod}
use cgc.Word.Flags.{is_atomic, set_atomic, setters-Independent}
use cgc.Heap.{ObjectHeader, Layout, update}
use cgc.Api.{Regions, is_bitmap_allocator, bitmap_allocator_user_data}
use cgc.Api.Calls.{returns, set_state_atomic}
use cgc.Thread.{ThreadState}
use cgc.Kernel.Memory.{
  Block, Allocators, new_user_data, Memory, size_with_user_data, allocate, allocate_atomic,
}

-- What the bitmap allocator promises for a size that fits in its bins, if it does not give up with a null
-- pointer: an entry of a state of the type asked for, one of the three that are added, at least as large
-- as asked for. Null is not in its memory. Aligning makes no size smaller.
pub record AllocatorLaws (H : ObjectHeader) (L : Layout) (A : Allocators H) : Type 0 where
  pub align_le : (sz : ℕ) → sz ≤ A.align sz
  pub null_outside : is_bitmap_allocator L 0 ≡ false
  pub entry :
      (a size type : ℕ) (heap : A.Heap)
      → type < 3
      → A.fits_in_bins size ≡ true
      → let p = (A.bitmap_allocate a size type heap).0.ptr in
        (p ≡ 0)
        ⊎ ((is_bitmap_allocator L p ≡ true)
            × (L.has_valid_magic_numbers (L.get_state p) ≡ true)
            × (L.type_id (L.get_state p) ≡ type)
            × (size ≤ L.real_entry_size (L.get_state p)))

module _ (H : ObjectHeader) (L : Layout) (R : Regions) (A : Allocators H) where
  user_data_at :
      (p : ℕ)
      → is_bitmap_allocator L p ≡ true
      → L.has_valid_magic_numbers (L.get_state p) ≡ true
      → L.type_id (L.get_state p) ≡ 2
      → bitmap_allocator_user_data L R p
        ≡ some (p + L.real_entry_size (L.get_state p) - R.user_data_size)
  unfolding bitmap_allocator_user_data
  user_data_at p inside magic type = rw (inside, magic, type)

  -- What the bitmap allocator answers to `allocate`.
  abbrev packed_answer : ThreadState → ℕ → Memory H L R A → Block × A.Heap
  packed_answer t sz m =
      A.bitmap_allocate t.bitmap_thread_allocator (size_with_user_data H L R A sz) 2 m.heap

  -- The memory with new user data at `q`.
  abbrev with_user_data : ℕ → A.Heap → Memory H L R A → Memory H L R A
  with_user_data q heap m = record {
    heap = heap;
    store = record m.store { bitmap_data = update m.store.bitmap_data q (new_user_data H L R A) };
  }

  allocate_packed :
      (t : ThreadState) (sz q : ℕ) (m : Memory H L R A)
      → A.fits_in_bins (size_with_user_data H L R A sz) ≡ true
      → bitmap_allocator_user_data L R (packed_answer t sz m).0.ptr ≡ some q
      → allocate H L R A t sz m
        ≡ (returns, (packed_answer t sz m).0, with_user_data q (packed_answer t sz m).1 m)
  unfolding allocate
  allocate_packed t sz q m fits e = rw (fits, allocate) (rw e)

  module _ (laws : AllocatorLaws H L A) (t : ThreadState) (sz : ℕ) (m : Memory H L R A) where
    abbrev entry_end : ℕ → ℕ
    entry_end p = p + L.real_entry_size (L.get_state p)

    -- The user data of the object that the bitmap allocator answers.
    abbrev behind : ℕ
    behind = entry_end (packed_answer t sz m).0.ptr - R.user_data_size

    not_null : (p : ℕ) → is_bitmap_allocator L p ≡ true → p ≢ 0
    not_null p inside e =
        absurd (let g = sym laws.null_outside ∙ ap (is_bitmap_allocator L) (sym e) ∙ inside in cc)

    answer :
        A.fits_in_bins (size_with_user_data H L R A sz) ≡ true
        → ((packed_answer t sz m).0.ptr ≡ 0)
          ⊎ (((packed_answer t sz m).0.ptr ≢ 0)
              × (bitmap_allocator_user_data L R (packed_answer t sz m).0.ptr ≡ some behind)
              × (allocate H L R A t sz m ≡ (
                returns,
                (packed_answer t sz m).0,
                with_user_data behind (packed_answer t sz m).1 m,
              ))
              × (size_with_user_data H L R A sz
                  ≤ L.real_entry_size (L.get_state (packed_answer t sz m).0.ptr)))
    answer fits =
        let p = (packed_answer t sz m).0.ptr in
        elim (laws.entry t.bitmap_thread_allocator (size_with_user_data H L R A sz) 2 m.heap
          (omega arith) fits) [
            | inl null ↦ inl null
            | inr (inside, magic, type, size) ↦
                let e = user_data_at p inside magic type in
                inr (not_null p inside, e, allocate_packed t sz behind m fits e, size)
          ]

    -- For a size so large that `size_with_user_data` wraps around: if what is left of it fits in a bin, and
    -- the bitmap allocator does not give up, `allocate` returns without failure the object that the
    -- bitmap allocator answers to a request for fewer bytes than the user data takes.
    allocate_wraps :
        A.align sz < word_mod
        → R.user_data_size < word_mod
        → word_mod ≤ A.align sz + R.user_data_size
        → A.fits_in_bins (size_with_user_data H L R A sz) ≡ true
        → (packed_answer t sz m).0.ptr ≢ 0
        → let r = allocate H L R A t sz m in
          (r.0 ≡ returns)
          × ((asked : ℕ) × (asked < R.user_data_size)
              × (r.1 ≡ (A.bitmap_allocate t.bitmap_thread_allocator asked 2 m.heap).0))
    allocate_wraps word bounded wraps fits some_entry = elim (answer fits) [
      | inl null ↦ absurd (some_entry null)
      | inr (n, e, a, size) ↦
          rw a (refl, (size_with_user_data H L R A sz, omega (arith, word, bounded, wraps), refl))
    ]

    -- What `allocate_atomic` answers lies in an entry of the type for atomic objects, if the size fits in a
    -- bin and it is not null, and else the flag of its object state says that it is atomic.
    allocate_atomic-IsAtomic :
        let r = allocate_atomic H L R A t sz m in
        ((A.fits_in_bins sz ≡ true) × ((r.0.ptr ≡ 0) ⊎ (L.type_id (L.get_state r.0.ptr) ≡ 1)))
        ⊎ ((A.fits_in_bins sz ≡ false)
            × (is_atomic (
                  H.user_flags (
                    r.1.store.states
                      (A.sparse_allocate_detailed t.thread_allocator sz m.heap m.store.states).1))
                ≡ true))
    unfolding allocate_atomic set_state_atomic
    allocate_atomic-IsAtomic = elim (Bool-cases (A.fits_in_bins sz)) [
      | inl fits ↦ inl (
        fits,
        rw (fits, allocate_atomic)
            (elim (laws.entry t.bitmap_thread_allocator sz 1 m.heap (omega arith) fits) [
              | inl null ↦ inl null
              | inr (inside, magic, type, size) ↦ inr type
            ]),
      )
      | inr large ↦
          let (block, os, heap, states) =
            A.sparse_allocate_detailed t.thread_allocator sz m.heap m.store.states in
          let flags = H.user_flags (states os) in
          let (marked, atomic, complex, bound) = (setters-Independent flags true).1 in
          inr (
            large,
            rw (large, allocate_atomic, set_state_atomic, ==_refl os)
                (ap is_atomic (H.user_flags-set (set_atomic flags true) (states os) bound)
                  ∙ atomic),
          )
    ]
