-- ===== src/Api/Compat.antt =====
-- cgc1/src/kernel.cpp, the functions with C linkage at its end, for programs written for the collector of
-- Boehm, without those that answer a constant. A number that is an `int` or `unsigned` is a word of 32 bits.
use Prim.Native.Nat.{bit_or}
use cgc.Base.{ℕ, ◌*◌, ◌%◌, ◌^◌, true, false, ◌||◌, not, Option, none, some, if◌then◌else◌, ◌==◌}
use cgc.Heap.{ObjectHeader, Layout}
use cgc.Thread.{ThreadState}
use cgc.Kernel.Memory.{
  Allocators, Memory, Copy, cgc_malloc, cgc_malloc_atomic, cgc_malloc_uncollectable, cgc_realloc,
  cgc_free,
}
use cgc.Api.{Regions, cgc_start}
use cgc.Api.Calls.{Outcome, Store, cgc_register_finalizer}

module _ (H : ObjectHeader) (L : Layout) (R : Regions) where
  -- `closure` makes a finalizer of a function of two arguments and the second of them; `none` is
  -- `std::terminate`. The last argument of `cgc_register_finalizer` is its default.
  unfoldable pub gc_register_finalizer :
      (ℕ → ℕ → ℕ) → ℕ → ℕ → ℕ → ℕ → ℕ → ℕ → Store H → Option (Outcome × Store H)
  gc_register_finalizer closure fresh addr finalizer data_pointer b c s =
      if not (b == 0) || not (c == 0)
      then none
      else some (
          cgc_register_finalizer H L R fresh addr (some (closure finalizer data_pointer)) false true
            s)

  unfoldable pub gc_base : (ℕ → H.State) → ℕ → Option ℕ
  gc_base states addr = cgc_start H L R states addr

  module _ (A : Allocators H) where
    unfoldable pub gc_realloc :
        ThreadState → ℕ → ℕ → Memory H L R A → Outcome × ℕ × Option (Copy H L R A) × Memory H L R A
    gc_realloc t old_object new_size m = cgc_realloc H L R A t old_object new_size m

    unfoldable pub gc_malloc : ThreadState → ℕ → Memory H L R A → Outcome × ℕ × Memory H L R A
    gc_malloc t size_in_bytes m = cgc_malloc H L R A t size_in_bytes m

    unfoldable pub gc_malloc_atomic : ThreadState → ℕ → Memory H L R A → ℕ × Memory H L R A
    gc_malloc_atomic t size_in_bytes m = cgc_malloc_atomic H L R A t size_in_bytes m

    unfoldable pub gc_malloc_uncollectable :
        ThreadState → ℕ → ℕ → Memory H L R A → Outcome × ℕ × Memory H L R A
    gc_malloc_uncollectable t fresh size_in_bytes m =
        cgc_malloc_uncollectable H L R A t fresh size_in_bytes m

    unfoldable pub gc_free : ThreadState → ℕ → Memory H L R A → Memory H L R A
    gc_free t object_addr m = cgc_free H L R A t object_addr m

-- `static_cast<int>(num_gc_collections())`.
unfoldable pub gc_get_gc_no : ℕ → ℕ
gc_get_gc_no num_collections = num_collections % 2 ^ 32

-- The version numbers are those of cgc1/include/gc/gc_version.h.
unfoldable pub gc_get_version : ℕ → ℕ → ℕ
gc_get_version major minor = bit_or (major * 2 ^ 16) (minor * 2 ^ 8) % 2 ^ 32
