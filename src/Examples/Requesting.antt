-- ===== src/Examples/Requesting.antt =====
-- Requests for objects of eight bytes.
use cgc.Base.{ℕ, ◌+◌, ◌*◌, ◌≤◌, ◌<◌, ◌≡◌, arith}
use cgc.Word.{word_mod}
use cgc.Allocators.{
  Element, throws_bad_alloc, asks, max_size, malloc_allocate, internal_allocate, slab_allocate,
  gc_allocate,
}
use cgc.Allocators.Requests.{malloc_allocate-exact, unchecked_allocate-wraps}

abbrev eight : Element
eight = record { size = 8; align = 8 }

malloc_allocate-exact_example :
    ((5 + 1) * 8 ≤ max_size → malloc_allocate eight 5 ≡ asks (5 * 8))
    × (max_size < (5 + 1) * 8 → malloc_allocate eight 5 ≡ throws_bad_alloc)
malloc_allocate-exact_example = malloc_allocate-exact eight 5 (omega arith)

-- The request for so many objects is one for 8 bytes.
abbrev huge : ℕ
huge = 2305843009213693953

unchecked_allocate-wraps_example :
    (huge * 8 < word_mod
      → (internal_allocate eight huge ≡ asks (huge * 8))
        × (slab_allocate eight huge ≡ asks (huge * 8))
        × (gc_allocate eight huge ≡ asks (huge * 8)))
    × (word_mod ≤ huge * 8
        → (bytes : ℕ) × (bytes < huge * 8)
          × (internal_allocate eight huge ≡ asks bytes)
          × (slab_allocate eight huge ≡ asks bytes)
          × (gc_allocate eight huge ≡ asks bytes))
unchecked_allocate-wraps_example = unchecked_allocate-wraps eight huge (omega arith)
