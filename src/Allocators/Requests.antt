-- ===== src/Allocators/Requests.antt =====
-- How many bytes the adapters ask for.
use cgc.Base.{ℕ, ◌+◌, ◌*◌, ◌/◌, ◌%◌, ◌≤◌, ◌<◌, ◌≡◌, ◌↔◌, refl, arith}
use native.Mathlib.Nat.{le-div_iff_mul-le, mod-eq_of_lt}
use cgc.Word.{word_mod}
use cgc.Allocators.{
  Element, throws_bad_alloc, asks, max_size, malloc_allocate, internal_allocate, slab_allocate,
  gc_allocate, max,
}

-- For a type of at least one byte: the `malloc` adapter asks for exactly the bytes of `n` objects if the
-- bytes of `n + 1` objects are no more than the largest word, and throws `bad_alloc` otherwise.
pub malloc_allocate-exact :
    (t : Element) (n : ℕ)
    → 0 < t.size
    → ((n + 1) * t.size ≤ max_size → malloc_allocate t n ≡ asks (n * t.size))
      × (max_size < (n + 1) * t.size → malloc_allocate t n ≡ throws_bad_alloc)
unfolding malloc_allocate
malloc_allocate-exact t n h =
    let e : (n + 1 ≤ max_size / t.size) ↔ ((n + 1) * t.size ≤ max_size) = le-div_iff_mul-le h in
    let wide : (n + 1) * t.size ≡ n * t.size + t.size = omega arith in
    (
      λ l.
          (let fits : n * t.size < word_mod = omega (arith, wide, h) in
            let small = e.1 l in rw (mod-eq_of_lt fits) (ground (arith, small))),
      λ l.
          (let large : ¬ (n + 1 ≤ max_size / t.size) = λ g. omega (arith, e.0 g) in
            ground (arith, large)),
    )

-- For a type whose alignment is no more than its size: the three other adapters ask for exactly the bytes
-- of `n` objects if this is a word; and for fewer bytes than that otherwise, without failing.
pub unchecked_allocate-wraps :
    (t : Element) (n : ℕ)
    → t.align ≤ t.size
    → (n * t.size < word_mod
        → (internal_allocate t n ≡ asks (n * t.size))
          × (slab_allocate t n ≡ asks (n * t.size))
          × (gc_allocate t n ≡ asks (n * t.size)))
      × (word_mod ≤ n * t.size
          → (bytes : ℕ) × (bytes < n * t.size)
            × (internal_allocate t n ≡ asks bytes)
            × (slab_allocate t n ≡ asks bytes)
            × (gc_allocate t n ≡ asks bytes))
unfolding internal_allocate slab_allocate gc_allocate
unchecked_allocate-wraps t n a =
    let m : max t.align t.size ≡ t.size = ground arith in
    (
      λ l. rw (m, mod-eq_of_lt l) (refl, refl, refl),
      λ l. rw m ((n * t.size) % word_mod, omega arith, refl, refl, refl),
    )
