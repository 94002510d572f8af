-- ===== src/Api/Start.antt =====
-- The look-up of an address by the public interface, against what the mark phase takes it for.
use cgc.Base.{
  ℕ, ◌-◌, ◌≡◌, ◌≢◌, refl, sym, ap, ◌∙◌, inl, inr, true, false, some, Bool-cases, Option-cases,
  ==-ne, arith,
}
use cgc.Heap.{ObjectHeader, Layout}
use cgc.Mark.{is_valid_object_state, find_valid_object_state}
use cgc.Mark.Reach.{Object, packed, sparse, packed_at, live, sparse_at, resolve}
use cgc.Api.{
  Regions, RegionLaws, is_bitmap_allocator, is_sparse_allocator, sparse_start, cgc_start, cgc_size,
}

module _ (H : ObjectHeader) (L : Layout) (R : Regions) (states : ℕ → H.State) where
  -- Where an object begins.
  abbrev pub start_of : Object → ℕ
  start_of (packed state index) = L.get_object state index
  start_of (sparse os) = L.object_start os

  abbrev pub size_of : Object → ℕ
  size_of (packed state index) = R.declared_entry_size state
  size_of (sparse os) = L.object_end os - L.object_start os

  live-start : (os : ℕ) (o : Object) → live H L states os ≡ some o → o ≡ sparse os
  unfolding live
  live-start os o e = ground arith

  sparse_start-resolve :
      (a : ℕ) (o : Object)
      → sparse_at H L states a ≡ some o
      → (sparse_start H L R states a ≡ some (start_of o)) × ((os : ℕ) × (o ≡ sparse os))
  unfolding sparse_at sparse_start
  sparse_start-resolve a o e = elim (Bool-cases (is_valid_object_state L (L.from_object_start a))) [
    | inl valid ↦
        let p = live-start (L.from_object_start a) o (rw valid at e) in
        rw (valid, p) (refl, (L.from_object_start a, refl))
    | inr other ↦ elim (Option-cases (find_valid_object_state H L states a)) [
      | inl lost ↦ absurd (let h = (rw (other, lost) at e) in cc)
      | inr (os, found) ↦
          let p = live-start os o (rw (other, found) at e) in
          rw (other, found, p) (refl, (os, refl))
    ]
  ]

  packed-cases :
      (a : ℕ) (o : Object)
      → packed_at H L a ≡ some o
      → (L.has_valid_magic_numbers (L.get_state a) ≡ true)
        × (o ≡ packed (L.get_state a) (L.get_index (L.get_state a) a))
  unfolding packed_at
  packed-cases a o e = ground arith

  module _ (laws : RegionLaws L R) (a : ℕ) (o : Object) (nonzero : a ≢ 0)
      (e : resolve H L states a ≡ some o) where
    packed_start : is_bitmap_allocator L a ≡ true → cgc_start H L R states a ≡ some (start_of o)
    unfolding cgc_start resolve
    packed_start inside =
        let (magic, p) = packed-cases a o (rw inside at e) in
        rw (==-ne a 0 nonzero, inside, magic, p) (ap some (sym (laws.entry_at (L.get_state a) a)))

    outside_range :
        is_bitmap_allocator L a ≡ false
        → (L.in_current_range (L.from_object_start a) ≡ true) × (sparse_at H L states a ≡ some o)
    unfolding resolve
    outside_range out = ground arith

    sparse_case :
        is_bitmap_allocator L a ≡ false
        → is_sparse_allocator R a ≡ true
        → cgc_start H L R states a ≡ some (start_of o)
    unfolding cgc_start
    sparse_case out inside =
        rw (==-ne a 0 nonzero, out, inside) (sparse_start-resolve a o (outside_range out).1).0

    -- Every address at which the mark phase finds an object is one for which `cgc_start` answers where
    -- this object begins. The address is not null, and the sparse allocator's current range lies within
    -- its memory.
    pub cgc_start-resolve :
        (L.in_current_range (L.from_object_start a) ≡ true → is_sparse_allocator R a ≡ true)
        → cgc_start H L R states a ≡ some (start_of o)
    cgc_start-resolve within = elim (Bool-cases (is_bitmap_allocator L a)) [
      | inl inside ↦ packed_start inside
      | inr out ↦ sparse_case out (within (outside_range out).0)
    ]

    packed_size :
        is_bitmap_allocator L a ≡ true
        → is_bitmap_allocator L (start_of o) ≡ true
        → cgc_size H L R states a ≡ size_of o
    unfolding cgc_size resolve
    packed_size inside start_inside =
        let (magic, p) = packed-cases a o (rw inside at e) in
        rw (==-ne a 0 nonzero, packed_start inside, cgc_size)
          (rw (start_inside, magic) (ap size_of (sym p)))

    sparse_size :
        is_bitmap_allocator L a ≡ false
        → is_sparse_allocator R a ≡ true
        → is_bitmap_allocator L (start_of o) ≡ false
        → o ≢ sparse 0
        → cgc_size H L R states a ≡ size_of o
    unfolding cgc_size
    sparse_size out inside start_out present =
        let (os, p) = (sparse_start-resolve a o (outside_range out).1).1 in
        let n : os ≢ 0 = λ z. present (p ∙ ap sparse z) in
        let q : L.from_object_start (start_of o) ≡ os = rw p (laws.state_of_start os) in
        rw (==-ne a 0 nonzero, sparse_case out inside, cgc_size)
          (rw (start_out, q, ==-ne os 0 n) (ap size_of (sym p)))

    -- At an address that is not null and at which the mark phase finds an object, `cgc_size` answers the
    -- size of this object, if the sparse allocator's current range lies within its memory, the object begins
    -- in the memory of the allocator that the address is in, and its state is not at address 0.
    pub cgc_size-resolve :
        (L.in_current_range (L.from_object_start a) ≡ true → is_sparse_allocator R a ≡ true)
        → is_bitmap_allocator L (start_of o) ≡ is_bitmap_allocator L a
        → o ≢ sparse 0
        → cgc_size H L R states a ≡ size_of o
    cgc_size-resolve within side present = elim (Bool-cases (is_bitmap_allocator L a)) [
      | inl inside ↦ packed_size inside (side ∙ inside)
      | inr out ↦ sparse_size out (within (outside_range out).0) (side ∙ out) present
    ]
