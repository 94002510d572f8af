-- ===== src/Examples/Marking.antt =====
-- The mark phase on the sample heap: a stack root holds 112, the first object, which points to the
-- second one and to the entry of the bitmap allocator.
use cgc.Base.{
  ℕ, ◌≡◌, refl, ◌↔◌, ◌⊎◌, inl, inr, Bool, true, false, Option, none, some, List, [], ◌∷◌, Memᴰ,
  arith,
}
use cgc.Word.Flags.{is_marked, is_atomic}
use cgc.Heap.Sample.{header, layout, address_set, HeaderState}
use cgc.Mark.{
  Marking, words, is_valid_object_state, find_valid_object_state, mark_each, mark_addrs, mark_roots,
  mark_addrs_bitmap, mark_addrs_sparse, mark_addrs_body, mark_addrs_levels, mark_mark_vector,
  set_marked, mark_state, is_bitmap_addr_markable, mark_state_from, put_off,
}
use cgc.Word.Flags.{set_mark}
use cgc.Mark.Reach.{Object, packed, sparse, packed_at, live, sparse_at, resolve, marked, Fits}
use cgc.Mark.Exact.{IsReachable, mark_roots-exact}

abbrev fresh : HeaderState
fresh = record { used = true; quasi = false; flags = 0; ud = 0 }

abbrev pub before : Marking header layout address_set
before = record { states = λ os. fresh; bits = λ s i. false; to_mark = [] }

abbrev pub objects : List Object
objects = packed 1000 0 ∷ sparse 96 ∷ sparse 128 ∷ []

one_of_three :
    (a : ℕ) (o : Object)
    → resolve header layout before.states a ≡ some o
    → (o ≡ packed 1000 0) ⊎ (o ≡ sparse 96) ⊎ (o ≡ sparse 128)
unfolding resolve packed_at sparse_at live is_valid_object_state find_valid_object_state
one_of_three a o e = ground arith

pub finite : (a : ℕ) (o : Object) → resolve header layout before.states a ≡ some o → Memᴰ o objects
finite a o e = elim (one_of_three a o e) [
  | inl p ↦ Memᴰ.head p
  | inr (inl p) ↦ Memᴰ.tail (Memᴰ.head p)
  | inr (inr p) ↦ Memᴰ.tail (Memᴰ.tail (Memᴰ.head p))
]

pub clear : (o : Object) → marked header layout address_set before o ≡ false
unfolding is_marked
clear (packed s i) = refl
clear (sparse os) = refl

mark_roots-exact_example :
    (rounds : ℕ) × (t : Marking header layout address_set) × (mark_roots header layout address_set
        rounds
        (8 ∷ [])
        []
        []
        before
      ≡ some t)
    × Fits header layout address_set before.states t
    × ((o : Object)
        → (marked header layout address_set t o ≡ true)
          ↔ IsReachable header layout address_set (8 ∷ []) [] [] before o)
mark_roots-exact_example =
    mark_roots-exact header layout address_set (8 ∷ []) [] [] before objects finite clear

-- All three objects are marked, and an object state at 160 is not.
abbrev marks : Option (Marking header layout address_set) → Bool × Bool × Bool × Bool
marks none = (false, false, false, false)
marks (some t) = (
  t.bits 1000 0,
  is_marked (t.states 96).flags,
  is_marked (t.states 128).flags,
  is_marked (t.states 160).flags,
)

marks_run :
    marks (mark_roots header layout address_set 1 (8 ∷ []) [] [] before) ≡ (true, true, true, false)
unfolding mark_roots mark_each mark_addrs mark_addrs_levels mark_addrs_body mark_addrs_bitmap
    mark_addrs_sparse mark_state_from mark_mark_vector set_marked mark_state is_bitmap_addr_markable
    put_off words is_valid_object_state find_valid_object_state is_marked is_atomic set_mark
marks_run = refl
