-- ===== src/Examples/Collecting.antt =====
-- A whole collection of the sample heap: a stack root holds 112, the first object, which points to the
-- second one. The state at 160 is in use and not reached.
use cgc.Base.{
  ℕ, ◌≡◌, refl, ◌⊎◌, inl, inr, true, false, none, some, List, [], ◌∷◌, Memᴰ, Distinct, contains,
  nat_eq, not-contains, arith,
}
use cgc.Word.Flags.{is_marked}
use cgc.Heap.Sample.{header, layout, address_set, HeaderState}
use cgc.Mark.{Marking, is_valid_object_state, find_valid_object_state}
use cgc.Mark.Reach.{Object, packed, sparse, packed_at, live, sparse_at, resolve}
use cgc.Mark.Ends.{Finishes, mark_mark_vector_ends}
use cgc.Sweep.{UserData}
use cgc.Sweep.Clear.{all_states}

abbrev pub user_data : ℕ → UserData
user_data p = record {
  is_default = true;
  uncollectable = false;
  allow_arbitrary_finalizer_thread = false;
  finalizer = none;
}

abbrev in_blocks : HeaderState
in_blocks = record { used = true; quasi = false; flags = 0; ud = 0 }

-- The three objects are still marked from the collection before.
abbrev pub before : Marking header layout address_set
before = record {
  states = λ os. record { used = true; quasi = false; flags = 0; ud = 0 };
  bits = λ s i. true;
  to_mark = [];
}

abbrev pub blocks : List (List ℕ)
blocks = (96 ∷ 128 ∷ []) ∷ (160 ∷ []) ∷ []

abbrev pub objects : List Object
objects = packed 1000 0 ∷ sparse 96 ∷ sparse 128 ∷ []

pub blocks-Distinct : Distinct (all_states blocks)
unfolding contains
blocks-Distinct = (
  not-contains 96 (128 ∷ 160 ∷ []) refl,
  (not-contains 128 (160 ∷ []) refl, (not-contains 160 [] refl, tt)),
)

one_of_three :
    (states : ℕ → HeaderState) (a : ℕ) (o : Object)
    → resolve header layout states a ≡ some o
    → (o ≡ packed 1000 0) ⊎ (o ≡ sparse 96) ⊎ (o ≡ sparse 128)
unfolding resolve packed_at sparse_at live is_valid_object_state find_valid_object_state
one_of_three states a o e = ground arith

pub finite :
    (states : ℕ → HeaderState) (a : ℕ) (o : Object)
    → resolve header layout states a ≡ some o
    → Memᴰ o objects
finite states a o e = elim (one_of_three states a o e) [
  | inl p ↦ Memᴰ.head p
  | inr (inl p) ↦ Memᴰ.tail (Memᴰ.head p)
  | inr (inr p) ↦ Memᴰ.tail (Memᴰ.tail (Memᴰ.head p))
]

pub unmarked_outside :
    (os : ℕ) → ¬ Memᴰ os (all_states blocks) → is_marked (before.states os).flags ≡ false
unfolding is_marked
unmarked_outside os n = refl

-- 112 was put off.
abbrev waiting : Marking header layout address_set
waiting = record before { to_mark = 112 ∷ [] }

mark_mark_vector_ends_example :
    Finishes header layout address_set before.states objects (finite before.states) waiting
mark_mark_vector_ends_example =
    mark_mark_vector_ends header layout address_set before.states objects (finite before.states)
      waiting (λ os. (refl, refl, refl, refl, refl))
