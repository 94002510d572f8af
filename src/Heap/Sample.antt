-- ===== src/Heap/Sample.antt =====
-- A small heap, as an instance of the interfaces: one entry in the bitmap allocator, and two objects
-- of two words in the sparse one. The first sparse object points to the second and to the entry.
use cgc.Base.{
  ℕ, ◌+◌, ◌-◌, ◌<◌, ◌≡◌, refl, ◌↔◌, ◌⊎◌, inl, inr, ⊎_elim, Bool, true, false, ◌&&◌, Option, none,
  some, List, [], ◌∷◌, Memᴰ, Memᴰ-cons, length, contains, contains_iff, nat_eq, if◌then◌else◌, ◌==◌,
  ltb, leb, Bool-cases, arith,
}
use cgc.Heap.{ObjectHeader, Layout, AddressSet}

pub record HeaderState : Type 0 where
  pub used : Bool
  pub quasi : Bool
  pub flags : ℕ
  pub ud : ℕ

abbrev pub header : ObjectHeader
header = record {
  State = HeaderState;
  in_use = λ s. s.used;
  quasi_freed = λ s. s.quasi;
  user_flags = λ s. s.flags;
  user_data = λ s. s.ud;
  set_user_flags = λ n s. record s { flags = n };
  set_quasi_freed = λ s. record s { quasi = true };
  set_user_data = λ n s. record s { ud = n };
  user_flags-set = λ n s h. refl;
  in_use-set_flags = λ n s. refl;
  quasi_freed-set_flags = λ n s. refl;
  user_data-set_flags = λ n s. refl;
  quasi_freed-set = λ s. refl;
  user_flags-set_quasi = λ s. refl;
  user_data-set_quasi = λ s. refl;
  user_data-set = λ n s. refl;
  user_flags-set_data = λ n s. refl;
}

-- The entry's state is at 1000, its object at 1064. The states of the sparse objects are at 96 and 128.
abbrev pub layout : Layout
layout = record {
  fast_heap_begin = 1000;
  fast_heap_end = 1096;
  get_state = λ a. 1000;
  has_valid_magic_numbers = λ s. true;
  addr_in_header = λ s a. ltb a 1064;
  get_index = λ s a. 0;
  type_id = λ s. 2;
  get_object = λ s i. 1064;
  real_entry_size = λ s. 32;
  in_current_range = λ os. leb 96 os && ltb os 144;
  from_object_start = λ a. a - 16;
  find_block = λ a. some 96;
  find_address = λ b a. if ltb a 144 then some 96 else some 128;
  has_next = λ os. true;
  object_start = λ os. os + 16;
  object_end = λ os. os + 32;
  in_internal_allocator = λ os. false;
  load = λ p. if p == 112 then 144 else if p == 120 then 1064 else if p == 8 then 112 else 0;
  entry_words = λ s. refl;
  object_words = λ os. omega arith;
  object_order = λ os. omega arith;
}

unfoldable pub insert_new : ℕ → List ℕ → List ℕ
insert_new a xs = if contains a xs then xs else a ∷ xs

pub mem-insert_new : (x a : ℕ) (xs : List ℕ) → Memᴰ x (insert_new a xs) ↔ ((x ≡ a) ⊎ Memᴰ x xs)
unfolding insert_new
mem-insert_new x a xs = elim (Bool-cases (contains a xs)) [
  | inl old ↦ rw old (inr, ⊎_elim (λ e. rw e ((contains_iff a xs).0 old)) (λ m. m))
  | inr new ↦ rw new (Memᴰ-cons x a xs)
]

abbrev pub take_first : List ℕ → Option (ℕ × List ℕ)
take_first [] = none
take_first (a ∷ xs) = some (a, xs)

pub take_first-none : (xs : List ℕ) → take_first xs ≡ none → xs ≡ []
take_first-none [] h = refl
take_first-none (a ∷ xs) h = cc

pub take_first-some :
    (xs : List ℕ) (a : ℕ) (rest : List ℕ)
    → take_first xs ≡ some (a, rest)
    → ((x : ℕ) → Memᴰ x xs ↔ ((x ≡ a) ⊎ Memᴰ x rest)) × (length rest < length xs)
take_first-some [] a rest h = cc
take_first-some (b ∷ xs) a rest h =
    let e : b ≡ a = ground arith in
    let e' : xs ≡ rest = ground arith in rw (e, e') (λ x. Memᴰ-cons x a rest, omega arith)

abbrev pub address_set : AddressSet
address_set = record {
  Set = List ℕ;
  insert = insert_new;
  take = take_first;
  elems = λ s. s;
  mem-insert = mem-insert_new;
  take-none = take_first-none;
  take-some = take_first-some;
}
