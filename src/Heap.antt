-- ===== src/Heap.antt =====
-- What the collector takes from the libraries it is built on (mcppalloc, mcpputil, boost), as
-- interfaces. Their code is not part of the repository: an operation is a field, and a law says what
-- the collector relies on. `Heap/Sample.antt` has an instance.
pub mod Sample
use cgc.Base.{
  ℕ, ◌+◌, ◌-◌, ◌*◌, ◌%◌, ◌<◌, ◌≤◌, ◌≡◌, ◌↔◌, ◌⊎◌, Bool, true, Option, none, some, List, [], Memᴰ,
  length, if◌then◌else◌, ◌==◌,
}
use cgc.Word.Flags.{is_marked, is_atomic}

-- `mcppalloc`'s state of an object of the sparse allocator, which lies before the object. The user
-- data is an address, 0 for a null pointer.
pub record ObjectHeader : Type 1 where
  pub State : Type 0
  pub in_use : State → Bool
  pub quasi_freed : State → Bool
  pub user_flags : State → ℕ
  pub user_data : State → ℕ
  pub set_user_flags : ℕ → State → State
  pub set_quasi_freed : State → State
  pub set_user_data : ℕ → State → State
  -- The flags hold a number of three bits, and no other part of the state moves with them.
  pub user_flags-set : (n : ℕ) (s : State) → n < 8 → user_flags (set_user_flags n s) ≡ n
  pub in_use-set_flags : (n : ℕ) (s : State) → in_use (set_user_flags n s) ≡ in_use s
  pub quasi_freed-set_flags : (n : ℕ) (s : State) → quasi_freed (set_user_flags n s) ≡ quasi_freed s
  pub user_data-set_flags : (n : ℕ) (s : State) → user_data (set_user_flags n s) ≡ user_data s
  -- `set_quasi_freed` makes the state quasi freed and keeps flags and user data.
  pub quasi_freed-set : (s : State) → quasi_freed (set_quasi_freed s) ≡ true
  pub user_flags-set_quasi : (s : State) → user_flags (set_quasi_freed s) ≡ user_flags s
  pub user_data-set_quasi : (s : State) → user_data (set_quasi_freed s) ≡ user_data s
  pub user_data-set : (ud : ℕ) (s : State) → user_data (set_user_data ud s) ≡ ud
  pub user_flags-set_data : (ud : ℕ) (s : State) → user_flags (set_user_data ud s) ≡ user_flags s

-- Where things lie: the part of the two allocators that does not change during a collection, and the
-- words of memory.
pub record Layout : Type 0 where
  -- The bitmap allocator: `underlying_memory()`, `get_state`, and the members of a bitmap state.
  pub fast_heap_begin : ℕ
  pub fast_heap_end : ℕ
  pub get_state : ℕ → ℕ
  pub has_valid_magic_numbers : ℕ → Bool
  pub addr_in_header : ℕ → ℕ → Bool
  pub get_index : ℕ → ℕ → ℕ
  pub type_id : ℕ → ℕ
  pub get_object : ℕ → ℕ → ℕ
  pub real_entry_size : ℕ → ℕ
  -- The sparse allocator: `_u_current_range().contains`, `from_object_start`, `_u_find_block`,
  -- `find_address`, and of an object state whether `next()` is not null, and the object.
  pub in_current_range : ℕ → Bool
  pub from_object_start : ℕ → ℕ
  pub find_block : ℕ → Option ℕ
  pub find_address : ℕ → ℕ → Option ℕ
  pub has_next : ℕ → Bool
  pub object_start : ℕ → ℕ
  pub object_end : ℕ → ℕ
  -- `mcppalloc::sparse::details::is_valid_object_state` in the memory of the internal allocator.
  pub in_internal_allocator : ℕ → Bool
  -- `*reinterpret_cast<void **>(p)`.
  pub load : ℕ → ℕ
  -- Objects are made of whole words, so that a walk over them by `void **` meets their end.
  pub entry_words : (state : ℕ) → real_entry_size state % 8 ≡ 0
  pub object_words : (os : ℕ) → (object_end os - object_start os) % 8 ≡ 0
  pub object_order : (os : ℕ) → object_start os ≤ object_end os

-- `boost::container::flat_set` of addresses and `mcpputil::reverse_consume_for_each` over it: `take`
-- is one round, the element that it takes out and the set that is left.
pub record AddressSet : Type 1 where
  pub Set : Type 0
  pub insert : ℕ → Set → Set
  pub take : Set → Option (ℕ × Set)
  -- The elements.
  pub elems : Set → List ℕ
  pub mem-insert : (x a : ℕ) (s : Set) → Memᴰ x (elems (insert a s)) ↔ ((x ≡ a) ⊎ Memᴰ x (elems s))
  pub take-none : (s : Set) → take s ≡ none → elems s ≡ []
  pub take-some :
      (s : Set) (a : ℕ) (rest : Set)
      → take s ≡ some (a, rest)
      → ((x : ℕ) → Memᴰ x (elems s) ↔ ((x ≡ a) ⊎ Memᴰ x (elems rest)))
        × (length (elems rest) < length (elems s))

-- A write to a memory that is a function of the address.
abbrev pub update {ℓ} : {A : Type ℓ} → (ℕ → A) → ℕ → A → ℕ → A
update f i a j = if i == j then a else f j
