-- ===== src/Mark/Reach.antt =====
-- What the mark phase is to compute: the objects that an address leads to, and those that can be
-- reached from the addresses it starts with. The description fixes the states of the objects as they
-- are before the phase, and does not speak of marks.
use cgc.Base.{
  ℕ, ◌-◌, ◌/◌, ◌≡◌, Bool, not, ◌&&◌, ◌||◌, Option, none, some, List, [], Memᴰ, if◌then◌else◌, ◌==◌,
  ltb, leb,
}
use cgc.Word.Flags.{is_marked, is_atomic, is_complex}
use cgc.Heap.{ObjectHeader, Layout, AddressSet}
use cgc.Mark.{Marking, words, is_valid_object_state, find_valid_object_state, npos}

-- An entry of the bitmap allocator, or an object of the sparse one.
pub data Object : Type 0 where
  packed : ℕ → ℕ → Object
  sparse : ℕ → Object

module _ (H : ObjectHeader) (L : Layout) where
  -- The entry that an address in the bitmap allocator's memory lies in.
  unfoldable pub packed_at : ℕ → Option Object
  packed_at addr =
      let state = L.get_state addr in
      let index = L.get_index state addr in
      if leb L.fast_heap_end state || ltb state L.fast_heap_begin
      then none
      else if not (L.has_valid_magic_numbers state) || L.addr_in_header state addr
      then none
      else if index == npos
      then none
      else some (packed state index)

  unfoldable pub live : (ℕ → H.State) → ℕ → Option Object
  live base os =
      if H.in_use (base os) && not (H.quasi_freed (base os)) && L.has_next os
      then some (sparse os)
      else none

  -- The object of the sparse allocator that an address belongs to.
  unfoldable pub sparse_at : (ℕ → H.State) → ℕ → Option Object
  sparse_at base addr =
      if is_valid_object_state L (L.from_object_start addr)
      then live base (L.from_object_start addr)
      else elim (find_valid_object_state H L base addr) [ none ↦ none | some os ↦ live base os ]

  -- The object that a word is taken for, if it is taken for a pointer at all.
  unfoldable pub resolve : (ℕ → H.State) → ℕ → Option Object
  resolve base addr =
      if leb L.fast_heap_begin addr && ltb addr L.fast_heap_end
      then packed_at addr
      else if L.in_current_range (L.from_object_start addr)
      then sparse_at base addr
      else none

  -- The words of an object that is scanned. Atomic objects, and entries of another type than 2, are not.
  unfoldable pub children : (ℕ → H.State) → Object → List ℕ
  children base (packed state index) =
      if L.type_id state == 2
      then words L (L.get_object state index) (L.real_entry_size state / 8)
      else []
  children base (sparse os) =
      if is_atomic (H.user_flags (base os))
      then []
      else words L (L.object_start os) ((L.object_end os - L.object_start os) / 8)

  -- The words that a walk from `starts` through the objects meets.
  pub data Reach (base : ℕ → H.State) (starts : List ℕ) : ℕ → Type 0 where
    start : {a : ℕ} → Memᴰ a starts → Reach base starts a
    step :
        {a b : ℕ} (o : Object)
        → Reach base starts a
        → resolve base a ≡ some o
        → Memᴰ b (children base o)
        → Reach base starts b

module _ (H : ObjectHeader) (L : Layout) (A : AddressSet) where
  abbrev pub marked : Marking H L A → Object → Bool
  marked m (packed state index) = m.bits state index
  marked m (sparse os) = is_marked (H.user_flags (m.states os))

  -- The states differ from those at the start of the phase in their marks only.
  abbrev pub Fits : (ℕ → H.State) → Marking H L A → Type 0
  Fits base m =
      (os : ℕ)
      → (H.in_use (m.states os) ≡ H.in_use (base os))
        × (H.quasi_freed (m.states os) ≡ H.quasi_freed (base os))
        × (is_atomic (H.user_flags (m.states os)) ≡ is_atomic (H.user_flags (base os)))
        × (H.user_data (m.states os) ≡ H.user_data (base os))
        × (is_complex (H.user_flags (m.states os)) ≡ is_complex (H.user_flags (base os)))
