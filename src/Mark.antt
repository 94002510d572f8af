-- ===== src/Mark.antt =====
-- cgc1/src/gc_thread.cpp, the mark phase: `_is_bitmap_addr_markable`, `_mark_addrs_bitmap`,
-- `_mark_addrs_sparse`, `_mark_addrs`, `_mark_mark_vector` and the marking loops of `_mark`, with
-- `is_valid_object_state` and `_u_find_valid_object_state` of the kernel state. The world is stopped,
-- so memory and layout stay fixed, and a step changes marks and the set of addresses put off.
pub mod Reach
pub mod Steps
pub mod Visit
pub mod Walk
pub mod Ends
pub mod Rounds
pub mod Exact
use cgc.Base.{
  ℕ, zero, suc, ◌+◌, ◌-◌, ◌/◌, ◌%◌, Bool, true, false, not, ◌&&◌, ◌||◌, Option, none, some, List,
  [], ◌∷◌, map, if◌then◌else◌, ◌==◌, ltb, leb,
}
use cgc.Word.{word_mod}
use cgc.Word.Flags.{is_marked, is_atomic, set_mark}
use cgc.Heap.{ObjectHeader, Layout, AddressSet, update}

-- The words from `start`, `count` of them, as a `void **` walks over them.
unfoldable pub words : Layout → ℕ → ℕ → List ℕ
words L start zero = []
words L start (suc count) = L.load start ∷ words L (start + 8) count

-- `global_kernel_state_t::is_valid_object_state`.
unfoldable pub is_valid_object_state : Layout → ℕ → Bool
is_valid_object_state L os = if not (os % 16 == 0) then false else L.in_internal_allocator os

-- `std::numeric_limits<size_t>::max()`.
abbrev pub npos : ℕ
npos = word_mod - 1

module _ (H : ObjectHeader) (L : Layout) where
  -- `global_kernel_state_t::_u_find_valid_object_state`.
  unfoldable pub find_valid_object_state : (ℕ → H.State) → ℕ → Option ℕ
  find_valid_object_state states addr = elim (L.find_block addr) [
    | none ↦ none
    | some block ↦ elim (L.find_address block addr) [
      | none ↦ none
      | some os ↦ if not (H.in_use (states os)) then none else some os
    ]
  ]

module _ (H : ObjectHeader) (L : Layout) (A : AddressSet) where
  -- The states of sparse objects, by the address of the state, the mark bits of the bitmap allocator,
  -- by state and index, and `m_addresses_to_mark`.
  pub record Marking : Type 0 where
    pub states : ℕ → H.State
    pub bits : ℕ → ℕ → Bool
    pub to_mark : A.Set

  -- `state->set_marked(index)`.
  unfoldable pub set_marked : ℕ → ℕ → Marking → Marking
  set_marked state index m = record m {
    bits = update m.bits state (update (m.bits state) index true);
  }

  -- The returned code, 0 for an address to go on from, and the marks after the call.
  unfoldable pub is_bitmap_addr_markable : ℕ → Bool → Bool → Marking → ℕ × Marking
  is_bitmap_addr_markable addr do_mark force_mark m =
      let state = L.get_state addr in
      let index = L.get_index state addr in
      let m' = if do_mark then set_marked state index m else m in
      if leb L.fast_heap_end state
      then (1, m)
      else if ltb state L.fast_heap_begin
      then (2, m)
      else if not (L.has_valid_magic_numbers state)
      then (3, m)
      else if L.addr_in_header state addr
      then (4, m)
      else if index == npos
      then (5, m)
      else if m.bits state index && not force_mark
      then (6, m)
      else if not (L.type_id state == 2)
      then (7, m')
      else (0, m')

  -- `set_mark(os)`.
  unfoldable pub mark_state : ℕ → Marking → Marking
  mark_state os m =
      let s = m.states os in
      record m { states = update m.states os (H.set_user_flags (set_mark (H.user_flags s) true) s) }

  -- `m_addresses_to_mark.insert(addr)`.
  unfoldable pub put_off : ℕ → Marking → Marking
  put_off addr m = record m { to_mark = A.insert addr m.to_mark }

  -- `_mark_addrs` on every value of a list, in order.
  unfoldable pub mark_each : (ℕ → Marking → Marking) → List ℕ → Marking → Marking
  mark_each mark_one [] m = m
  mark_each mark_one (a ∷ rest) m = mark_each mark_one rest (mark_one a m)

  -- The two routines call `_mark_addrs` for the words of the object, with `depth + 1`: that call is
  -- the argument `deeper`.
  unfoldable pub mark_addrs_bitmap : (ℕ → Marking → Marking) → ℕ → ℕ → Marking → Marking
  mark_addrs_bitmap deeper addr depth m =
      let (code, m') = is_bitmap_addr_markable addr true false m in
      let state = L.get_state addr in
      let start = L.get_object state (L.get_index state addr) in
      if ltb 300 depth
      then put_off addr m
      else if not (code == 0)
      then m'
      else mark_each deeper (words L start (L.real_entry_size state / 8)) m'

  -- From the object state on that was found for the address.
  unfoldable pub mark_state_from : (ℕ → Marking → Marking) → ℕ → ℕ → ℕ → Marking → Marking
  mark_state_from deeper addr depth os m =
      let s = m.states os in
      let count = (L.object_end os - L.object_start os) / 8 in
      if not (H.in_use s) || H.quasi_freed s || not (L.has_next os)
      then m
      else if is_marked (H.user_flags s)
      then m
      else if is_atomic (H.user_flags s)
      then mark_state os m
      else if ltb 100 depth
      then put_off addr m
      else mark_each deeper (words L (L.object_start os) count) (mark_state os m)

  unfoldable pub mark_addrs_sparse : (ℕ → Marking → Marking) → ℕ → ℕ → Marking → Marking
  mark_addrs_sparse deeper addr depth m =
      let os = L.from_object_start addr in
      if is_valid_object_state L os
      then mark_state_from deeper addr depth os m
      else elim (find_valid_object_state H L m.states addr) [
        | none ↦ m
        | some found ↦ mark_state_from deeper addr depth found m
      ]

  -- The body of `_mark_addrs`.
  unfoldable pub mark_addrs_body : (ℕ → Marking → Marking) → ℕ → ℕ → Marking → Marking
  mark_addrs_body deeper addr depth m =
      if leb L.fast_heap_begin addr && ltb addr L.fast_heap_end
      then mark_addrs_bitmap deeper addr depth m
      else if L.in_current_range (L.from_object_start addr)
      then mark_addrs_sparse deeper addr depth m
      else m

  -- The recursion, with a count of the levels that may still be entered.
  unfoldable pub mark_addrs_levels : ℕ → ℕ → ℕ → Marking → Marking
  mark_addrs_levels zero addr depth m = m
  mark_addrs_levels (suc levels) addr depth m =
      mark_addrs_body (λ a n. mark_addrs_levels levels a (suc depth) n) addr depth m

  -- `_mark_addrs(addr, depth)`. Beyond depth 300 the code makes no further call.
  unfoldable pub mark_addrs : ℕ → ℕ → Marking → Marking
  mark_addrs addr depth m = mark_addrs_levels (suc (301 - depth)) addr depth m

  -- `_mark_mark_vector` for a number of rounds; `none` if they do not suffice.
  unfoldable pub mark_mark_vector : ℕ → Marking → Option Marking
  mark_mark_vector zero m = none
  mark_mark_vector (suc rounds) m = elim (A.take m.to_mark) [
    | none ↦ some m
    | some (addr, rest) ↦ mark_mark_vector rounds (mark_addrs addr 0 (record m { to_mark = rest }))
  ]

  -- `_mark` behind `handle_thread`: the values in the stack roots, in the single roots, at the points
  -- of the root ranges, and last the addresses put off.
  unfoldable pub mark_roots : ℕ → List ℕ → List ℕ → List ℕ → Marking → Option Marking
  mark_roots rounds stack_roots roots range_points m =
      let m1 = mark_each (λ a. mark_addrs a 0) (map L.load stack_roots) m in
      let m2 = mark_each (λ a. mark_addrs a 0) (map L.load roots) m1 in
      let m3 = mark_each (λ a. mark_addrs a 0) (map L.load range_points) m2 in
      mark_mark_vector rounds m3
