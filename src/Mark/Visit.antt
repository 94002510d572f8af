-- ===== src/Mark/Visit.antt =====
-- One call of `_mark_addrs`, by cases: the word is no pointer, its object is marked already, the
-- address is put off, or the object is marked and its words are visited.
use cgc.Base.{
  ℕ, ◌≤◌, ◌<◌, ◌≡◌, refl, ◌⊎◌, inl, inr, true, false, ◌&&◌, Bool-cases, none, some, Option-cases,
  [], ◌==◌, ltb, leb, arith,
}
use cgc.Word.Flags.{is_marked, is_atomic}
use cgc.Heap.{ObjectHeader, Layout, AddressSet}
use cgc.Mark.{
  Marking, is_valid_object_state, find_valid_object_state, set_marked, mark_state, put_off,
  mark_each, is_bitmap_addr_markable, mark_addrs_bitmap, mark_state_from, mark_addrs_sparse,
  mark_addrs_body,
}
use cgc.Mark.Reach.{
  Object, packed, sparse, packed_at, live, sparse_at, resolve, children, marked, Fits,
}
use cgc.Mark.Steps.{MarksOne, set_marked_one, mark_state_one}

module _ (H : ObjectHeader) (L : Layout) (A : AddressSet) where
  -- The code that `_is_bitmap_addr_markable` returns when it may mark, against the entry at the address.
  pub data Markable (addr : ℕ) (m : Marking H L A) (r : ℕ × Marking H L A) : Type 0 where
    nowhere : packed_at H L addr ≡ none → (r.0 == 0) ≡ false → r.1 ≡ m → Markable addr m r
    seen :
        (s i : ℕ)
        → packed_at H L addr ≡ some (packed s i)
        → m.bits s i ≡ true
        → (r.0 == 0) ≡ false
        → r.1 ≡ m
        → Markable addr m r
    fresh :
        (s i : ℕ)
        → packed_at H L addr ≡ some (packed s i)
        → m.bits s i ≡ false
        → s ≡ L.get_state addr
        → i ≡ L.get_index s addr
        → (r.0 == 0) ≡ (L.type_id s == 2)
        → r.1 ≡ set_marked H L A s i m
        → Markable addr m r

  pub markable_cases :
      (addr : ℕ) (m : Marking H L A)
      → Markable addr m (is_bitmap_addr_markable H L A addr true false m)
  unfolding is_bitmap_addr_markable packed_at
  markable_cases addr m = elim (Option-cases (packed_at H L addr)) [
    | inl e ↦ nowhere e (ground arith) (ground arith)
    | inr (o, e) ↦
        elim (Bool-cases (m.bits (L.get_state addr) (L.get_index (L.get_state addr) addr))) [
          | inl old ↦
              seen (L.get_state addr) (L.get_index (L.get_state addr) addr) (ground arith) old
                (ground arith) (ground arith)
          | inr new ↦
              fresh (L.get_state addr) (L.get_index (L.get_state addr) addr) (ground arith) new refl
                refl (ground arith) (ground arith)
        ]
  ]

module _ (H : ObjectHeader) (L : Layout) (A : AddressSet) (base : ℕ → H.State) where
  -- What a call at `depth` did, if it led from `m` to `m'` and calls `deeper` for the words that it meets.
  pub data Outcome (deeper : ℕ → Marking H L A → Marking H L A) (addr depth : ℕ)
      (m m' : Marking H L A) : Type 0 where
    skips : resolve H L base addr ≡ none → m' ≡ m → Outcome deeper addr depth m m'
    knows :
        (o : Object)
        → resolve H L base addr ≡ some o
        → marked H L A m o ≡ true
        → m' ≡ m
        → Outcome deeper addr depth m m'
    delays : 100 < depth → m' ≡ put_off H L A addr m → Outcome deeper addr depth m m'
    enters :
        (o : Object) (m1 : Marking H L A)
        → resolve H L base addr ≡ some o
        → marked H L A m o ≡ false
        → MarksOne H L A base m m1 o
        → (depth ≤ 300) ⊎ (children H L base o ≡ [])
        → m' ≡ mark_each H L A deeper (children H L base o) m1
        → Outcome deeper addr depth m m'

  -- Marks do not change what the search finds.
  find_valid_object_state-Fits :
      (m : Marking H L A) (addr : ℕ)
      → Fits H L A base m
      → find_valid_object_state H L m.states addr ≡ find_valid_object_state H L base addr
  unfolding find_valid_object_state
  find_valid_object_state-Fits m addr f = elim (Option-cases (L.find_block addr)) [
    | inl none_found ↦ ground arith
    | inr (block, b) ↦ elim (Option-cases (L.find_address block addr)) [
      | inl none_found ↦ ground arith
      | inr (os, a) ↦ ground (arith, f os)
    ]
  ]

  module _ (deeper : ℕ → Marking H L A → Marking H L A) (addr depth : ℕ) (m : Marking H L A) where
    bitmap-Outcome :
        resolve H L base addr ≡ packed_at H L addr
        → Outcome deeper addr depth m (mark_addrs_bitmap H L A deeper addr depth m)
    unfolding mark_addrs_bitmap children mark_each
    bitmap-Outcome here = elim (Bool-cases (ltb 300 depth)) [
      | inl deep ↦ delays (ground arith) (ground arith)
      | inr shallow ↦ elim (markable_cases H L A addr m) [
        | nowhere e c k ↦ skips (ground arith) (ground arith)
        | seen s i e b c k ↦ knows (packed s i) (ground arith) b (ground arith)
        | fresh s i e b es ei c k ↦
            enters (packed s i) (set_marked H L A s i m) (ground arith) b
              (set_marked_one H L A base s i m) (inl (ground arith)) (ground arith)
      ]
    ]

    state-Outcome :
        (os : ℕ)
        → Fits H L A base m
        → resolve H L base addr ≡ live H L base os
        → Outcome deeper addr depth m (mark_state_from H L A deeper addr depth os m)
    unfolding mark_state_from children mark_each live
    state-Outcome os f here = elim (Option-cases (live H L base os)) [
      | inl e ↦ skips (ground arith) (ground (arith, f os))
      | inr (o, e) ↦ elim (Bool-cases (is_marked (H.user_flags (m.states os)))) [
        | inl old ↦ knows (sparse os) (ground arith) old (ground (arith, f os))
        | inr new ↦ elim (Bool-cases (is_atomic (H.user_flags (m.states os)))) [
          | inl leaf ↦
              enters (sparse os) (mark_state H L A os m) (ground arith) new
                (mark_state_one H L A base os m) (inr (ground (arith, f os))) (ground (arith, f os))
          | inr scanned ↦ elim (Bool-cases (ltb 100 depth)) [
            | inl deep ↦ delays (ground arith) (ground (arith, f os))
            | inr shallow ↦
                enters (sparse os) (mark_state H L A os m) (ground arith) new
                  (mark_state_one H L A base os m) (inl (ground arith)) (ground (arith, f os))
          ]
        ]
      ]
    ]

    sparse-Outcome :
        Fits H L A base m
        → resolve H L base addr ≡ sparse_at H L base addr
        → Outcome deeper addr depth m (mark_addrs_sparse H L A deeper addr depth m)
    unfolding mark_addrs_sparse sparse_at
    sparse-Outcome f here = elim (Bool-cases (is_valid_object_state L (L.from_object_start addr))) [
      | inl direct ↦ rw direct (state-Outcome (L.from_object_start addr) f (ground arith))
      | inr indirect ↦ elim (Option-cases (find_valid_object_state H L base addr)) [
        | inl missing ↦ skips (ground arith) (ground (arith, find_valid_object_state-Fits m addr f))
        | inr (os, found) ↦
            rw (indirect, mark_addrs_sparse, find_valid_object_state-Fits m addr f, found)
              (state-Outcome os f (ground arith))
      ]
    ]

    -- Every call of `_mark_addrs`, at any depth, does one of the four.
    pub body-Outcome :
        Fits H L A base m → Outcome deeper addr depth m (mark_addrs_body H L A deeper addr depth m)
    unfolding mark_addrs_body resolve
    body-Outcome f = elim (Bool-cases (leb L.fast_heap_begin addr && ltb addr L.fast_heap_end)) [
      | inl fast ↦ rw fast (bitmap-Outcome (ground arith))
      | inr slow ↦ elim (Bool-cases (L.in_current_range (L.from_object_start addr))) [
        | inl there ↦ rw (slow, there) (sparse-Outcome f (ground arith))
        | inr off ↦ skips (ground arith) (ground arith)
      ]
    ]
