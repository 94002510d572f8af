-- ===== src/Mark/Steps.antt =====
-- One object is marked: by `set_mark` on its state, or by `set_marked` in its bitmap.
use cgc.Base.{ℕ, ◌≡◌, refl, ◌⊎◌, inl, true, arith}
use cgc.Word.Flags.{is_marked, is_atomic, is_complex, set_mark, setters-Independent}
use cgc.Heap.{ObjectHeader, Layout, AddressSet, update}
use cgc.Mark.{Marking, set_marked, mark_state}
use cgc.Mark.Reach.{Object, packed, sparse, marked, Fits}

module _ (H : ObjectHeader) (L : Layout) (A : AddressSet) (base : ℕ → H.State) where
  -- From `m` to `m'` the object `o` was marked, and nothing else was changed.
  pub record MarksOne (m m' : Marking H L A) (o : Object) : Type 0 where
    pub is_now : marked H L A m' o ≡ true
    pub still : (p : Object) → marked H L A m p ≡ true → marked H L A m' p ≡ true
    pub only : (p : Object) → marked H L A m' p ≡ true → (marked H L A m p ≡ true) ⊎ (p ≡ o)
    pub fits : Fits H L A base m → Fits H L A base m'
    pub queue : m'.to_mark ≡ m.to_mark

  pub set_marked_one :
      (state index : ℕ) (m : Marking H L A)
      → MarksOne m (set_marked H L A state index m) (packed state index)
  unfolding set_marked
  set_marked_one state index m = record {
    is_now = ground arith;
    still = still;
    only = only;
    fits = λ f. f;
    queue = refl;
  }
    where
      after : Marking H L A
      after = record m { bits = update m.bits state (update (m.bits state) index true) }

      still : (p : Object) → marked H L A m p ≡ true → marked H L A after p ≡ true
      still (packed s i) h = ground arith
      still (sparse os) h = h

      only :
          (p : Object)
          → marked H L A after p ≡ true
          → (marked H L A m p ≡ true) ⊎ (p ≡ packed state index)
      only (packed s i) h = ground arith
      only (sparse os) h = inl h

  flags_after :
      (s : H.State)
      → H.user_flags (H.set_user_flags (set_mark (H.user_flags s) true) s)
        ≡ set_mark (H.user_flags s) true
  flags_after s = H.user_flags-set _ s ((setters-Independent (H.user_flags s) true).0.3)

  pub mark_state_one : (os : ℕ) (m : Marking H L A) → MarksOne m (mark_state H L A os m) (sparse os)
  unfolding mark_state
  mark_state_one os m = record {
    is_now = ground (arith, now);
    still = still;
    only = only;
    fits = λ f q. ground (
      arith,
      f q,
      f os,
      H.in_use-set_flags (set_mark flags true) s,
      H.quasi_freed-set_flags (set_mark flags true) s,
      atomic_kept,
      complex_kept,
      H.user_data-set_flags (set_mark flags true) s,
    );
    queue = refl;
  }
    where
      s : H.State
      s = m.states os

      flags : ℕ
      flags = H.user_flags s

      s' : H.State
      s' = H.set_user_flags (set_mark flags true) s

      after : Marking H L A
      after = record m { states = update m.states os s' }

      now : is_marked (H.user_flags s') ≡ true
      now = rw (flags_after s) ((setters-Independent flags true).0.0)

      atomic_kept : is_atomic (H.user_flags s') ≡ is_atomic flags
      atomic_kept = rw (flags_after s) ((setters-Independent flags true).0.1)

      complex_kept : is_complex (H.user_flags s') ≡ is_complex flags
      complex_kept = rw (flags_after s) ((setters-Independent flags true).0.2)

      still : (p : Object) → marked H L A m p ≡ true → marked H L A after p ≡ true
      still (packed t i) h = h
      still (sparse q) h = ground (arith, now)

      only :
          (p : Object) → marked H L A after p ≡ true → (marked H L A m p ≡ true) ⊎ (p ≡ sparse os)
      only (packed t i) h = inl h
      only (sparse q) h = ground arith
