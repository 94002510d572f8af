-- ===== src/Collection/Correct.antt =====
-- The three phases together, from the roots that the mark phase starts at to the states after the
-- sweep.
use mathlib.Core.List.Memᴰ
use cgc.Base.{
  ℕ, ◌≡◌, refl, ap, subst, ◌∙◌, inl, inr, ⊎_elim, ◌↔◌, true, false, ◌||◌, some, List, [], Memᴰ,
  Distinct, Bool-cases, contains, contains_iff, nat_eq, ◌≢◌, ◌==◌, arith,
}
use cgc.Word.Flags.{is_marked}
use cgc.Heap.{ObjectHeader, Layout, AddressSet}
use cgc.Mark.{Marking}
use cgc.Mark.Reach.{Object, packed, sparse, resolve, marked, Fits}
use cgc.Mark.Exact.{IsReachable, mark_roots-exact}
use cgc.Sweep.{UserData, Sweeping, clear_marks, sweep}
use cgc.Sweep.Clear.{all_states, SameButMark, clear_marks_at}
use cgc.Sweep.Swept.{fate, Sweeps, sweep-Sweeps, kept, quasi_freed, queued}
use cgc.Collection.Queue.{mem-queue_of, queue_of-mem, queue_of-Distinct, swept_data}
use cgc.Collection.{cleared_marking, collect_phases}

module _ (H : ObjectHeader) (L : Layout) (A : AddressSet) where
  -- Nothing is marked when the mark phase starts.
  pub cleared_clear :
      (blocks : List (List ℕ)) (m : Marking H L A)
      → ((os : ℕ) → ¬ Memᴰ os (all_states blocks) → is_marked (H.user_flags (m.states os)) ≡ false)
      → (o : Object) → marked H L A (cleared_marking H L A blocks m) o ≡ false
  unfolding cleared_marking
  cleared_clear blocks m outside (packed s i) = refl
  cleared_clear blocks m outside (sparse os) = elim (Bool-cases (contains os (all_states blocks))) [
    | inl i ↦
        (clear_marks_at H blocks os m.states).unmarked ((contains_iff os (all_states blocks)).0 i)
    | inr n ↦
        (clear_marks_at H blocks os m.states).stays
          (outside os (λ i. ground (arith, contains_iff os (all_states blocks))))
  ]

module _ (H : ObjectHeader) (L : Layout) (A : AddressSet) (user_data : ℕ → UserData) where
  -- The object of a state can be reached from the roots.
  abbrev pub StateIsReachable :
      List (List ℕ) → List ℕ → List ℕ → List ℕ → Marking H L A → ℕ → Type 0
  StateIsReachable blocks stack_roots roots range_points m os =
      IsReachable H L A stack_roots roots range_points (cleared_marking H L A blocks m) (sparse os)

  module _ (blocks : List (List ℕ)) (stack_roots roots range_points to_be_freed : List ℕ)
      (m : Marking H L A) where
    abbrev Reachable : ℕ → Type 0
    Reachable = StateIsReachable blocks stack_roots roots range_points m

    -- What the collection did to the states of the blocks.
    pub record Collects (w : Sweeping H) : Type 0 where
      -- An object that can be reached is as before: in use or not, quasi freed or not, with its data,
      -- and it is not to be freed unless it was so before.
      pub reachable_kept :
          (os : ℕ)
          → Reachable os
          → (H.in_use (w.states os) ≡ H.in_use (m.states os))
            × (H.quasi_freed (w.states os) ≡ H.quasi_freed (m.states os))
            × (H.user_data (w.states os) ≡ H.user_data (m.states os))
            × (Memᴰ os w.to_be_freed → Memᴰ os to_be_freed)
      -- An object in use that cannot be reached is quasi freed, if it has no user data of its own.
      pub garbage_quasi_freed :
          (os : ℕ)
          → Memᴰ os (all_states blocks)
          → ¬ Reachable os
          → H.in_use (m.states os) ≡ true
          → (H.user_data (m.states os) == 0 || (user_data (H.user_data (m.states os))).is_default)
            ≡ true
          → H.quasi_freed (w.states os) ≡ true
      -- With user data of its own it is to be freed, unless it is uncollectable.
      pub garbage_queued :
          (os : ℕ)
          → Memᴰ os (all_states blocks)
          → ¬ Reachable os
          → H.in_use (m.states os) ≡ true
          → (H.user_data (m.states os) == 0 || (user_data (H.user_data (m.states os))).is_default)
            ≡ false
          → (user_data (H.user_data (m.states os))).uncollectable ≡ false
          → Memᴰ os w.to_be_freed
      -- No object loses its user data, and none is put on an empty list twice.
      pub data_kept : (os : ℕ) → H.user_data (w.states os) ≡ H.user_data (m.states os)
      pub queued_once : to_be_freed ≡ [] → Distinct w.to_be_freed

  module _ (blocks : List (List ℕ)) (stack_roots roots range_points to_be_freed : List ℕ)
      (m : Marking H L A) (t : Marking H L A) (f : Fits H L A (clear_marks H blocks m.states) t)
      (exact : (o : Object)
        → (marked H L A t o ≡ true)
          ↔ IsReachable H L A stack_roots roots range_points (cleared_marking H L A blocks m) o)
      (w : Sweeping H)
      (x : Sweeps H user_data
        (all_states blocks)
        (record { states = t.states; to_be_freed = to_be_freed; num_freed = 0 })
        w)
      (distinct : Distinct (all_states blocks)) where
    abbrev R : ℕ → Type 0
    R = StateIsReachable blocks stack_roots roots range_points m

    cleared_at : (os : ℕ) → SameButMark H (m.states os) (clear_marks H blocks m.states os)
    cleared_at os = (clear_marks_at H blocks os m.states).same

    kept_fate : (os : ℕ) → R os → fate H user_data (t.states os) ≡ kept
    unfolding fate
    kept_fate os r =
        let on : is_marked (H.user_flags (t.states os)) ≡ true = (exact (sparse os)).1 r in
        ground arith

    kept_state : (os : ℕ) → R os → w.states os ≡ t.states os
    kept_state os r = elim (Bool-cases (contains os (all_states blocks))) [
      | inl i ↦ x.inside os ((contains_iff os (all_states blocks)).0 i) ∙ (rw (kept_fate os r))
      | inr n ↦ x.outside os (λ i. ground (arith, contains_iff os (all_states blocks)))
    ]

    unmarked : (os : ℕ) → ¬ R os → is_marked (H.user_flags (t.states os)) ≡ false
    unmarked os n = elim (Bool-cases (is_marked (H.user_flags (t.states os)))) [
      | inl on ↦ absurd (n ((exact (sparse os)).0 on))
      | inr off ↦ off
    ]

    data_at : (os : ℕ) → H.user_data (t.states os) ≡ H.user_data (m.states os)
    data_at os = (f os).3 ∙ (cleared_at os).data_same

    used_at : (os : ℕ) → H.in_use (t.states os) ≡ H.in_use (m.states os)
    used_at os = (f os).0 ∙ (cleared_at os).in_use_same

    kept_not_queued : (os : ℕ) → R os → fate H user_data (t.states os) ≢ queued
    kept_not_queued os r e = cc (kept_fate os r, e)

    quasi_fate :
        (os : ℕ)
        → ¬ R os
        → H.in_use (m.states os) ≡ true
        → (H.user_data (m.states os) == 0 || (user_data (H.user_data (m.states os))).is_default)
          ≡ true
        → fate H user_data (t.states os) ≡ quasi_freed
    unfolding fate
    quasi_fate os n used own = ground (arith, unmarked os n, used_at os, data_at os)

    queued-fate :
        (os : ℕ)
        → ¬ R os
        → H.in_use (m.states os) ≡ true
        → (H.user_data (m.states os) == 0 || (user_data (H.user_data (m.states os))).is_default)
          ≡ false
        → (user_data (H.user_data (m.states os))).uncollectable ≡ false
        → fate H user_data (t.states os) ≡ queued
    unfolding fate
    queued-fate os n used own coll = ground (arith, unmarked os n, used_at os, data_at os)

    data_after : (os : ℕ) → H.user_data (w.states os) ≡ H.user_data (m.states os)
    data_after os = elim (Bool-cases (contains os (all_states blocks))) [
      | inl i ↦
          ap H.user_data (x.inside os ((contains_iff os (all_states blocks)).0 i))
          ∙ swept_data H user_data (t.states os)
          ∙ data_at os
      | inr n ↦
          ap H.user_data (x.outside os (λ i. ground (arith, contains_iff os (all_states blocks))))
          ∙ data_at os
    ]

    collects : Collects blocks stack_roots roots range_points to_be_freed m w
    collects = record {
      reachable_kept = λ os r. (
        rw (kept_state os r) (used_at os),
        rw (kept_state os r) ((f os).1 ∙ (cleared_at os).quasi_same),
        rw (kept_state os r) (data_at os),
        λ i.
            ⊎_elim (λ old. old)
              (λ new. absurd (
                kept_not_queued os r
                  (mem-queue_of H user_data os t.states (all_states blocks) new)))
              (Memᴰ.append_cases to_be_freed (subst (Memᴰ os) x.queue i)),
      );
      garbage_quasi_freed = λ os i n used own.
          rw (x.inside os i, quasi_fate os n used own) (H.quasi_freed-set (t.states os));
      garbage_queued = λ os i n used own coll. rw x.queue (
          Memᴰ.append_right to_be_freed (
            queue_of-mem H user_data os t.states (all_states blocks) i
              (queued-fate os n used own coll)));
      data_kept = data_after;
      queued_once = λ e.
          rw (x.queue, e) (queue_of-Distinct H user_data t.states (all_states blocks) distinct);
    }

  -- A collection returns, if no object state occurs twice in the blocks, states outside the blocks are
  -- not marked, and finitely many objects can be met. Then every object of the sparse allocator that can
  -- be reached from the roots is as before, up to its mark, and is not put on the list to be freed. An
  -- object in use in the blocks that cannot be reached is quasi freed if it has no user data of its own;
  -- if it has, and is not uncollectable, it is put on the list to be freed.
  pub collect_phases-Collects :
      (blocks : List (List ℕ)) (stack_roots roots range_points to_be_freed : List ℕ)
      (m : Marking H L A) (objects : List Object)
      → Distinct (all_states blocks)
      → ((os : ℕ) → ¬ Memᴰ os (all_states blocks) → is_marked (H.user_flags (m.states os)) ≡ false)
      → ((a : ℕ) (o : Object)
          → resolve H L (clear_marks H blocks m.states) a ≡ some o
          → Memᴰ o objects)
      → (rounds : ℕ) × (w : Sweeping H) × (collect_phases H L A user_data rounds blocks stack_roots
            roots range_points to_be_freed m
          ≡ some w)
        × Collects blocks stack_roots roots range_points to_be_freed m w
  unfolding collect_phases cleared_marking
  collect_phases-Collects blocks stack_roots roots range_points to_be_freed m objects d outside
        finite =
      let (rounds, t, e, f, exact) =
        mark_roots-exact H L A stack_roots roots range_points (cleared_marking H L A blocks m)
          objects finite (cleared_clear H L A blocks m outside) in
      (
        rounds,
        sweep H user_data blocks t.states to_be_freed,
        rw (e, collect_phases),
        collects blocks stack_roots roots range_points to_be_freed m t f exact _
            (sweep-Sweeps H user_data blocks t.states to_be_freed d) d,
      )
