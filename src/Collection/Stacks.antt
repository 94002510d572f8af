-- ===== src/Collection/Stacks.antt =====
-- The three phases together with the scan of the stacks.
use cgc.Base.{
  ℕ, ◌≡◌, sym, ap, ◌∙◌, ◌⊎◌, inl, inr, false, Option, none, some, List, Memᴰ, All, Distinct,
  Option-cases,
}
use cgc.Word.Flags.{is_marked}
use cgc.Heap.{ObjectHeader, Layout, AddressSet}
use cgc.Mark.{Marking, mark_roots}
use cgc.Mark.Reach.{Object, resolve}
use cgc.Thread.{ThreadState, Bounds}
use cgc.Thread.Gather.{tlks, Gathering, mark_phase}
use cgc.Thread.Scan.{Covers, resolve-is_candidate}
use cgc.Thread.Stopped.{stack_slots, IsStopped}
use cgc.Thread.Marked.{Gathers, gathers}
use cgc.Sweep.{UserData, Sweeping, clear_marks, sweep}
use cgc.Sweep.Clear.{all_states}
use cgc.Collection.{cleared_marking, collect_phases, collect_stopped}
use cgc.Collection.Correct.{Collects, collect_phases-Collects}

module _ (H : ObjectHeader) (L : Layout) (A : AddressSet) (user_data : ℕ → UserData) (B : Bounds)
    (align : ℕ → ℕ) (rounds : ℕ) where
  module _ (mark_rounds : ℕ) (blocks : List (List ℕ))
      (watched stack_roots roots range_points to_be_freed : List ℕ) (threads : List ThreadState)
      (m : Marking H L A) (g : Gathering A) where
    -- What the mark phase makes of the scanned threads.
    abbrev marking_found : Option (Marking H L A)
    marking_found =
        mark_roots H L A mark_rounds g.stack_roots roots range_points
          (cleared_marking H L A blocks (record m { to_mark = g.to_mark }))

    abbrev phases_found : Option (Sweeping H)
    phases_found =
        collect_phases H L A user_data mark_rounds blocks g.stack_roots roots range_points
          to_be_freed (record m { to_mark = g.to_mark })

    phases_some :
        (t : Marking H L A)
        → marking_found ≡ some t
        → phases_found ≡ some (sweep H user_data blocks t.states to_be_freed)
    unfolding collect_phases
    phases_some t e = rw (e, collect_phases)

    phases_none : marking_found ≡ none → phases_found ≡ none
    unfolding collect_phases
    phases_none e = rw (e, collect_phases)

    mark_phase-some :
        Gathers L B A align rounds watched
          (record { threads = threads; to_mark = m.to_mark; stack_roots = stack_roots })
          g
        → (t : Marking H L A) → marking_found ≡ some t
        → mark_phase L B A align rounds H mark_rounds watched stack_roots roots range_points threads
            (cleared_marking H L A blocks m)
          ≡ some (g.threads, t)
    unfolding mark_phase cleared_marking
    mark_phase-some x t e = rw (x.ends, mark_phase) (rw e)

    -- Once the threads are scanned, the rest is a collection from the roots that were found.
    collect_scanned :
        Gathers L B A align rounds watched
          (record { threads = threads; to_mark = m.to_mark; stack_roots = stack_roots })
          g
        → (w : Sweeping H) → phases_found ≡ some w
        → collect_stopped H L A user_data B align rounds mark_rounds blocks watched stack_roots
            roots range_points to_be_freed threads m
          ≡ some (g.threads, w)
    unfolding collect_stopped
    collect_scanned x w e = elim (Option-cases marking_found) [
      | inl lost ↦ absurd (let h = sym (phases_none lost) ∙ e in cc)
      | inr (t, found) ↦
          let same : sweep H user_data blocks t.states to_be_freed ≡ w =
            let h = sym (phases_some t found) ∙ e in cc in
          rw (mark_phase-some x t found, collect_stopped) (ap (λ v. some (g.threads, v)) same)
    ]

  -- The phases of a collector thread in a program whose registered threads are all stopped return, if no object state occurs
  -- twice in the blocks, states outside the blocks are not marked, finitely many objects can be met and the
  -- bounds of the scan cover the memory that is marked. They are a collection from a list of roots found on the
  -- stacks, from the roots, the ranges and a set of addresses put off: an object of the sparse allocator that
  -- can be reached from these is kept; one in use in the blocks that cannot is quasi freed if it has no user
  -- data of its own, and else, unless it is uncollectable, is to be freed. The list has every stack root from before and every
  -- slot on the stack of a watched thread whose word leads to an object, and else only slots on these
  -- stacks; and the set has only addresses put off before and potential roots of watched threads.
  pub collect_stopped-Collects :
      (blocks : List (List ℕ)) (watched stack_roots roots range_points to_be_freed : List ℕ)
      (threads : List ThreadState) (m : Marking H L A) (objects : List Object)
      → Covers L B
      → All (IsStopped align rounds) threads
      → Distinct (all_states blocks)
      → ((os : ℕ) → ¬ Memᴰ os (all_states blocks) → is_marked (H.user_flags (m.states os)) ≡ false)
      → ((a : ℕ) (o : Object)
          → resolve H L (clear_marks H blocks m.states) a ≡ some o
          → Memᴰ o objects)
      → (mark_rounds : ℕ) × (after : List ThreadState) × (w : Sweeping H) × (found : List ℕ)
        × (put_off : A.Set) × (collect_stopped H L A user_data B align rounds mark_rounds blocks
              watched stack_roots roots range_points to_be_freed threads m
            ≡ some (after, w))
        × ((p : ℕ) → Memᴰ p stack_roots → Memᴰ p found)
        × ((id : ℕ) (thread : ThreadState)
            → Memᴰ id watched
            → tlks id threads ≡ some thread
            → (p : ℕ) → Memᴰ p (stack_slots thread)
            → (o : Object) → resolve H L (clear_marks H blocks m.states) (L.load p) ≡ some o
            → Memᴰ p found)
        × ((p : ℕ)
            → Memᴰ p found
            → Memᴰ p stack_roots
              ⊎ ((id : ℕ) × (thread : ThreadState) × Memᴰ id watched
                  × (tlks id threads ≡ some thread)
                  × Memᴰ p (stack_slots thread)))
        × ((a : ℕ)
            → Memᴰ a (A.elems put_off)
            → Memᴰ a (A.elems m.to_mark)
              ⊎ ((id : ℕ) × (thread : ThreadState) × Memᴰ id watched
                  × (tlks id threads ≡ some thread)
                  × Memᴰ a thread.potential_roots))
        × Collects H L A user_data blocks found roots range_points to_be_freed
            (record m { to_mark = put_off })
            w
  collect_stopped-Collects blocks watched stack_roots roots range_points to_be_freed threads m
        objects c stopped d outside finite =
      let before : Gathering A = record {
        threads = threads;
        to_mark = m.to_mark;
        stack_roots = stack_roots;
      } in
      let (g, x) = gathers L B A align rounds watched before stopped in
      let m' : Marking H L A = record m { to_mark = g.to_mark } in
      let (mark_rounds, w, e, k) =
        collect_phases-Collects H L A user_data blocks g.stack_roots roots range_points to_be_freed
          m' objects d outside finite in
      (
        mark_rounds,
        g.threads,
        w,
        g.stack_roots,
        g.to_mark,
        collect_scanned mark_rounds blocks watched stack_roots roots range_points to_be_freed
            threads m g x w e,
        x.old,
        λ id thread i f p j o r.
            x.stacks id thread i f p j
              (resolve-is_candidate L B H (clear_marks H blocks m.states) c (L.load p) o r),
        x.only,
        x.put_off_only,
        k,
      )
