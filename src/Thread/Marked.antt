-- ===== src/Thread/Marked.antt =====
-- The mark phase with the scan of the stacks: what the words on the stacks of the watched threads lead to
-- is marked.
use mathlib.Core.List.Memᴰ
use cgc.Base.{
  ℕ, suc, ◌+◌, ◌-◌, ◌≡◌, refl, ◌⊎◌, sym, ap, ◌∙◌, subst, inl, inr, true, false, none, some, List,
  [], ◌∷◌, ◌++◌, map, Memᴰ, All, Option-cases, arith,
}
use cgc.Heap.{ObjectHeader, Layout, AddressSet}
use cgc.Mark.{Marking}
use cgc.Mark.Reach.{Object, resolve, start, marked, Fits}
use cgc.Mark.Exact.{mark_roots-exact}
use cgc.Thread.{ThreadState, found, Bounds, scan_stack, is_candidate}
use cgc.Thread.Scan.{
  candidates, mem-keep, keep-mem, scan_stack-candidates, Covers, resolve-is_candidate,
}
use cgc.Thread.Gather.{
  tlks, clear_roots_of, insert_all, Gathering, handle_thread, handle_threads, mark_phase,
}
use cgc.Thread.Stopped.{
  slot_count, stack_slots, IsStopped, some-same, clear_roots_of-IsStopped, tlks-IsStopped,
  tlks-clear_roots_of, clear_roots_of-tlks,
}

module _ (L : Layout) (B : Bounds) (A : AddressSet) (align : ℕ → ℕ) (rounds : ℕ) where
  -- What the scans of the threads `ids` led from `g` to `g'`.
  pub record Gathers (ids : List ℕ) (g g' : Gathering A) : Type 0 where
    pub ends : handle_threads L B A align rounds ids g ≡ some g'
    pub old : (p : ℕ) → Memᴰ p g.stack_roots → Memᴰ p g'.stack_roots
    pub only :
        (p : ℕ)
        → Memᴰ p g'.stack_roots
        → Memᴰ p g.stack_roots
          ⊎ ((id : ℕ) × (t : ThreadState) × Memᴰ id ids
              × (tlks id g.threads ≡ some t)
              × Memᴰ p (stack_slots t))
    pub put_off_only :
        (a : ℕ)
        → Memᴰ a (A.elems g'.to_mark)
        → Memᴰ a (A.elems g.to_mark)
          ⊎ ((id : ℕ) × (t : ThreadState) × Memᴰ id ids
              × (tlks id g.threads ≡ some t)
              × Memᴰ a t.potential_roots)
    pub stacks :
        (id : ℕ) (t : ThreadState)
        → Memᴰ id ids
        → tlks id g.threads ≡ some t
        → (p : ℕ) → Memᴰ p (stack_slots t)
        → is_candidate L B (L.load p) ≡ true
        → Memᴰ p g'.stack_roots

  scan_stopped :
      (container : List ℕ) (t : ThreadState)
      → IsStopped align rounds t
      → scan_stack L B align rounds container t
        ≡ found (container ++ candidates L B t.stack_ptr (slot_count t))
  scan_stopped container t s =
      let e : rounds ≡ suc (slot_count t + (rounds - suc (slot_count t))) =
        omega (arith, s.enough) in
      ap (λ r. scan_stack L B align r container t) e
      ∙ scan_stack-candidates L B align (slot_count t) (rounds - suc (slot_count t)) container t
          s.stack_set s.top_set s.aligned s.whole

  abbrev scanned : ℕ → ThreadState → Gathering A → Gathering A
  scanned id t g = record {
    threads = clear_roots_of id g.threads;
    to_mark = insert_all A t.potential_roots g.to_mark;
    stack_roots = g.stack_roots ++ candidates L B t.stack_ptr (slot_count t);
  }

  known_thread :
      (id : ℕ) (t : ThreadState) (g : Gathering A)
      → tlks id g.threads ≡ some t
      → IsStopped align rounds t
      → handle_thread L B A align rounds id g ≡ some (true, scanned id t g)
  unfolding handle_thread
  known_thread id t g e s = rw (e, handle_thread) (rw (scan_stopped g.stack_roots t s))

  unknown_thread :
      (id : ℕ) (g : Gathering A)
      → tlks id g.threads ≡ none
      → handle_thread L B A align rounds id g ≡ some (false, g)
  unfolding handle_thread
  unknown_thread id g e = rw (e, handle_thread)

  mem-insert_all :
      (a : ℕ) (xs : List ℕ) (set : A.Set)
      → Memᴰ a (A.elems (insert_all A xs set))
      → Memᴰ a xs ⊎ Memᴰ a (A.elems set)
  unfolding insert_all
  mem-insert_all a [] set i = inr i
  mem-insert_all a (x ∷ xs) set i = elim (mem-insert_all a xs (A.insert x set) i) [
    | inl j ↦ inl (Memᴰ.tail j)
    | inr j ↦ elim ((A.mem-insert a x set).0 j) [ inl e ↦ inl (Memᴰ.head e) | inr k ↦ inr k ]
  ]

  Gathers-unknown :
      (id : ℕ) (ids : List ℕ) (g g' : Gathering A)
      → tlks id g.threads ≡ none
      → Gathers ids g g'
      → Gathers (id ∷ ids) g g'
  unfolding handle_threads
  Gathers-unknown id ids g g' e x = record {
    ends = rw (unknown_thread id g e, handle_threads) x.ends;
    only = λ p i. elim (x.only p i) [
      | inl j ↦ inl j
      | inr (q, u, j, f, k) ↦ inr (q, u, Memᴰ.tail j, f, k)
    ];
    put_off_only = λ a i. elim (x.put_off_only a i) [
      | inl j ↦ inl j
      | inr (q, u, j, f, k) ↦ inr (q, u, Memᴰ.tail j, f, k)
    ];
    old = x.old;
    stacks = λ q t i f p j c. elim (Memᴰ.cases_cons i) [
      | inl same ↦
          absurd (let h : none ≡ some t = sym e ∙ ap (λ k. tlks k g.threads) (sym same) ∙ f in cc)
      | inr k ↦ x.stacks q t k f p j c
    ];
  }

  Gathers-known :
      (id : ℕ) (ids : List ℕ) (t : ThreadState) (g g' : Gathering A)
      → tlks id g.threads ≡ some t
      → IsStopped align rounds t
      → Gathers ids (scanned id t g) g'
      → Gathers (id ∷ ids) g g'
  unfolding handle_threads
  Gathers-known id ids t g g' e s x = record {
    ends = rw (known_thread id t g e s, handle_threads) x.ends;
    only = λ p i. elim (x.only p i) [
      | inl j ↦ elim (Memᴰ.append_cases g.stack_roots j) [
        | inl k ↦ inl k
        | inr k ↦ inr (
          id,
          t,
          Memᴰ.head refl,
          e,
          keep-mem (λ v. is_candidate L B (L.load v)) p (stack_slots t) k,
        )
      ]
      | inr (q, u, j, f, k) ↦
          let (v, a, b, c) = clear_roots_of-tlks id q g.threads u f in
          inr (q, v, Memᴰ.tail j, a, subst (Memᴰ p) b k)
    ];
    put_off_only = λ a i. elim (x.put_off_only a i) [
      | inl j ↦ elim (mem-insert_all a t.potential_roots g.to_mark j) [
        | inl k ↦ inr (id, t, Memᴰ.head refl, e, k)
        | inr k ↦ inl k
      ]
      | inr (q, u, j, f, k) ↦
          let (v, w, b, c) = clear_roots_of-tlks id q g.threads u f in
          inr (q, v, Memᴰ.tail j, w, c a k)
    ];
    old = λ p i. x.old p (Memᴰ.append_left (candidates L B t.stack_ptr (slot_count t)) i);
    stacks = λ q u i f p j c. elim (Memᴰ.cases_cons i) [
      | inl same ↦
          let w : t ≡ u = some-same t u (sym e ∙ ap (λ k. tlks k g.threads) (sym same) ∙ f) in
          x.old p (
            Memᴰ.append_right g.stack_roots (
              mem-keep (λ v. is_candidate L B (L.load v)) p (stack_slots t)
                (subst (λ k. Memᴰ p (stack_slots k)) (sym w) j) c))
      | inr k ↦
          let (v, a, b) = tlks-clear_roots_of id q g.threads u f in
          x.stacks q v k a p (subst (Memᴰ p) (sym b) j) c
    ];
  }

  pub gathers :
      (ids : List ℕ) (g : Gathering A)
      → All (IsStopped align rounds) g.threads
      → (g' : Gathering A) × Gathers ids g g'
  unfolding handle_threads
  gathers [] g h = (
    g,
    record {
      ends = refl;
      old = λ p i. i;
      only = λ p i. inl i;
      put_off_only = λ a i. inl i;
      stacks = λ q t i f p j c. absurd (Memᴰ.not-nil i);
    },
  )
  gathers (id ∷ ids) g h = elim (Option-cases (tlks id g.threads)) [
    | inl e ↦ let (g', x) = gathers ids g h in (g', Gathers-unknown id ids g g' e x)
    | inr (t, e) ↦
        let (g', x) =
          gathers ids (scanned id t g) (clear_roots_of-IsStopped align rounds id g.threads h) in
        (g', Gathers-known id ids t g g' e (tlks-IsStopped align rounds id g.threads t h e) x)
  ]

  mem-map-load : (p : ℕ) (xs : List ℕ) → Memᴰ p xs → Memᴰ (L.load p) (map L.load xs)
  mem-map-load p [] i = absurd (Memᴰ.not-nil i)
  mem-map-load p (x ∷ xs) i = elim (Memᴰ.cases_cons i) [
    | inl e ↦ Memᴰ.head (ap L.load e)
    | inr j ↦ Memᴰ.tail (mem-map-load p xs j)
  ]

  -- If all registered threads are stopped, nothing is marked before, finitely many objects can be met and
  -- the bounds of the scan cover the memory that is marked, then `_mark` returns. After it every object is
  -- marked that a word on the stack of a watched thread leads to, and every one that an old stack root
  -- leads to; the states differ from those before in their marks only.
  pub mark_phase-stacks :
      (H : ObjectHeader) (c : Covers L B) (watched stack_roots roots range_points : List ℕ)
      (threads : List ThreadState) (m : Marking H L A) (objects : List Object)
      → All (IsStopped align rounds) threads
      → ((a : ℕ) (o : Object) → resolve H L m.states a ≡ some o → Memᴰ o objects)
      → ((o : Object) → marked H L A m o ≡ false)
      → (mark_rounds : ℕ) × (after : List ThreadState) × (t : Marking H L A) × (mark_phase L B A
            align rounds H mark_rounds watched stack_roots roots range_points threads m
          ≡ some (after, t))
        × Fits H L A m.states t
        × ((id : ℕ) (thread : ThreadState)
            → Memᴰ id watched
            → tlks id threads ≡ some thread
            → (p : ℕ) → Memᴰ p (stack_slots thread)
            → (o : Object) → resolve H L m.states (L.load p) ≡ some o
            → marked H L A t o ≡ true)
        × ((p : ℕ)
            → Memᴰ p stack_roots
            → (o : Object) → resolve H L m.states (L.load p) ≡ some o
            → marked H L A t o ≡ true)
  unfolding mark_phase
  mark_phase-stacks H c watched stack_roots roots range_points threads m objects stopped finite
        clear =
      let before : Gathering A = record {
        threads = threads;
        to_mark = m.to_mark;
        stack_roots = stack_roots;
      } in
      let (g, x) = gathers watched before stopped in
      let m' : Marking H L A = record m { to_mark = g.to_mark } in
      let (mark_rounds, t, e, f, exact) =
        mark_roots-exact H L A g.stack_roots roots range_points m' objects finite clear in
      let from_slot : (p : ℕ)
          → Memᴰ p g.stack_roots
          → (o : Object) → resolve H L m.states (L.load p) ≡ some o
          → marked H L A t o ≡ true =
        λ p i o r. (exact o).1 (
          L.load p,
          start (
              Memᴰ.append_left (map L.load range_points ++ A.elems g.to_mark)
                (Memᴰ.append_left (map L.load roots) (mem-map-load p g.stack_roots i))),
          r,
        ) in
      (
        mark_rounds,
        g.threads,
        t,
        rw (x.ends, mark_phase) (rw e),
        f,
        λ id thread i k p j o r.
            from_slot p
              (x.stacks id thread i k p j (resolve-is_candidate L B H m.states c (L.load p) o r)) o
              r,
        λ p i o r. from_slot p (x.old p i) o r,
      )
