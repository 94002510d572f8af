-- ===== src/Collection/Cycle.antt =====
-- A round of a collector thread with its finalization: which finalizers it runs.
use mathlib.Core.List.{Perm}
use mathlib.Core.Path.{fun_ext}
use cgc.Base.{
  ℕ, ◌≡◌, refl, ap, subst, inl, inr, false, some, List, [], ◌∷◌, ◌++◌, not, ◌&&◌, none,
  if◌then◌else◌, ◌==◌, Memᴰ, Distinct, Option-cases, arith,
}
use cgc.Word.Flags.{is_marked}
use cgc.Heap.{ObjectHeader, Layout, AddressSet}
use cgc.Mark.{Marking}
use cgc.Mark.Reach.{Object, resolve}
use cgc.Sweep.{UserData, Event, Sweeping, clear_marks, finalize, do_local_sparse_finalization}
use cgc.Sweep.Clear.{all_states}
use cgc.Sweep.Trace.{calls, due, finalizer_of}
use cgc.Sweep.Passes.{local_finalization-exact, finalizers_run_once}
use cgc.Passing.{Passing, add_freed, add_num_freed, add_need_special, collector_finalizes}
use cgc.Collection.{collector_round}
use cgc.Collection.Correct.{Collects, collect_phases-Collects}

module _ (H : ObjectHeader) (L : Layout) (A : AddressSet) (user_data : ℕ → UserData) where
  -- The finalizers due depend on the user data of the states only.
  due-same :
      (s t : ℕ → H.State) (l : List ℕ)
      → ((os : ℕ) → H.user_data (s os) ≡ H.user_data (t os))
      → due H L s user_data l ≡ due H L t user_data l
  due-same s t [] e = refl
  due-same s t (os ∷ rest) e =
      let f : finalizer_of H L s user_data os ≡ finalizer_of H L t user_data os =
        ap
          (λ (p : ℕ).
            if not (p == 0) && not (user_data p).is_default then (user_data p).finalizer else none)
          (e os) in
      let later = due-same s t rest e in
      elim (Option-cases (finalizer_of H L t user_data os)) [
        | inl nothing ↦ ground (arith, nothing, f, later)
        | inr (g, due_is) ↦ ground (arith, due_is, f, later)
      ]

  -- What a round did from `p` to `q`, with the list `l` of what it had to free.
  pub record Finalizes (m : Marking H L A) (p q : Passing) (l : List ℕ) : Type 0 where
    -- What the round has put aside for other threads, and what it has done.
    pub put_aside : List ℕ
    pub done : List Event
    pub need_special_is : q.need_special ≡ p.need_special ++ put_aside
    pub events_are : q.events ≡ p.events ++ done
    -- The finalizers called with those of the objects put aside are those due on the list.
    pub calls_due :
        Perm (calls done ++ due H L m.states user_data put_aside) (due H L m.states user_data l)

  round-Finalizes :
      (m : Marking H L A) (states : ℕ → H.State) (l : List ℕ) (p : Passing)
      → ((os : ℕ) → H.user_data (states os) ≡ H.user_data (m.states os))
      → Finalizes m p (collector_finalizes H L states user_data l p) l
  unfolding collector_finalizes add_freed add_need_special
  round-Finalizes m states l p kept =
      let z = finalize H L states user_data l in
      let second = do_local_sparse_finalization H L states user_data z.special_finalization in
      let e : calls second.events ≡ due H L states user_data z.special_finalization =
        (local_finalization-exact H L states user_data z.special_finalization).1 in
      let same : due H L states user_data ≡ due H L m.states user_data =
        fun_ext (λ k. due-same states m.states k kept) in
      let both : Perm (calls z.events ++ due H L states user_data z.special_finalization)
          (due H L states user_data l) =
        subst (λ d. Perm (calls z.events ++ d) (due H L states user_data l)) e
          (finalizers_run_once H L states user_data l) in
      record {
        put_aside = z.special_finalization;
        done = z.events;
        need_special_is = refl;
        events_are = refl;
        calls_due =
            subst
              (λ (D : List ℕ → List (ℕ × ℕ)).
                Perm (calls z.events ++ D z.special_finalization) (D l))
              same both;
      }

  -- A round of a single collector thread returns, if no object state occurs twice in the blocks, states
  -- outside the blocks are not marked, finitely many objects can be met and nothing is left to be freed from
  -- before. A sparse object that can be reached is kept and not put on the list to be freed, on which is,
  -- once, every unreachable object in use in the blocks that has data of its own and is not uncollectable. The
  -- finalizers that the collector thread then calls, with those of the objects that it puts aside for
  -- other threads, are exactly those due on this list, each as often as it is due.
  pub collector_round-Finalizes :
      (blocks : List (List ℕ)) (stack_roots roots range_points : List ℕ) (m : Marking H L A)
      (p : Passing) (objects : List Object)
      → Distinct (all_states blocks)
      → ((os : ℕ) → ¬ Memᴰ os (all_states blocks) → is_marked (H.user_flags (m.states os)) ≡ false)
      → ((a : ℕ) (o : Object)
          → resolve H L (clear_marks H blocks m.states) a ≡ some o
          → Memᴰ o objects)
      → (rounds : ℕ) × (w : Sweeping H) × (q : Passing) × (collector_round H L A user_data rounds
            blocks stack_roots roots range_points [] m p
          ≡ some (w, q))
        × Collects H L A user_data blocks stack_roots roots range_points [] m w
        × Finalizes m p q w.to_be_freed
  unfolding collector_round add_num_freed
  collector_round-Finalizes blocks stack_roots roots range_points m p objects d outside finite =
      let (rounds, w, e, c) =
        collect_phases-Collects H L A user_data blocks stack_roots roots range_points [] m objects d
          outside finite in
      let before = add_num_freed w.num_freed p in
      let done = round-Finalizes m w.states w.to_be_freed before c.data_kept in
      (
        rounds,
        w,
        collector_finalizes H L w.states user_data w.to_be_freed before,
        rw (e, collector_round),
        c,
        record {
          put_aside = done.put_aside;
          done = done.done;
          need_special_is = done.need_special_is;
          events_are = done.events_are;
          calls_due = done.calls_due;
        },
      )
