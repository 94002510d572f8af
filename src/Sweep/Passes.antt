-- ===== src/Sweep/Passes.antt =====
-- The two passes of finalization over a list of object states: the thread of the collector first, and
-- then the thread that runs the finalizers which were put aside.
use mathlib.Core.List.Memᴰ
use mathlib.Core.List.Perm
use mathlib.Core.Path.{subst₂}
use mathlib.Core.List.{Perm, perm_middle}
use cgc.Base.{
  ℕ, ◌≤◌, ◌≡◌, refl, sym, ap, ◌∙◌, subst, inl, inr, true, false, some, Option-cases, List, [], ◌∷◌,
  ◌++◌, Memᴰ, Memᴰ-cons, Bool-cases, arith,
}
use cgc.Heap.{ObjectHeader, Layout}
use cgc.Sweep.{
  UserData, Finalizing, finalize_each, finalize, finalize_local_each, do_local_sparse_finalization,
}
use cgc.Sweep.Trace.{
  calls, destroyed, deletions, finalizer_of, is_special, specials, freed, due, due_here, hidden,
}
use cgc.Sweep.Finalized.{step, deletions-step, step_keeps}
use cgc.Sweep.Totals.{
  calls-destroys, destroyed-destroys, deletions-destroys, blank, D-cons, finalize_each-Totals,
  finalize_local-Totals,
}

module _ (H : ObjectHeader) (L : Layout) (states : ℕ → H.State) (user_data : ℕ → UserData) where
  abbrev S : List ℕ → List ℕ
  S = specials H L states user_data

  abbrev D : List ℕ → List (ℕ × ℕ)
  D = due H L states user_data

  abbrev D_here : List ℕ → List (ℕ × ℕ)
  D_here = due_here H L states user_data

  -- `_finalize` puts aside exactly the states whose finalizer must not run in its thread, in order. It
  -- reports the hidden pointers of all other objects, runs the finalizers of those, and destroys the
  -- memory of all states on the list, also of those that it puts aside.
  pub finalize-exact :
      (l : List ℕ)
      → let z = finalize H L states user_data l in
        (z.special_finalization ≡ specials H L states user_data l)
        × (z.to_be_freed ≡ freed H L states user_data l)
        × (calls z.events ≡ due_here H L states user_data l)
        × (destroyed z.events ≡ l)
  unfolding finalize
  finalize-exact l =
      let t = finalize_each-Totals H L states user_data l blank in
      let es = (finalize_each H L states user_data l blank).events in
      (
        t.specials_are,
        t.freed_are,
        calls-destroys es l ∙ t.calls_are,
        destroyed-destroys es l t.destroyed_same,
      )

  -- `do_local_sparse_finalization` runs every finalizer that is due on its list, in order, reports the
  -- hidden pointers of all objects, and destroys the memory of all.
  pub local_finalization-exact :
      (l : List ℕ)
      → let z = do_local_sparse_finalization H L states user_data l in
        (z.to_be_freed ≡ hidden H L states user_data l)
        × (calls z.events ≡ due H L states user_data l)
        × (destroyed z.events ≡ l)
  unfolding do_local_sparse_finalization
  local_finalization-exact l =
      let t = finalize_local-Totals H L states user_data l blank in
      let es = (finalize_local_each H L states user_data l blank).events in
      (t.freed_are, calls-destroys es l ∙ t.calls_are, destroyed-destroys es l t.destroyed_same)

  -- The finalizers that run in the two passes are those that were due.
  passes_perm : (l : List ℕ) → Perm (D_here l ++ D (S l)) (D l)
  passes_perm [] = Perm.refl []
  passes_perm (os ∷ rest) = elim (Option-cases (finalizer_of H L states user_data os)) [
    | inl none_due ↦
        let e : D_here (os ∷ rest) ++ D (S (os ∷ rest)) ≡ D_here rest ++ D (S rest) =
          ground arith in
        let e' : D (os ∷ rest) ≡ D rest = ground arith in
        subst₂ Perm (sym e) (sym e') (passes_perm rest)
    | inr (f, due_is) ↦
        let x : ℕ × ℕ = (f, L.object_start os) in
        let e' : D (os ∷ rest) ≡ x ∷ D rest = ground arith in
        elim (Bool-cases (is_special H L states user_data os)) [
          | inl special ↦
              let e : D_here (os ∷ rest) ++ D (S (os ∷ rest)) ≡ D_here rest ++ x ∷ D (S rest) =
                ground arith in
              subst₂ Perm (sym e) (sym e') (
                Perm.trans (perm_middle (D_here rest) (D (S rest)))
                  (Perm.cons x (passes_perm rest)))
          | inr here ↦
              let e : D_here (os ∷ rest) ++ D (S (os ∷ rest)) ≡ x ∷ (D_here rest ++ D (S rest)) =
                ground arith in
              subst₂ Perm (sym e) (sym e') (Perm.cons x (passes_perm rest))
        ]
  ]

  -- The calls of `_finalize` on a list, and then of `do_local_sparse_finalization` on the states that it
  -- put aside, are together exactly the finalizers due on the list, each as often as it is due.
  pub finalizers_run_once :
      (l : List ℕ)
      → let first = finalize H L states user_data l in
        let second = do_local_sparse_finalization H L states user_data first.special_finalization in
        Perm (calls first.events ++ calls second.events) (due H L states user_data l)
  finalizers_run_once l =
      let a = finalize-exact l in
      let b = local_finalization-exact (S l) in rw (a.0, a.2, b.1) (passes_perm l)

  mem-specials :
      (os : ℕ) (l : List ℕ) → Memᴰ os l → is_special H L states user_data os ≡ true → Memᴰ os (S l)
  mem-specials os [] i s = absurd (Memᴰ.not-nil i)
  mem-specials os (q ∷ rest) i s = elim (Memᴰ.cases_cons i) [
    | inl e ↦ rw (← e, s) (Memᴰ.head refl)
    | inr j ↦ ground (arith, mem-specials os rest j s, Memᴰ-cons os q (S rest))
  ]

  mem-due :
      (os f : ℕ) (l : List ℕ)
      → Memᴰ os l
      → finalizer_of H L states user_data os ≡ some f
      → Memᴰ (f, L.object_start os) (D l)
  mem-due os f [] i s = absurd (Memᴰ.not-nil i)
  mem-due os f (q ∷ rest) i s = elim (Memᴰ.cases_cons i) [
    | inl e ↦
        let s' : finalizer_of H L states user_data q ≡ some f =
          subst (λ p. finalizer_of H L states user_data p ≡ some f) e s in
        let d : D (q ∷ rest) ≡ (f, L.object_start q) ∷ D rest = ground arith in
        rw d (Memᴰ.head (ap (λ p. (f, L.object_start p)) e))
    | inr j ↦
        rw (D-cons H L states user_data q rest)
          (Memᴰ.append_right (D (q ∷ [])) (mem-due os f rest j s))
  ]

  -- For an object on the list whose finalizer is bound to a thread, `_finalize` already destroys the
  -- memory; its finalizer is called with the address of the object in the second pass, and that pass
  -- destroys the memory once more.
  pub special_destroyed_twice :
      (os f : ℕ) (l : List ℕ)
      → Memᴰ os l
      → finalizer_of H L states user_data os ≡ some f
      → is_special H L states user_data os ≡ true
      → let first = finalize H L states user_data l in
        let second = do_local_sparse_finalization H L states user_data first.special_finalization in
        Memᴰ os (destroyed first.events)
        × Memᴰ (f, L.object_start os) (calls second.events)
        × Memᴰ os (destroyed second.events)
  special_destroyed_twice os f l i due_is special =
      let a = finalize-exact l in
      let b = local_finalization-exact (S l) in
      let j = mem-specials os l i special in
      rw (a.0, a.3, b.1, b.2) (i, mem-due os f (S l) j due_is, j)

  each_keeps :
      (p : ℕ) (l : List ℕ) (z : Finalizing)
      → deletions p z.events ≤ deletions p (finalize_each H L states user_data l z).events
  unfolding finalize_each
  each_keeps p [] z = omega arith
  each_keeps p (os ∷ rest) z =
      let later = each_keeps p rest (step H L states user_data os z) in
      omega (arith, later, step_keeps H L states user_data os z p)

  each_deletes_twice :
      (os f : ℕ) (l : List ℕ) (z : Finalizing)
      → Memᴰ os l
      → finalizer_of H L states user_data os ≡ some f
      → is_special H L states user_data os ≡ false
      → 2 ≤ deletions (H.user_data (states os)) (finalize_each H L states user_data l z).events
  unfolding finalize_each
  each_deletes_twice os f [] z i due_is here = absurd (Memᴰ.not-nil i)
  each_deletes_twice os f (q ∷ rest) z i due_is here = elim (Memᴰ.cases_cons i) [
    | inl e ↦
        let later = each_keeps (H.user_data (states os)) rest (step H L states user_data os z) in
        let twice = deletions-step H L states user_data os z f due_is here in
        rw (← e) (omega (arith, later, twice))
    | inr j ↦ each_deletes_twice os f rest (step H L states user_data q z) j due_is here
  ]

  -- For an object on the list whose finalizer may run in any thread, `_finalize` deallocates the user
  -- data at least twice.
  pub user_data_deleted_twice :
      (os f : ℕ) (l : List ℕ)
      → Memᴰ os l
      → finalizer_of H L states user_data os ≡ some f
      → is_special H L states user_data os ≡ false
      → 2 ≤ deletions (H.user_data (states os)) (finalize H L states user_data l).events
  unfolding finalize
  user_data_deleted_twice os f l i due_is here =
      let es = (finalize_each H L states user_data l blank).events in
      omega (
        arith,
        deletions-destroys (H.user_data (states os)) es l,
        each_deletes_twice os f l blank i due_is here,
      )
