-- ===== src/Passing/Reports.antt =====
-- What `_d_freed_in_last_collection` answers after a collection whose objects have all been finalized.
use mathlib.Core.List.Perm
use mathlib.Core.Path.{subst₂}
use mathlib.Core.List.{append_assoc, Perm, perm_middle}
use cgc.Base.{ℕ, ◌≡◌, refl, sym, ap, true, List, [], ◌∷◌, ◌++◌, Bool-cases, inl, inr}
use cgc.Word.{hide_pointer}
use cgc.Heap.{ObjectHeader, Layout}
use cgc.Sweep.{UserData}
use cgc.Sweep.Trace.{freed, hidden, specials, is_special}
use cgc.Sweep.Passes.{finalize-exact, local_finalization-exact}
use cgc.Passing.{
  Passing, add_freed, add_need_special, get_local_finalization_vector, reset_freed,
  d_freed_in_last_collection, collector_finalizes, local_thread_finalization, wait_for_finalization,
}
use cgc.Passing.Turns.{starts, finalizes, waits_for, turn, turns, append_comm}

module _ (H : ObjectHeader) (L : Layout) (states : ℕ → H.State) (user_data : ℕ → UserData) where
  abbrev F : List ℕ → List ℕ
  F = freed H L states user_data

  abbrev S : List ℕ → List ℕ
  S = specials H L states user_data

  abbrev X : List ℕ → List ℕ
  X = hidden H L states user_data

  hidden-append : (xs ys : List ℕ) → X (xs ++ ys) ≡ X xs ++ X ys
  hidden-append [] ys = refl
  hidden-append (x ∷ xs) ys = ap (λ l. hide_pointer (L.object_start x) ∷ l) (hidden-append xs ys)

  freed_perm : (l : List ℕ) → Perm (F l ++ X (S l)) (X l)
  freed_perm [] = Perm.refl []
  freed_perm (os ∷ rest) =
      let x = hide_pointer (L.object_start os) in
      elim (Bool-cases (is_special H L states user_data os)) [
        | inl special ↦
            rw special
              (Perm.trans (perm_middle (F rest) (X (S rest))) (Perm.cons x (freed_perm rest)))
        | inr here ↦ rw here (Perm.cons x (freed_perm rest))
      ]

  reports_perm : (a l : List ℕ) → Perm (F l ++ X (a ++ S l)) (X (a ++ l))
  reports_perm a l =
      subst₂ (λ u v. Perm (F l ++ u) v) (sym (hidden-append a (S l))) (sym (hidden-append a l))
        (Perm.trans
          (subst₂ Perm (append_assoc (F l) (X a) (X (S l))) (append_assoc (X a) (F l) (X (S l)))
            (Perm.append_right (X (S l)) (append_comm (F l) (X a))))
          (Perm.append_left (X a) (freed_perm l)))

  -- After a collection, its finalization by the collector thread and a local finalization, from any state:
  -- `_d_freed_in_last_collection` answers the hidden pointers of exactly the objects that the collector
  -- thread has finalized and of those that were put aside before, each as often as it was on a list;
  -- nothing of earlier collections is left in it, and nothing is put aside.
  pub cycle-reports :
      (l : List ℕ) (p : Passing)
      → let q = turns H L states user_data (starts ∷ finalizes l ∷ waits_for true ∷ []) p in
        Perm (d_freed_in_last_collection q) (hidden H L states user_data (p.need_special ++ l))
        × (q.need_special ≡ [])
  unfolding turns turn reset_freed collector_finalizes add_freed add_need_special
      wait_for_finalization local_thread_finalization get_local_finalization_vector
      d_freed_in_last_collection
  cycle-reports l p =
      let a = finalize-exact H L states user_data l in
      let b = (local_finalization-exact H L states user_data (p.need_special ++ S l)).0 in
      (rw (a.0, a.1, b) (reports_perm p.need_special l), refl)
