-- ===== src/Passing/Turns.antt =====
-- The turns of a collection, its finalization and a local finalization, with the states of one moment.
use mathlib.Core.List.Perm
use mathlib.Core.List.{append-nil, Perm, perm_middle}
use cgc.Base.{ℕ, sym, subst, Bool, List, [], ◌∷◌, ◌++◌}
use cgc.Heap.{ObjectHeader, Layout}
use cgc.Sweep.{UserData}
use cgc.Passing.{Passing, reset_freed, collector_finalizes, wait_for_finalization}

-- A collection starts, a collector thread finalizes a list of states, or a thread of the program waits for
-- finalization, with local finalization or without.
pub data Turn : Type 0 where
  starts : Turn
  finalizes : List ℕ → Turn
  waits_for : Bool → Turn

abbrev pub nothing_passed : Passing
nothing_passed = record { need_special = []; freed = []; num_freed = 0; events = [] }

module _ {A : Type 0} where
  pub append_comm : (xs ys : List A) → Perm (xs ++ ys) (ys ++ xs)
  append_comm [] ys = subst (Perm ys) (sym (append-nil ys)) (Perm.refl ys)
  append_comm (x ∷ xs) ys =
      Perm.trans (Perm.cons x (append_comm xs ys)) (Perm.symm (perm_middle ys xs))

module _ (H : ObjectHeader) (L : Layout) (states : ℕ → H.State) (user_data : ℕ → UserData) where
  unfoldable pub turn : Turn → Passing → Passing
  turn starts p = reset_freed p
  turn (finalizes l) p = collector_finalizes H L states user_data l p
  turn (waits_for b) p = wait_for_finalization H L states user_data b p

  unfoldable pub turns : List Turn → Passing → Passing
  turns [] p = p
  turns (t ∷ ts) p = turns ts (turn t p)
