-- ===== src/Examples/Cycling.antt =====
-- A whole collection of the sample heap, in which every object has user data with a finalizer. The state
-- at 160 is not reached.
use cgc.Base.{ℕ, ◌+◌, ◌≡◌, refl, true, false, some, [], ◌∷◌, Memᴰ}
use cgc.Word.Flags.{is_marked}
use cgc.Heap.Sample.{header, layout, address_set}
use cgc.Mark.{Marking}
use cgc.Sweep.{UserData, Sweeping, clear_marks}
use cgc.Sweep.Clear.{all_states}
use cgc.Passing.{Passing}
use cgc.Passing.Turns.{nothing_passed}
use cgc.Collection.{collector_round}
use cgc.Collection.Correct.{Collects}
use cgc.Collection.Cycle.{Finalizes, collector_round-Finalizes}
use cgc.Examples.Collecting.{before, blocks, objects, blocks-Distinct, finite}

abbrev user_data : ℕ → UserData
user_data p = record {
  is_default = false;
  uncollectable = false;
  allow_arbitrary_finalizer_thread = false;
  finalizer = some 7;
}

abbrev owned : Marking header layout address_set
owned = record before {
  states = λ os. record { used = true; quasi = false; flags = 0; ud = 400 + os };
}

owned_outside : (os : ℕ) → ¬ Memᴰ os (all_states blocks) → is_marked (owned.states os).flags ≡ false
unfolding is_marked
owned_outside os n = refl

collector_round-Finalizes_example :
    (rounds : ℕ) × (w : Sweeping header) × (q : Passing) × (collector_round header layout
        address_set user_data rounds blocks
        (8 ∷ [])
        []
        []
        []
        owned
        nothing_passed
      ≡ some (w, q))
    × Collects header layout address_set user_data blocks (8 ∷ []) [] [] [] owned w
    × Finalizes header layout address_set user_data owned nothing_passed q w.to_be_freed
collector_round-Finalizes_example =
    collector_round-Finalizes header layout address_set user_data blocks (8 ∷ []) [] [] owned
      nothing_passed objects blocks-Distinct owned_outside
      (finite (clear_marks header blocks owned.states))
